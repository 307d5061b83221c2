-- ===== src/Config/Network.antt =====
-- The arithmetic of networks, src/config.rs `network_addr` and `ip_in_network`.
use native.Mathlib.Nat.{div-lt_iff_lt-mul, one-le-pow, mul-div_cancel}
use soulvpn.Base.{
  ℕ, zero, suc, ◌-◌, ◌*◌, ◌/◌, ◌^◌, ◌≤◌, ◌<◌, ◌≡◌, ◌≢◌, refl, sym, ap, ◌∙◌, Bool, true, false,
  bit_and, ◌==◌, ==_iff, arith, ◌&&◌, ℕ_discrete,
}
use soulvpn.Crypto.Bits.{bit_and-high_ones}
use soulvpn.Config.{mask, network_addr, ip_in_network}

-- A test that holds below `n`, by trying all.
unfoldable pub all_below : ℕ → (ℕ → Bool) → Bool
all_below zero f = true
all_below (suc n) f = f n && all_below n f

pub all_below-true : (n k : ℕ) (f : ℕ → Bool) → all_below n f ≡ true → k < n → f k ≡ true
unfolding all_below
all_below-true zero k f h lt = elim lt [ ]
all_below-true (suc n) k f h lt = elim (ℕ_discrete k n) [
  | yes e ↦ rw e (ground arith)
  | no ne ↦ all_below-true n k f (ground arith) (omega arith)
]

-- A network mask is ones above zeros.
masks : all_below 33 (λ p. mask p == (2 ^ p - 1) * 2 ^ (32 - p)) ≡ true
unfolding all_below
masks = refl

mask_ones : (p : ℕ) → p ≤ 32 → mask p ≡ (2 ^ p - 1) * 2 ^ (32 - p)
mask_ones p h =
    (==_iff _ _).0
      (all_below-true 33 p (λ p. mask p == (2 ^ p - 1) * 2 ^ (32 - p)) masks (omega arith))

-- An address has `p` digits above the host part.
prefix_lt : all_below 33 (λ p. 2 ^ 32 == 2 ^ p * 2 ^ (32 - p)) ≡ true
unfolding all_below
prefix_lt = refl

powers : (p : ℕ) → p ≤ 32 → 2 ^ 32 ≡ 2 ^ p * 2 ^ (32 - p)
powers p h =
    (==_iff _ _).0
      (all_below-true 33 p (λ p. 2 ^ 32 == 2 ^ p * 2 ^ (32 - p)) prefix_lt (omega arith))

masked : (ip p : ℕ) → ip < 2 ^ 32 → p ≤ 32 → bit_and ip (mask p) ≡ ip / 2 ^ (32 - p) * 2 ^ (32 - p)
masked ip p h le = rw (mask_ones p le) (
    bit_and-high_ones ip p (32 - p)
      ((div-lt_iff_lt-mul (one-le-pow (32 - p) 2 (omega arith))).1 (omega (arith, powers p le))))

same_block : (a b k : ℕ) → 0 < k → (a * k == b * k) ≡ (a == b)
same_block a b k h = elim (ℕ_discrete a b) [
  | yes e ↦ rw e (ground arith)
  | no ne ↦
      let other : a * k ≢ b * k =
        λ e. ne (sym (mul-div_cancel a h) ∙ ap (λ (x : ℕ). x / k) e ∙ mul-div_cancel b h) in
      ground arith
]

not_zero : (p : ℕ) → (suc p == 0) ≡ false
not_zero p = ground arith

-- The network of an address, as the code computes it with a shifted mask, is the address with the host
-- part cleared; and the code finds an address in a network exactly if the two agree above the host part,
-- whether or not the network is given with a host part. This holds for every prefix length up to 32,
-- among them 0, for which there is one network only.
pub ip_in_network_lem :
    (ip network prefix : ℕ)
    → ip < 2 ^ 32
    → network < 2 ^ 32
    → prefix ≤ 32
    → (network_addr ip prefix ≡ ip / 2 ^ (32 - prefix) * 2 ^ (32 - prefix))
      × (ip_in_network ip network prefix ≡ (ip / 2 ^ (32 - prefix) == network / 2 ^ (32 - prefix)))
unfolding network_addr ip_in_network
ip_in_network_lem ip network zero small small' h = (omega arith, ground arith)
ip_in_network_lem ip network (suc q) small small' h =
    let size : ℕ = 2 ^ (32 - suc q) in
    let block : 0 < size = one-le-pow (32 - suc q) 2 (omega arith) in
    (
      rw (not_zero q) (masked ip (suc q) small h),
      rw (not_zero q, masked ip (suc q) small h, masked network (suc q) small' h)
          (same_block (ip / size) (network / size) size block),
    )
