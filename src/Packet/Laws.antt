-- ===== src/Packet/Laws.antt =====
-- What the address readers of src/packet.rs return.
use soulvpn.Base.{
  ℕ, ◌+◌, ◌/◌, ◌<◌, ◌≡◌, ap, ◌∙◌, none, some, List, ◌∷◌, ◌++◌, length, length-append, get_or-append,
  get_or, arith, ◌==◌, if◌then◌else◌,
}
use soulvpn.Packet.{ipv4_new, ipv4_src, ipv4_dst}

-- A packet with twelve bytes before the addresses, the first of them `v`, followed by the eight bytes
-- of the addresses and anything else: both readers return the two addresses in network byte order if
-- the high half of `v` is 4, and nothing otherwise.
pub ipv4_src-ipv4_dst :
    (v : ℕ) (h rest : List ℕ) (a b c d e f g i : ℕ)
    → length h ≡ 11
    → let packet = v ∷ (h ++ (a ∷ b ∷ c ∷ d ∷ e ∷ f ∷ g ∷ i ∷ rest)) in
      (ipv4_src packet ≡ (if v / 16 == 4 then some (ipv4_new a b c d) else none))
      × (ipv4_dst packet ≡ (if v / 16 == 4 then some (ipv4_new e f g i) else none))
unfolding ipv4_src ipv4_dst
ipv4_src-ipv4_dst v h rest a b c d e f g i len =
    let ys : List ℕ = a ∷ b ∷ c ∷ d ∷ e ∷ f ∷ g ∷ i ∷ rest in
    let at : (k : ℕ) → get_or (h ++ ys) (11 + k) 0 ≡ get_or ys k 0 = λ k.
      get_or-append h ys (11 + k) 0 (omega arith) ∙ ap (λ (j : ℕ). get_or ys j 0) (omega arith) in
    (
      ground (arith, length-append h ys, at 0, at 1, at 2, at 3),
      ground (arith, length-append h ys, at 4, at 5, at 6, at 7),
    )

-- Anything shorter than an IPv4 header has no addresses.
pub ipv4_short :
    (packet : List ℕ) → length packet < 20 → (ipv4_src packet ≡ none) × (ipv4_dst packet ≡ none)
unfolding ipv4_src ipv4_dst
ipv4_short packet h = (ground arith, ground arith)
