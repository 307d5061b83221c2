-- ===== src/Server/Handshake/Tables.antt =====
-- The two changes that a handshake makes to the server's tables: an old session of the peer is
-- removed, and the new one is entered.
use soulvpn.Base.{
  ℕ, ◌≡◌, false, none, some, lookup, remove, contains_key, lookup-insert, lookup-remove,
  insert-Distinct, remove-Distinct, nat_eq, bytes_eq, arith, ==_iff, ℕ_discrete, Option-cases, inl,
  inr,
}
use soulvpn.Crypto.Noise.{Noise}
use soulvpn.Server.RateLimit.{RateLimit}
use soulvpn.Server.State.{LiveSession, State}
use soulvpn.Server.Invariant.{IsWellFormed, IsConfigured}
use soulvpn.Server.Handshake.{evict, enter}

module _ {n : Noise} {st : State n} (inv : IsWellFormed st) where
  -- An address and its session go together.
  pub forget-IsWellFormed :
      (ip idx : ℕ)
      → lookup ip st.by_ip ≡ some idx
      → IsWellFormed (record st { by_ip = remove ip st.by_ip; by_index = remove idx st.by_index })
  forget-IsWellFormed ip idx found =
      let old = inv.ip_to_index ip idx found in
      record {
        distinct_index = remove-Distinct idx st.by_index inv.distinct_index;
        distinct_ip = remove-Distinct ip st.by_ip inv.distinct_ip;
        ip_to_index = λ ip' j h.
            let kept : lookup ip' st.by_ip ≡ some j =
              ground (arith, lookup-remove ip ip' st.by_ip) in
            let entry = inv.ip_to_index ip' j kept in
            (
              entry.0,
              ground (
                arith,
                lookup-remove ip ip' st.by_ip,
                lookup-remove idx j st.by_index,
                entry.1,
                entry.2,
                old.1,
                old.2,
              ),
              entry.2,
            );
        index_to_ip = λ j live h. ground (
          arith,
          lookup-remove idx j st.by_index,
          lookup-remove ip live.tunnel_ip st.by_ip,
          inv.index_to_ip j live,
        );
        configured =
            λ j live h. inv.configured j live (ground (arith, lookup-remove idx j st.by_index));
      }

  pub evict-IsWellFormed : (ip : ℕ) → IsWellFormed (evict ip st)
  unfolding evict
  evict-IsWellFormed ip = elim (Option-cases (lookup ip st.by_ip)) [
    | inl absent ↦ rw (absent, evict) inv
    | inr (idx, found) ↦ rw (found, evict) (forget-IsWellFormed ip idx found)
  ]

  pub enter-IsWellFormed :
      (index : ℕ) (live : LiveSession n)
      → lookup index st.by_index ≡ none
      → lookup live.tunnel_ip st.by_ip ≡ none
      → live.session.index ≡ index
      → IsConfigured st live.tunnel_ip
      → IsWellFormed (enter index live st)
  unfolding enter
  enter-IsWellFormed index live free unused same peer = record {
    distinct_index = insert-Distinct index live st.by_index inv.distinct_index;
    distinct_ip = insert-Distinct live.tunnel_ip index st.by_ip inv.distinct_ip;
    ip_to_index = λ ip j h. elim (ℕ_discrete live.tunnel_ip ip) [
      | yes e ↦ (
        live,
        ground (
          arith,
          lookup-insert live.tunnel_ip ip index st.by_ip,
          lookup-insert index j live st.by_index,
        ),
        e,
      )
      | no ne ↦
          let kept : lookup ip st.by_ip ≡ some j =
            ground (arith, lookup-insert live.tunnel_ip ip index st.by_ip) in
          let entry = inv.ip_to_index ip j kept in
          (entry.0, ground (arith, lookup-insert index j live st.by_index, entry.1), entry.2)
    ];
    index_to_ip = λ j other h. ground (
      arith,
      lookup-insert index j live st.by_index,
      lookup-insert live.tunnel_ip other.tunnel_ip index st.by_ip,
      inv.index_to_ip j other,
    );
    configured = λ j other h. elim (ℕ_discrete index j) [
      | yes e ↦
          (peer.0, peer.1, peer.2, ground (arith, lookup-insert index j live st.by_index, peer.3))
      | no ne ↦ inv.configured j other (ground (arith, lookup-insert index j live st.by_index))
    ];
  }

pub evict-by_ip : {n : Noise} (ip : ℕ) (st : State n) → lookup ip (evict ip st).by_ip ≡ none
unfolding evict
evict-by_ip ip st = ground (arith, λ (idx : ℕ). lookup-remove ip ip st.by_ip, ==_iff ip ip)

-- An index that is free stays free.
pub evict_free :
    {n : Noise} (ip index : ℕ) (st : State n)
    → lookup index st.by_index ≡ none
    → contains_key index (evict ip st).by_index ≡ false
unfolding evict contains_key
evict_free ip index st free = elim (Option-cases (lookup ip st.by_ip)) [
  | inl absent ↦ ground (arith, absent)
  | inr (idx, found) ↦
      let still : lookup index (remove idx st.by_index) ≡ none =
        ground (arith, lookup-remove idx index st.by_index) in
      ground (arith, found, still)
]

pub evict-peers : {n : Noise} (ip : ℕ) (st : State n) → (evict ip st).peers ≡ st.peers
unfolding evict
evict-peers ip st = ground arith

pub rate-IsWellFormed :
    {n : Noise} {st : State n} (rate : RateLimit)
    → IsWellFormed st
    → IsWellFormed (record st { rate = rate })
rate-IsWellFormed rate inv = record {
  distinct_index = inv.distinct_index;
  distinct_ip = inv.distinct_ip;
  ip_to_index = inv.ip_to_index;
  index_to_ip = inv.index_to_ip;
  configured = inv.configured;
}
