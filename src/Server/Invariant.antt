-- ===== src/Server/Invariant.antt =====
-- The invariant of the server's tables: `by_ip` and `by_index` are inverse to one another, a session
-- is filed under its own index, and its address is that of a configured peer.
use soulvpn.Base.{
  ℕ, ◌≡◌, some, List, lookup, insert, Distinct, lookup-insert, insert-Distinct, nat_eq, bytes_eq,
  arith, ℕ_discrete,
}
use soulvpn.Crypto.Noise.{Noise}
use soulvpn.Server.State.{LiveSession, PeerMeta, State}

-- Some peer is configured with the address.
abbrev pub IsConfigured : {n : Noise} → State n → ℕ → Type 0
IsConfigured st ip =
    (key : List ℕ) × (peer : PeerMeta) × (lookup key st.peers ≡ some peer) × (peer.tunnel_ip ≡ ip)

pub record IsWellFormed {n : Noise} (st : State n) : Type 0 where
  pub distinct_index : Distinct st.by_index
  pub distinct_ip : Distinct st.by_ip
  pub ip_to_index :
      (ip idx : ℕ)
      → lookup ip st.by_ip ≡ some idx
      → (live : LiveSession n) × (lookup idx st.by_index ≡ some live) × (live.tunnel_ip ≡ ip)
  pub index_to_ip :
      (idx : ℕ) (live : LiveSession n)
      → lookup idx st.by_index ≡ some live
      → (lookup live.tunnel_ip st.by_ip ≡ some idx) × (live.session.index ≡ idx)
  pub configured :
      (idx : ℕ) (live : LiveSession n)
      → lookup idx st.by_index ≡ some live
      → IsConfigured st live.tunnel_ip

module _ {n : Noise} {st : State n} (inv : IsWellFormed st) where
  -- A session is replaced by one with the same index and address.
  pub update-IsWellFormed :
      (idx : ℕ) (old new : LiveSession n)
      → lookup idx st.by_index ≡ some old
      → new.tunnel_ip ≡ old.tunnel_ip
      → new.session.index ≡ old.session.index
      → IsWellFormed (record st { by_index = insert idx new st.by_index })
  update-IsWellFormed idx old new found same_ip same_index = record {
    distinct_index = insert-Distinct idx new st.by_index inv.distinct_index;
    distinct_ip = inv.distinct_ip;
    ip_to_index = λ ip j h.
        let entry = inv.ip_to_index ip j h in
        elim (ℕ_discrete idx j) [
          | yes e ↦
              (new, ground (arith, lookup-insert idx j new st.by_index), ground (arith, entry.1))
          | no ne ↦ (entry.0, ground (arith, lookup-insert idx j new st.by_index, entry.1), entry.2)
        ];
    index_to_ip = λ j live h. ground (
      arith,
      lookup-insert idx j new st.by_index,
      inv.index_to_ip idx old found,
      inv.index_to_ip j live,
    );
    configured = λ j live h. elim (ℕ_discrete idx j) [
      | yes e ↦
          let at = inv.configured idx old found in
          (at.0, at.1, at.2, ground (arith, lookup-insert idx j new st.by_index, at.3))
      | no ne ↦ inv.configured j live (ground (arith, lookup-insert idx j new st.by_index))
    ];
  }
