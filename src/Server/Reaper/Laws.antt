-- ===== src/Server/Reaper/Laws.antt =====
-- The guarantees of a tick of the reaper.
use soulvpn.Base.{
  ℕ, ◌≡◌, refl, sym, subst, Bool, true, false, not, Option, none, some, List, [], ◌∷◌, length,
  lookup, remove, Map, Distinct, kept, lookup-remove, remove-Distinct, nat_eq, arith, ==_iff,
  Option-cases, Bool-cases, inl, inr, ◌==◌, if◌then◌else◌,
}
use soulvpn.Crypto.Noise.{Noise}
use soulvpn.Stats.{set_sessions, set_peers}
use soulvpn.Server.RateLimit.{gc}
use soulvpn.Server.State.{LiveSession, State, Server, publish, peer_snapshots}
use soulvpn.Server.Invariant.{IsWellFormed}
use soulvpn.Server.Handshake.Tables.{forget-IsWellFormed, rate-IsWellFormed}
use soulvpn.Server.Reaper.{is_stale, stale, owner_is, expire, expire_all, idle_of, reap}

-- The index stands in a list of sessions to expire.
abbrev pub listed : ℕ → List (ℕ × ℕ) → Bool
listed j [] = false
listed j ((idx, tip) ∷ rest) = if idx == j then true else listed j rest

abbrev is_listed : {n : Noise} → ℕ → ℕ → Option (LiveSession n) → Bool
is_listed now idle none = false
is_listed now idle (some live) = is_stale now idle live

listed-stale :
    {n : Noise} (now idle j : ℕ) (m : Map ℕ (LiveSession n))
    → Distinct m
    → listed j (stale now idle m) ≡ is_listed now idle (lookup j m)
unfolding stale lookup
listed-stale now idle j [] d = refl
listed-stale now idle j ((i, live) ∷ m) d =
    ground (arith, listed-stale now idle j m d.1, ==_iff i j)

pub expire_all-by_index :
    {n : Noise} (l : List (ℕ × ℕ)) (st : State n) (j : ℕ)
    → lookup j (expire_all l st).by_index ≡ (if listed j l then none else lookup j st.by_index)
unfolding expire_all expire
expire_all-by_index [] st j = refl
expire_all-by_index ((idx, tip) ∷ rest) st j =
    ground (arith, expire_all-by_index rest (expire idx tip st) j, lookup-remove idx j st.by_index)

-- Each listed session, where it still stands, has the listed address.
abbrev Agrees : {n : Noise} → List (ℕ × ℕ) → State n → Type 0
Agrees [] st = Unit {0}
Agrees {n} ((idx, tip) ∷ rest) st =
    ((live : LiveSession n) → lookup idx st.by_index ≡ some live → live.tunnel_ip ≡ tip)
    × Agrees rest st

module _ {n : Noise} {st : State n} (inv : IsWellFormed st) where
  -- An index that stands nowhere is removed.
  absent-IsWellFormed :
      (idx : ℕ)
      → lookup idx st.by_index ≡ none
      → IsWellFormed (record st { by_index = remove idx st.by_index })
  absent-IsWellFormed idx absent = record {
    distinct_index = remove-Distinct idx st.by_index inv.distinct_index;
    distinct_ip = inv.distinct_ip;
    ip_to_index = λ ip j h.
        let entry = inv.ip_to_index ip j h in
        (entry.0, ground (arith, lookup-remove idx j st.by_index, entry.1, absent), entry.2);
    index_to_ip =
        λ j live h. inv.index_to_ip j live (ground (arith, lookup-remove idx j st.by_index));
    configured =
        λ j live h. inv.configured j live (ground (arith, lookup-remove idx j st.by_index));
  }

  owner_is-none :
      (idx tip : ℕ) → lookup idx st.by_index ≡ none → owner_is (lookup tip st.by_ip) idx ≡ false
  owner_is-none idx tip absent = elim (Option-cases (lookup tip st.by_ip)) [
    | inl unused ↦ rw unused refl
    | inr (owner, found) ↦
        let entry = inv.ip_to_index tip owner found in rw found (ground (arith, entry.1, absent))
  ]

  expire-IsWellFormed :
      (idx tip : ℕ)
      → ((live : LiveSession n) → lookup idx st.by_index ≡ some live → live.tunnel_ip ≡ tip)
      → IsWellFormed (expire idx tip st)
  unfolding expire
  expire-IsWellFormed idx tip agree = elim (Option-cases (lookup idx st.by_index)) [
    | inl absent ↦ rw (owner_is-none idx tip absent) (absent-IsWellFormed idx absent)
    | inr (live, found) ↦
        let owned : lookup tip st.by_ip ≡ some idx =
          ground (arith, inv.index_to_ip idx live found, agree live found) in
        let owner : owner_is (lookup tip st.by_ip) idx ≡ true = ground (arith, owned) in
        rw owner (forget-IsWellFormed inv tip idx owned)
  ]

Agrees-expire :
    {n : Noise} (l : List (ℕ × ℕ)) (idx tip : ℕ) (st : State n)
    → Agrees l st
    → Agrees l (expire idx tip st)
unfolding expire
Agrees-expire [] idx tip st h = tt
Agrees-expire ((j, ip) ∷ rest) idx tip st h = (
  λ live found. h.0 live (ground (arith, lookup-remove idx j st.by_index)),
  Agrees-expire rest idx tip st h.1,
)

expire_all-IsWellFormed :
    {n : Noise} (l : List (ℕ × ℕ)) (st : State n)
    → IsWellFormed st
    → Agrees l st
    → IsWellFormed (expire_all l st)
unfolding expire_all
expire_all-IsWellFormed [] st inv h = inv
expire_all-IsWellFormed ((idx, tip) ∷ rest) st inv h =
    expire_all-IsWellFormed rest (expire idx tip st) (expire-IsWellFormed inv idx tip h.0)
      (Agrees-expire rest idx tip st h.1)

stale-true :
    {n : Noise} (now idle i : ℕ) (live : LiveSession n) (m : Map ℕ (LiveSession n))
    → is_stale now idle live ≡ true
    → stale now idle ((i, live) ∷ m) ≡ (i, live.tunnel_ip) ∷ stale now idle m
unfolding stale
stale-true now idle i live m h = ground (arith, h)

stale-false :
    {n : Noise} (now idle i : ℕ) (live : LiveSession n) (m : Map ℕ (LiveSession n))
    → is_stale now idle live ≡ false
    → stale now idle ((i, live) ∷ m) ≡ stale now idle m
unfolding stale
stale-false now idle i live m h = ground (arith, h)

Agrees-stale :
    {n : Noise} (now idle : ℕ) (m : Map ℕ (LiveSession n)) (st : State n)
    → ((j : ℕ) (live : LiveSession n) → lookup j m ≡ some live → lookup j st.by_index ≡ some live)
    → Distinct m
    → Agrees (stale now idle m) st
unfolding lookup stale
Agrees-stale now idle [] st sub d = tt
Agrees-stale now idle ((i, old) ∷ m) st sub d =
    let head : lookup i st.by_index ≡ some old = sub i old (ground (arith, ==_iff i i)) in
    let rest : Agrees (stale now idle m) st =
      Agrees-stale now idle m st (λ j live h. sub j live (ground (arith, ==_iff i j, d.0))) d.1 in
    elim (Bool-cases (is_stale now idle old)) [
      | inl gone ↦
          subst (λ l. Agrees l st) (sym (stale-true now idle i old m gone))
            (λ live found. ground (arith, head), rest)
      | inr lives ↦ subst (λ l. Agrees l st) (sym (stale-false now idle i old m lives)) rest
    ]

-- A tick of the reaper keeps the tables well formed.
pub reap-IsWellFormed :
    {n : Noise} (session_idle_secs now : ℕ) (sv : Server n)
    → IsWellFormed sv.state
    → IsWellFormed (reap session_idle_secs now sv).state
unfolding reap publish
reap-IsWellFormed session_idle_secs now sv inv =
    let rate = gc sv.state.rate now in
    expire_all-IsWellFormed (stale now (idle_of session_idle_secs) sv.state.by_index)
      (record (sv.state) { rate = rate }) (rate-IsWellFormed rate inv)
      (Agrees-stale now (idle_of session_idle_secs) sv.state.by_index
        (record (sv.state) { rate = rate }) (λ j live h. h) inv.distinct_index)

-- The sessions that a tick keeps: those whose last activity is at most the idle time ago.
abbrev pub survives : {n : Noise} → ℕ → ℕ → ℕ → LiveSession n → Bool
survives session_idle_secs now index live = not (is_stale now (idle_of session_idle_secs) live)

-- After a tick an index finds exactly the session it found before, if that has not been idle for
-- longer than the configured time, which is taken as thirty seconds at least; an idle session is
-- found no more. The statistics show the number of the sessions left, and list them.
pub reap-survives :
    {n : Noise} (session_idle_secs now : ℕ) (sv : Server n)
    → IsWellFormed sv.state
    → ((index : ℕ)
        → lookup index (reap session_idle_secs now sv).state.by_index
          ≡ kept (survives session_idle_secs now) index (lookup index sv.state.by_index))
      × ((reap session_idle_secs now sv).stats.active_sessions
          ≡ length (reap session_idle_secs now sv).state.by_index)
      × ((reap session_idle_secs now sv).stats.peers
          ≡ peer_snapshots (reap session_idle_secs now sv).state now)
unfolding reap publish set_sessions set_peers
reap-survives session_idle_secs now sv inv =
    let idle = idle_of session_idle_secs in
    (
      λ index. ground (
        arith,
        expire_all-by_index (stale now idle sv.state.by_index)
            (record (sv.state) { rate = gc sv.state.rate now }) index,
        listed-stale now idle index sv.state.by_index inv.distinct_index,
      ),
      refl,
      refl,
    )
