-- ===== src/Server/Reaper.antt =====
-- src/server.rs, the reaper of idle sessions (lines 165-203): what one tick does under the lock. The
-- clock is read once for a tick.
pub mod Laws
use soulvpn.Base.{
  ℕ, ◌-◌, ◌==◌, Bool, true, false, Option, none, some, List, [], ◌∷◌, map, filterb, max, ltb,
  if◌then◌else◌, lookup, remove, nat_eq,
}
use soulvpn.Crypto.Noise.{Noise}
use soulvpn.Stats.{from_secs}
use soulvpn.Server.RateLimit.{gc}
use soulvpn.Server.State.{LiveSession, State, Server, publish}

abbrev pub is_stale : {n : Noise} → ℕ → ℕ → LiveSession n → Bool
is_stale now idle live = ltb idle (now - live.last_seen)

unfoldable pub stale : {n : Noise} → ℕ → ℕ → List (ℕ × LiveSession n) → List (ℕ × ℕ)
stale now idle by_index =
    map (λ entry. (entry.0, entry.1.tunnel_ip))
      (filterb (λ entry. is_stale now idle entry.1) by_index)

-- `guard.by_ip.get(&tip) == Some(&idx)`
abbrev pub owner_is : Option ℕ → ℕ → Bool
owner_is none idx = false
owner_is (some owner) idx = owner == idx

-- The body of the loop over the stale sessions.
unfoldable pub expire : {n : Noise} → ℕ → ℕ → State n → State n
expire idx tip st = record st {
  by_index = remove idx st.by_index;
  by_ip = if owner_is (lookup tip st.by_ip) idx then remove tip st.by_ip else st.by_ip;
}

unfoldable pub expire_all : {n : Noise} → List (ℕ × ℕ) → State n → State n
expire_all [] st = st
expire_all ((idx, tip) ∷ rest) st = expire_all rest (expire idx tip st)

-- `cfg.session_idle_secs.max(30)`
abbrev pub idle_of : ℕ → ℕ
idle_of session_idle_secs = from_secs (max session_idle_secs 30)

unfoldable pub reap : {n : Noise} → ℕ → ℕ → Server n → Server n
reap session_idle_secs now sv =
    let st = record (sv.state) { rate = gc sv.state.rate now } in
    publish now
      (record sv { state = expire_all (stale now (idle_of session_idle_secs) st.by_index) st })
