-- ===== src/Server/RateLimit.antt =====
-- src/server.rs, `RateLimit` (lines 31-62): at most `max` handshakes per source address within a
-- sliding window. Times are instants in nanoseconds.
pub mod Refines
use soulvpn.Base.{
  ℕ, ◌+◌, ◌-◌, ◌%◌, ◌^◌, Bool, true, false, Option, none, some, List, [], ◌∷◌, ◌++◌, length,
  filterb, anyb, max, ltb, leb, if◌then◌else◌, Map, lookup, insert, retain, IpAddr, ip_eq,
}
use soulvpn.Stats.{from_secs}

pub record RateLimit : Type 0 where
  pub window : ℕ
  pub limit : ℕ
  pub hits : Map IpAddr (List ℕ)

unfoldable pub rate_new : ℕ → ℕ → RateLimit
rate_new limit window_secs = record {
  window = from_secs (max window_secs 1);
  limit = max limit 1;
  hits = [];
}

-- `self.hits.entry(ip).or_default()`
abbrev pub or_default : Option (List ℕ) → List ℕ
or_default none = []
or_default (some ts) = ts

-- `now.duration_since(*t) < self.window`
abbrev pub is_recent : ℕ → ℕ → ℕ → Bool
is_recent window now t = ltb (now - t) window

unfoldable pub allow : RateLimit → IpAddr → ℕ → RateLimit × Bool
allow r ip now =
    let entry = filterb (is_recent r.window now) (or_default (lookup ip r.hits)) in
    if leb r.limit (length entry % 2 ^ 32)
    then (record r { hits = insert ip entry r.hits }, false)
    else (record r { hits = insert ip (entry ++ (now ∷ [])) r.hits }, true)

unfoldable pub gc : RateLimit → ℕ → RateLimit
gc r now = record r { hits = retain (λ _ v. anyb (is_recent r.window now) v) r.hits }
