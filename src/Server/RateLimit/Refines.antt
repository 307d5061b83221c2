-- ===== src/Server/RateLimit/Refines.antt =====
-- `RateLimit` forgets what has left the window. The specification keeps every handshake that it let
-- through, and the two answer alike as long as the clock does not run backwards.
use soulvpn.Base.{
  ℕ, ◌^◌, ◌≤◌, ◌<◌, ◌≡◌, refl, ap₂, ◌∙◌, Bool, true, false, ◌&&◌, List, [], ◌∷◌, ◌++◌, length,
  filterb, anyb, max, ltb, if◌then◌else◌, lookup, insert, IpAddr, ip_eq, ip_beq, ip_beq_iff,
  lookup-insert, Distinct, insert-Distinct, retain-Distinct, lookup-retain, length-append, arith,
}
use soulvpn.Server.RateLimit.{RateLimit, rate_new, or_default, is_recent, allow, gc}
use soulvpn.Stats.{from_secs}

-- The handshakes let through so far, oldest first, for each address.
abbrev pub History : Type 0
History = IpAddr → List ℕ

abbrev pub recent : ℕ → ℕ → List ℕ → List ℕ
recent window now = filterb (is_recent window now)

-- The specification: an attempt is let through if fewer than `limit` of those let through before are
-- within the window.
pub may_pass : ℕ → ℕ → History → IpAddr → ℕ → Bool
may_pass window limit hist ip now = ltb (length (recent window now (hist ip))) limit

pub note : History → IpAddr → ℕ → Bool → History
note hist ip now passed other =
    if ip_beq ip other && passed then hist other ++ (now ∷ []) else hist other

recent-append :
    (window now : ℕ) (xs ys : List ℕ)
    → recent window now (xs ++ ys) ≡ recent window now xs ++ recent window now ys
recent-append window now [] ys = refl
recent-append window now (x ∷ xs) ys = ground (arith, recent-append window now xs ys)

-- What has left the window does not come back.
recent-recent :
    (window now later : ℕ) (xs : List ℕ)
    → now ≤ later
    → recent window later (recent window now xs) ≡ recent window later xs
recent-recent window now later [] h = refl
recent-recent window now later (x ∷ xs) h = ground (arith, recent-recent window now later xs h)

recent-none :
    (window now later : ℕ) (xs : List ℕ)
    → now ≤ later
    → anyb (is_recent window now) xs ≡ false
    → recent window later xs ≡ []
recent-none window now later [] h none_recent = refl
recent-none window now later (x ∷ xs) h none_recent =
    ground (arith, recent-none window now later xs h)

-- A later look finds no more.
length-recent-le :
    (window now later : ℕ) (xs : List ℕ)
    → now ≤ later
    → length (recent window later xs) ≤ length (recent window now xs)
length-recent-le window now later [] h = omega arith
length-recent-le window now later (x ∷ xs) h =
    ground (arith, length-recent-le window now later xs h)

-- The table agrees with the history at `now` and later, and no window holds more than the limit.
pub record Refines (r : RateLimit) (hist : History) (now : ℕ) : Type 0 where
  pub distinct : Distinct r.hits
  pub limit_lt : r.limit < 2 ^ 32
  pub agree :
      (ip : IpAddr) (t : ℕ)
      → now ≤ t
      → recent r.window t (or_default (lookup ip r.hits)) ≡ recent r.window t (hist ip)
  pub bounded : (ip : IpAddr) (t : ℕ) → now ≤ t → length (recent r.window t (hist ip)) ≤ r.limit

module _ {r : RateLimit} {hist : History} {now : ℕ} (inv : Refines r hist now) (ip : IpAddr) {t : ℕ}
    (h : now ≤ t) where
  pub allow-may_pass : (allow r ip t).1 ≡ may_pass r.window r.limit hist ip t
  unfolding allow may_pass
  allow-may_pass = ground (arith, inv.agree ip t h, inv.bounded ip t h, inv.limit_lt)

  -- The list that `allow` works on.
  entry : List ℕ
  entry = recent r.window t (or_default (lookup ip r.hits))

  entry_agree : (u : ℕ) → t ≤ u → recent r.window u entry ≡ recent r.window u (hist ip)
  unfolding entry
  entry_agree u le =
      recent-recent r.window t u (or_default (lookup ip r.hits)) le ∙ inv.agree ip u (omega arith)

  passed-Refines :
      length (recent r.window t (hist ip)) < r.limit
      → Refines (record r { hits = insert ip (entry ++ (t ∷ [])) r.hits }) (note hist ip t true) t
  unfolding note
  passed-Refines room = record {
    distinct = insert-Distinct ip (entry ++ (t ∷ [])) r.hits inv.distinct;
    limit_lt = inv.limit_lt;
    agree = λ other u le. ground (
      arith,
      lookup-insert ip other (entry ++ (t ∷ [])) r.hits,
      ip_beq_iff ip other,
      recent-append r.window u entry (t ∷ []),
      recent-append r.window u (hist other) (t ∷ []),
      entry_agree u le,
      inv.agree other u (omega arith),
    );
    bounded = λ other u le. ground (
      arith,
      ip_beq_iff ip other,
      recent-append r.window u (hist other) (t ∷ []),
      length-append (recent r.window u (hist other)) (recent r.window u (t ∷ [])),
      length-recent-le r.window t u (hist ip) le,
      inv.bounded other u (omega arith),
    );
  }

  refused-Refines : Refines (record r { hits = insert ip entry r.hits }) (note hist ip t false) t
  unfolding note
  refused-Refines = record {
    distinct = insert-Distinct ip entry r.hits inv.distinct;
    limit_lt = inv.limit_lt;
    agree = λ other u le. ground (
      arith,
      lookup-insert ip other entry r.hits,
      ip_beq_iff ip other,
      entry_agree u le,
      inv.agree other u (omega arith),
    );
    bounded = λ other u le. ground (arith, inv.bounded other u (omega arith));
  }

  pub allow-Refines :
      Refines (allow r ip t).0 (note hist ip t (may_pass r.window r.limit hist ip t)) t
  unfolding allow may_pass entry
  allow-Refines =
      ground
        (arith, inv.agree ip t h, inv.bounded ip t h, inv.limit_lt, passed-Refines, refused-Refines)

pub gc-Refines :
    {r : RateLimit} {hist : History} {now t : ℕ}
    → Refines r hist now
    → now ≤ t
    → Refines (gc r t) hist t
unfolding gc
gc-Refines {r} {hist} {now} {t} inv h = record {
  distinct = retain-Distinct (λ _ v. anyb (is_recent r.window t) v) r.hits inv.distinct;
  limit_lt = inv.limit_lt;
  agree = λ ip u le. ground (
    arith,
    lookup-retain (λ _ v. anyb (is_recent r.window t) v) ip r.hits inv.distinct,
    recent-none r.window t u (or_default (lookup ip r.hits)) le,
    inv.agree ip u (omega arith),
  );
  bounded = λ ip u le. inv.bounded ip u (omega arith);
}

pub rate_new-Refines :
    (limit window_secs : ℕ) → limit < 2 ^ 32 → Refines (rate_new limit window_secs) (λ _. []) 0
unfolding rate_new lookup
rate_new-Refines limit window_secs h = record {
  distinct = tt;
  limit_lt = omega arith;
  agree = λ ip t le. refl;
  bounded = λ ip t le. omega arith;
}

-- What the server does with its limiter: an attempt from an address, or a sweep of the reaper.
pub data Event : Type 0 where
  attempt : IpAddr → ℕ → Event
  sweep : ℕ → Event

abbrev pub time_of : Event → ℕ
time_of (attempt ip t) = t
time_of (sweep t) = t

-- The clock does not run backwards.
abbrev pub Forward : ℕ → List Event → Type 0
Forward now [] = Unit {0}
Forward now (e ∷ es) = (now ≤ time_of e) × Forward (time_of e) es

-- The answers to the attempts, by the code and by the specification.
pub run : RateLimit → List Event → List Bool
run r [] = []
run r (attempt ip t ∷ es) = let (r', passed) = allow r ip t in passed ∷ run r' es
run r (sweep t ∷ es) = run (gc r t) es

pub spec_run : ℕ → ℕ → History → List Event → List Bool
spec_run window limit hist [] = []
spec_run window limit hist (attempt ip t ∷ es) =
    let passed = may_pass window limit hist ip t in
    passed ∷ spec_run window limit (note hist ip t passed) es
spec_run window limit hist (sweep t ∷ es) = spec_run window limit hist es

allow_settings :
    (r : RateLimit) (ip : IpAddr) (t : ℕ)
    → ((allow r ip t).0.window ≡ r.window) × ((allow r ip t).0.limit ≡ r.limit)
unfolding allow
allow_settings r ip t = (ground arith, ground arith)

-- As long as the clock does not run backwards, the limiter answers as the specification, which
-- forgets nothing: sweeps and the pruning of old hits do not change an answer.
pub run-spec_run :
    (es : List Event) {r : RateLimit} {hist : History} {now : ℕ}
    → Refines r hist now
    → Forward now es
    → run r es ≡ spec_run r.window r.limit hist es
unfolding run spec_run gc
run-spec_run [] inv fwd = refl
run-spec_run (attempt ip t ∷ es) {r} {hist} inv fwd =
    let later = run-spec_run es (allow-Refines inv ip fwd.0) fwd.1 in
    let kept = allow_settings r ip t in
    let hist' : History = note hist ip t (may_pass r.window r.limit hist ip t) in
    ap₂ ◌∷◌ (allow-may_pass inv ip fwd.0)
      (later ∙ ap₂ (λ window limit. spec_run window limit hist' es) kept.0 kept.1)
run-spec_run (sweep t ∷ es) inv fwd = run-spec_run es (gc-Refines inv fwd.0) fwd.1

-- A new limiter lets an attempt through exactly if fewer than `max(limit, 1)` attempts of the same
-- address were let through within the last `max(window_secs, 1)` seconds, over any sequence of
-- attempts and sweeps on a clock that does not run backwards.
pub rate_new-spec_run :
    (limit window_secs : ℕ) (es : List Event)
    → limit < 2 ^ 32
    → Forward 0 es
    → run (rate_new limit window_secs) es
      ≡ spec_run (from_secs (max window_secs 1)) (max limit 1) (λ _. []) es
unfolding rate_new
rate_new-spec_run limit window_secs es h fwd =
    run-spec_run es (rate_new-Refines limit window_secs h) fwd
