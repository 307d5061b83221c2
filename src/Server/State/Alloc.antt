-- ===== src/Server/State/Alloc.antt =====
-- The loop of `alloc_index` in src/server.rs ends.
use soulvpn.Base.{
  ℕ, ◌<◌, ◌≤◌, ◌≡◌, refl, Bool, true, false, not, ◌&&◌, Option, none, some, List, [], ◌∷◌, length,
  anyb, ◌==◌, if◌then◌else◌, Map, lookup, remove, contains_key, lookup-remove, arith, Option-cases,
  inl, inr, nat_eq, ap, ◌∙◌, ℕ_discrete,
}
use soulvpn.Crypto.Noise.{Noise}
use soulvpn.Server.State.{State, alloc_index}

-- Whether a number is in the list, and whether none stands twice.
abbrev pub member : ℕ → List ℕ → Bool
member k xs = anyb (λ x. x == k) xs

abbrev pub differ : List ℕ → Bool
differ [] = true
differ (x ∷ xs) = not (member x xs) && differ xs

distinct : (x k : ℕ) (xs : List ℕ) → differ (x ∷ xs) ≡ true → member k xs ≡ true → (x == k) ≡ false
distinct x k xs apart inside = elim (ℕ_discrete x k) [
  | yes e ↦ let twice : member x xs ≡ true = rw e inside in ground arith
  | no ne ↦ ground arith
]

module _ {V : Type 0} where
  length-remove_le : (k : ℕ) (m : Map ℕ V) → length (remove k m) ≤ length m
  unfolding remove
  length-remove_le k [] = omega arith
  length-remove_le k ((j, v) ∷ m) = ground (arith, length-remove_le k m)

  length-remove : (k : ℕ) (m : Map ℕ V) → contains_key k m ≡ true → length (remove k m) < length m
  unfolding remove contains_key lookup
  length-remove k [] h = cc
  length-remove k ((j, v) ∷ m) h = ground (arith, length-remove k m, length-remove_le k m)

  contains_key-remove :
      (k j : ℕ) (m : Map ℕ V) → (k == j) ≡ false → contains_key j (remove k m) ≡ contains_key j m
  unfolding contains_key
  contains_key-remove k j m other =
      let same : lookup j (remove k m) ≡ lookup j m = lookup-remove k j m ∙ rw other refl in
      ap (λ (o : Option V). elim o [ none ↦ false | some v ↦ true ]) same

  -- No more keys than entries.
  length-keys :
      (xs : List ℕ) (m : Map ℕ V)
      → differ xs ≡ true
      → ((k : ℕ) → member k xs ≡ true → contains_key k m ≡ true)
      → length xs ≤ length m
  length-keys [] m apart all = omega arith
  length-keys (x ∷ xs) m apart all =
      let here : contains_key x m ≡ true = all x (ground arith) in
      let fewer = length-remove x m here in
      let rest = length-keys xs (remove x m) (ground arith) (λ k inside.
        contains_key-remove x k m (distinct x k xs apart inside) ∙ all k (ground arith)) in
      omega (arith, fewer, rest)

-- One round of the loop.
round_none :
    (taken : Bool) (again : Option ℕ) (d : ℕ)
    → (if taken then again else some d) ≡ none
    → (taken ≡ true) × (again ≡ none)
round_none true again d h = (refl, h)
round_none false again d h = cc

alloc_index-none :
    {n : Noise} (st : State n) (draws : List ℕ)
    → alloc_index st draws ≡ none
    → (k : ℕ) → member k draws ≡ true
    → contains_key k st.by_index ≡ true
unfolding alloc_index
alloc_index-none st [] h k inside = cc
alloc_index-none st (d ∷ draws) h k inside =
    let again = alloc_index-none st draws in
    let (taken, rest) = round_none (contains_key d st.by_index) (alloc_index st draws) d h in
    elim (ℕ_discrete d k) [ yes e ↦ rw (← e) taken | no ne ↦ again rest k (ground arith) ]

alloc_index-some :
    {n : Noise} (st : State n) (draws : List ℕ) (idx : ℕ)
    → alloc_index st draws ≡ some idx
    → contains_key idx st.by_index ≡ false
unfolding alloc_index
alloc_index-some st [] idx h = cc
alloc_index-some st (d ∷ draws) idx h = ground (arith, alloc_index-some st draws idx)

-- Among draws that differ from each other, and are more than there are sessions, the loop finds an index
-- that no session has.
pub alloc_index-total :
    {n : Noise} (st : State n) (draws : List ℕ)
    → differ draws ≡ true
    → length st.by_index < length draws
    → (idx : ℕ) × (alloc_index st draws ≡ some idx) × (contains_key idx st.by_index ≡ false)
alloc_index-total st draws apart many = elim (Option-cases (alloc_index st draws)) [
  | inl stuck ↦
      let few = length-keys draws st.by_index apart (alloc_index-none st draws stuck) in
      absurd (omega arith)
  | inr (idx, found) ↦ (idx, found, alloc_index-some st draws idx found)
]
