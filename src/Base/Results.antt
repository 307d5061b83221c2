-- ===== src/Base/Results.antt =====
-- `anyhow::Result`: a value, or an error made by `bail!`, by `.context` or by foreign code.
use Prim.Native.Nat.{ℕ}
use Prim.Native.String.{String}
use mathlib.Core.Path.{◌≡◌, refl}
use mathlib.Core.Bool.{Bool, true, false}
use mathlib.Core.Option.{Option, none, some}
use mathlib.Core.Logic.{◌⊎◌, inl, inr}

-- `bail` carries the message's fixed text; `foreign` is an error of the OS or of a dependency.
pub data Error : Type 0 where
  bail : String → Error
  context : String → Error → Error
  foreign : ℕ → Error

pub data Result {ℓ} (A : Type ℓ) : Type ℓ where
  err : Error → Result A
  ok : A → Result A

infixl 5 ◌>>=◌ ◌>>◌
-- The `?` operator: the first error is the result of the whole.
abbrev pub ◌>>=◌ {μ ν} : {S : Type μ} {T : Type ν} → Result S → (S → Result T) → Result T
err e >>= next = err e
ok s >>= next = next s

abbrev pub ◌>>◌ {ν} : {T : Type ν} → Result (Unit {0}) → Result T → Result T
ok done >> next = next
err e >> next = err e

-- `if test { bail!(message) }`.
abbrev pub bail_if : Bool → String → Result (Unit {0})
bail_if true message = err (bail message)
bail_if false message = ok tt

abbrev pub with_context {ℓ} : {A : Type ℓ} → String → Result A → Result A
with_context message (ok a) = ok a
with_context message (err e) = err (context message e)

-- `.context` on an `Option`.
abbrev pub or_context {ℓ} : {A : Type ℓ} → String → Option A → Result A
or_context message none = err (bail message)
or_context message (some a) = ok a

pub Result-cases {ℓ} :
    {A : Type ℓ} (r : Result A) → ((a : A) × (r ≡ ok a)) ⊎ ((e : Error) × (r ≡ err e))
Result-cases (ok a) = inl (a, refl)
Result-cases (err e) = inr (e, refl)

-- What a chain that succeeds says of its first step.
pub bind-ok {ℓ κ} :
    {A : Type ℓ} {B : Type κ} (r : Result A) (next : A → Result B) (b : B)
    → (r >>= next) ≡ ok b
    → (a : A) × (r ≡ ok a) × (next a ≡ ok b)
bind-ok (ok a) next b h = (a, refl, h)
bind-ok (err e) next b h = cc

pub bail_if-ok {κ} :
    {B : Type κ} (test : Bool) (message : String) (rest : Result B) (b : B)
    → (bail_if test message >> rest) ≡ ok b
    → (test ≡ false) × (rest ≡ ok b)
bail_if-ok true message rest b h = cc
bail_if-ok false message rest b h = (refl, h)

pub with_context-ok {ℓ} :
    {A : Type ℓ} (message : String) (r : Result A) (a : A)
    → with_context message r ≡ ok a
    → r ≡ ok a
with_context-ok message (ok b) a h = h
with_context-ok message (err e) a h = cc

pub then-ok {κ} :
    {B : Type κ} (first : Result (Unit {0})) (rest : Result B) (b : B)
    → (first >> rest) ≡ ok b
    → (first ≡ ok tt) × (rest ≡ ok b)
then-ok (ok done) rest b h = (refl, h)
then-ok (err e) rest b h = cc
