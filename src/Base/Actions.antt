-- ===== src/Base/Actions.antt =====
-- Calls that work on a world and may fail.
use mathlib.Core.Path.{◌≡◌, refl, ap}
use soulvpn.Base.Results.{Result, ok, err, Error}

-- A call that works on the world and may fail.
abbrev pub Action : Type 0 → Type 0 → Type 0
Action W A = W → W × Result A

infixl 5 ◌>>=◌ ◌>>◌
abbrev pub and_then : {W A B : Type 0} → (A → Action W B) → W × Result A → W × Result B
and_then next (w, ok a) = next a w
and_then next (w, err e) = (w, err e)

abbrev pub ◌>>=◌ : {W A B : Type 0} → Action W A → (A → Action W B) → Action W B
◌>>=◌ m next w = and_then next (m w)

abbrev pub ◌>>◌ : {W B : Type 0} → Action W (Unit {0}) → Action W B → Action W B
m >> next = m >>= λ done. next

abbrev pub pure : {W A : Type 0} → A → Action W A
pure a w = (w, ok a)

-- `let _ = …`
abbrev pub ignore : {W A : Type 0} → Action W A → Action W (Unit {0})
ignore m w = ((m w).0, ok tt)

pub and_then-ok :
    {W A B : Type 0} (r : W × Result A) (next : A → Action W B) (w : W) (b : B)
    → and_then next r ≡ (w, ok b)
    → (a : A) × (r.1 ≡ ok a) × (next a r.0 ≡ (w, ok b))
and_then-ok (w', ok a) next w b h = (a, refl, h)
and_then-ok (w', err e) next w b h = let clash = ap (λ p. p.1) h in cc

pub and_then-pure-ok :
    {W A B : Type 0} (r : W × Result A) (f : A → B) (w : W) (b : B)
    → and_then (λ a. pure (f a)) r ≡ (w, ok b)
    → (a : A) × (r ≡ (w, ok a)) × (f a ≡ b)
and_then-pure-ok (w', ok a) f w b h =
    let value : ok (f a) ≡ ok b = ap (λ r. r.1) h in (a, ap (λ r. (r.0, ok a)) h, cc)
and_then-pure-ok (w', err e) f w b h = let clash = ap (λ p. p.1) h in cc

pub and_then_assoc :
    {W A B C : Type 0} (r : W × Result A) (f : A → Action W B) (g : B → Action W C)
    → and_then g (and_then f r) ≡ and_then (λ a w. and_then g (f a w)) r
and_then_assoc (w, ok a) f g = refl
and_then_assoc (w, err e) f g = refl

pub and_then-pure :
    {W A B C : Type 0} (r : W × Result A) (f : A → B) (g : B → Action W C)
    → and_then g (and_then (λ a. pure (f a)) r) ≡ and_then (λ a. g (f a)) r
and_then-pure (w, ok a) f g = refl
and_then-pure (w, err e) f g = refl

-- A call that succeeds gives this value.
abbrev pub Returns : {W A : Type 0} → A → Action W A → Type 0
Returns {W = W} {A = A} v m = (w w' : W) (a : A) → m w ≡ (w', ok a) → a ≡ v

pub then-Returns :
    {W A : Type 0} (v : A) (m : Action W (Unit {0})) (next : Action W A)
    → Returns v next
    → Returns v (m >> next)
then-Returns v m next rest w w' a h =
    let step = and_then-ok (m w) (λ done. next) w' a h in rest (m w).0 w' a step.2

pub pure-Returns : {W A : Type 0} (v : A) → Returns {W = W} v (pure v)
pure-Returns v w w' a h = let value : ok v ≡ ok a = ap (λ r. r.1) h in cc

pub after_ok :
    {W A B : Type 0} (r : W × Result A) (next : A → Action W B) (a : A)
    → r.1 ≡ ok a
    → and_then next r ≡ next a r.0
after_ok (w, ok b) next a h = let same : b ≡ a = cc in ap (λ x. next x w) same
after_ok (w, err e) next a h = cc

pub after_err :
    {W A B : Type 0} (r : W × Result A) (next : A → Action W B) (e : Error)
    → r.1 ≡ err e
    → and_then next r ≡ (r.0, err e)
after_err (w, ok b) next e h = cc
after_err (w, err e') next e h = let same : e' ≡ e = cc in ap (λ x. (w, err x)) same
