-- ===== src/Route/Os/Laws.antt =====
-- Actions taken apart: what a success says of the steps, and what no step changes.
pub use soulvpn.Base.Actions.{and_then-ok, and_then-pure-ok}
use soulvpn.Base.{
  ◌≡◌, ◌≢◌, Error, refl, ◌∙◌, Bool, true, false, Option, none, some, List, Result, ok, err, ap,
}
use soulvpn.Route.Os.{Os, Arg, run, ran, Action, and_then, ◌>>=◌, ◌>>◌}

-- An action does not change what is seen of the world.
abbrev pub Keeps : {W A X : Type 0} → (W → X) → Action W A → Type 0
Keeps {W = W} see m = (w : W) → see (m w).0 ≡ see w

see-and_then :
    {W A B X : Type 0} (see : W → X) (r : W × Result A) (next : A → Action W B)
    → ((a : A) → Keeps see (next a))
    → see (and_then next r).0 ≡ see r.0
see-and_then see (w, ok a) next rest = rest a w
see-and_then see (w, err e) next rest = refl

pub and_then-Keeps :
    {W A B X : Type 0} (see : W → X) (m : Action W A) (next : A → Action W B)
    → Keeps see m
    → ((a : A) → Keeps see (next a))
    → Keeps see (m >>= next)
and_then-Keeps see m next first rest w = see-and_then see (m w) next rest ∙ first w

pub then-Keeps :
    {W B X : Type 0} (see : W → X) (m : Action W (Unit {0})) (next : Action W B)
    → Keeps see m
    → Keeps see next
    → Keeps see (m >> next)
then-Keeps see m next first rest = and_then-Keeps see m (λ done. next) first (λ done. rest)

-- What holds of the world before an action holds after it, also where the action fails.
abbrev pub Preserves : {W A : Type 0} → (W → Type 0) → Action W A → Type 0
Preserves {W = W} P m = (w : W) → P w → P (m w).0

after_and_then :
    {W A B : Type 0} (P : W → Type 0) (r : W × Result A) (next : A → Action W B)
    → P r.0
    → ((a : A) → Preserves P (next a))
    → P (and_then next r).0
after_and_then P (w, ok a) next first rest = rest a w first
after_and_then P (w, err e) next first rest = first

pub and_then-Preserves :
    {W A B : Type 0} (P : W → Type 0) (m : Action W A) (next : A → Action W B)
    → Preserves P m
    → ((a : A) → Preserves P (next a))
    → Preserves P (m >>= next)
and_then-Preserves P m next first rest w before = after_and_then P (m w) next (first w before) rest

abbrev pub Fails : {A : Type 0} → Result A → Type 0
Fails r = (e : Error) × (r ≡ err e)

-- An action fails, and nothing that is seen of the world has changed then.
abbrev pub Stops : {W A X : Type 0} → (W → X) → Action W A → Type 0
Stops {W = W} see m = (w : W) → (see (m w).0 ≡ see w) × Fails (m w).1

Stops-after :
    {W A B X : Type 0} (see : W → X) (r : W × Result A) (next : A → Action W B)
    → Fails r.1
    → (see (and_then next r).0 ≡ see r.0) × Fails (and_then next r).1
Stops-after see (w, ok a) next (e, h) = cc
Stops-after see (w, err e') next failed = (refl, (e', refl))

pub Stops-first :
    {W A B X : Type 0} (see : W → X) (m : Action W A) (next : A → Action W B)
    → Stops see m
    → Stops see (m >>= next)
Stops-first see m next first w =
    let (same, failed) = first w in
    let (same', failed') = Stops-after see (m w) next failed in (same' ∙ same, failed')

Stops-then_after :
    {W A B X : Type 0} (see : W → X) (r : W × Result A) (next : A → Action W B)
    → ((a : A) → Stops see (next a))
    → (see (and_then next r).0 ≡ see r.0) × Fails (and_then next r).1
Stops-then_after see (w, ok a) next rest = rest a w
Stops-then_after see (w, err e) next rest = (refl, (e, refl))

pub Stops-later :
    {W A B X : Type 0} (see : W → X) (m : Action W A) (next : A → Action W B)
    → Keeps see m
    → ((a : A) → Stops see (next a))
    → Stops see (m >>= next)
Stops-later see m next first rest w =
    let (same, failed) = Stops-then_after see (m w) next rest in (same ∙ first w, failed)

-- Where the first holds and the action succeeds, the second holds.
abbrev pub Ensures : {W A : Type 0} → (W → Type 0) → Action W A → (W → Type 0) → Type 0
Ensures {W = W} {A = A} P m Q = (w w' : W) (a : A) → P w → m w ≡ (w', ok a) → Q w'

pub and_then-Ensures :
    {W B : Type 0} {P Q R : W → Type 0} (m : Action W (Unit {0})) (next : Action W B)
    → Ensures P m Q
    → Ensures Q next R
    → Ensures P (m >> next) R
and_then-Ensures m next first rest w w' b before run =
    let step = and_then-ok (m w) (λ done. next) w' b run in
    rest (m w).0 w' b (first w (m w).0 tt before (ap (λ r. ((m w).0, r)) step.1)) step.2

ran-ok : (status : Option Bool) → ran status ≡ ok tt → status ≡ some true
ran-ok none h = cc
ran-ok (some true) h = refl
ran-ok (some false) h = cc

ran-err : (status : Option Bool) (e : Error) → ran status ≡ err e → status ≢ some true
ran-err none e h = λ same. cc
ran-err (some true) e h = cc
ran-err (some false) e h = λ same. cc

module _ (os : Os) where
  pub run-ok :
      (args : List Arg) (w w' : os.World) (done : Unit {0})
      → run os args w ≡ (w', ok done)
      → ((os.exec w args).1 ≡ some true) × ((os.exec w args).0 ≡ w')
  run-ok args w w' done h = (ran-ok (os.exec w args).1 (ap (λ r. r.1) h), ap (λ r. r.0) h)

  pub run-err :
      (args : List Arg) (w : os.World) (e : Error)
      → (run os args w).1 ≡ err e
      → (os.exec w args).1 ≢ some true
  run-err args w e h = ran-err (os.exec w args).1 e h
