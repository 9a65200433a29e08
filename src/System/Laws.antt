-- ===== src/System/Laws.antt =====
-- What holds at the end of a part of a program: it returns, and no memory outside of an array was touched.
use umdns.Outcome.{Outcome, Ensures, ok, err, fault, stuck}
use umdns.Prelude.{Option, none, some}
use umdns.System.{World, Run, Sys, returned, faulted, stalled, and_then, run_outcome}

abbrev pub Post : {A : Type 0} → (A → World → Type 0) → Run A → Type 0
Post P (returned a w) = P a w
Post P faulted = ⊥
Post P stalled = ⊥

pub Post-bind :
    {A B : Type 0} (P : A → World → Type 0) (Q : B → World → Type 0) (r : Run A) (f : A → Sys B)
    → Post P r
    → ((a : A) (w : World) → P a w → Post Q (f a w))
    → Post Q (and_then r f)
Post-bind P Q (returned a w) f h k = k a w h
Post-bind P Q faulted f h k = h
Post-bind P Q stalled f h k = h

pub Post-weaken :
    {A : Type 0} (P Q : A → World → Type 0) (r : Run A)
    → Post P r
    → ((a : A) (w : World) → P a w → Q a w)
    → Post Q r
Post-weaken P Q (returned a w) h k = k a w h
Post-weaken P Q faulted h k = h
Post-weaken P Q stalled h k = h

-- A function without calls leaves the world alone.
pub Post-run_outcome :
    {A : Type 0} (P : A → Type 0) (m : Outcome A) (Q : Option A → World → Type 0) (w : World)
    → Ensures P m
    → ((a : A) → P a → Q (some a) w)
    → Q none w
    → Post Q (run_outcome m w)
Post-run_outcome P (ok a) Q w h k n = k a h
Post-run_outcome P err Q w h k n = n
Post-run_outcome P fault Q w h k n = h
Post-run_outcome P stuck Q w h k n = h
