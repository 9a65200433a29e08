-- ===== src/Outcome.antt =====
-- What a C function of the program does: it returns a value (`ok`), returns its error code (`err`),
-- touches memory outside an array (`fault`), or has not ended within the fuel given (`stuck`).
use umdns.Prelude.{◌≡◌, refl, if◌then◌else◌, Bool, true, false, Option, none, some}

pub data Outcome {ℓ} (A : Type ℓ) : Type ℓ where
  ok : A → Outcome A
  err : Outcome A
  fault : Outcome A
  stuck : Outcome A

infixl 5 ◌>>=◌ ◌>>◌
abbrev pub ◌>>=◌ {ℓ κ} : {A : Type ℓ} {B : Type κ} → Outcome A → (A → Outcome B) → Outcome B
ok a >>= f = f a
err >>= f = err
fault >>= f = fault
stuck >>= f = stuck

abbrev pub ◌>>◌ {ℓ} : {B : Type ℓ} → Outcome (Unit {0}) → Outcome B → Outcome B
m >> k = m >>= λ _. k

-- `if (!test) return -1;`
abbrev pub require : Bool → Outcome (Unit {0})
require true = ok tt
require false = err

-- The array access is inside the array.
abbrev pub in_bounds : Bool → Outcome (Unit {0})
in_bounds true = ok tt
in_bounds false = fault

-- The call ends, touches no memory out of bounds, and a value that it returns satisfies `P`.
abbrev pub Ensures {ℓ} : {A : Type ℓ} → (A → Type 0) → Outcome A → Type 0
Ensures P (ok a) = P a
Ensures P err = Unit {0}
Ensures P fault = ⊥
Ensures P stuck = ⊥

pub Ensures-bind {ℓ κ} :
    {A : Type ℓ} {B : Type κ} (P : A → Type 0) (Q : B → Type 0) (m : Outcome A) (f : A → Outcome B)
    → Ensures P m
    → ((a : A) → P a → Ensures Q (f a))
    → Ensures Q (m >>= f)
Ensures-bind P Q (ok a) f h k = k a h
Ensures-bind P Q err f h k = tt
Ensures-bind P Q fault f h k = elim h [ ]
Ensures-bind P Q stuck f h k = elim h [ ]

pub Ensures-weaken {ℓ} :
    {A : Type ℓ} (P Q : A → Type 0) (m : Outcome A)
    → Ensures P m
    → ((a : A) → P a → Q a)
    → Ensures Q m
Ensures-weaken P Q (ok a) h k = k a h
Ensures-weaken P Q err h k = tt
Ensures-weaken P Q fault h k = elim h [ ]
Ensures-weaken P Q stuck h k = elim h [ ]

-- The caller goes on after an error of the call.
abbrev pub attempt {ℓ} : {A : Type ℓ} → Outcome A → Outcome (Option A)
attempt (ok a) = ok (some a)
attempt err = ok none
attempt fault = fault
attempt stuck = stuck

-- What comes behind a test may rest on it.
pub Ensures-require {ℓ} :
    {A : Type ℓ} (P : A → Type 0) (b : Bool) (m : Outcome A)
    → (b ≡ true → Ensures P m)
    → Ensures P (require b >> m)
Ensures-require P true m h = h refl
Ensures-require P false m h = tt

pub Ensures-if {ℓ} :
    {A : Type ℓ} (P : A → Type 0) (b : Bool) (m n : Outcome A)
    → (b ≡ true → Ensures P m)
    → (b ≡ false → Ensures P n)
    → Ensures P (if b then m else n)
Ensures-if P true m n h k = h refl
Ensures-if P false m n h k = k refl

-- A caller that goes on after an error rests on what holds in both cases.
pub Ensures-attempt {ℓ} :
    {A : Type ℓ} (P : A → Type 0) (Q : Option A → Type 0) (m : Outcome A)
    → Ensures P m
    → ((a : A) → P a → Q (some a))
    → Q none
    → Ensures Q (attempt m)
Ensures-attempt P Q (ok a) h k n = k a h
Ensures-attempt P Q err h k n = n
Ensures-attempt P Q fault h k n = elim h [ ]
Ensures-attempt P Q stuck h k n = elim h [ ]

pub bind_assoc {ℓ κ μ} :
    {A : Type ℓ} {B : Type κ} {C : Type μ} (m : Outcome A) (f : A → Outcome B) (g : B → Outcome C)
    → ((m >>= f) >>= g) ≡ (m >>= λ x. f x >>= g)
bind_assoc (ok a) f g = refl
bind_assoc err f g = refl
bind_assoc fault f g = refl
bind_assoc stuck f g = refl
