-- ===== src/Base/Maybe.antt =====
-- Programs that may abort: `none` is a failed CHECK or an access out of range.
use mathlib.Core.Path.{◌≡◌, refl}
use mathlib.Core.Bool.{Bool, true, false}
use mathlib.Core.Option.{Option, none, some}
use llm_steady_infer.Base.Tests.{if◌then◌else◌}

infixl 5 ◌>>=◌ ◌>>◌
abbrev pub ◌>>=◌ {ℓ κ} : {A : Type ℓ} {B : Type κ} → Option A → (A → Option B) → Option B
none >>= f = none
some a >>= f = f a

abbrev pub ◌>>◌ {ℓ} : {B : Type ℓ} → Option (Unit {0}) → Option B → Option B
m >> k = m >>= λ _. k

-- CHECK(b)
abbrev pub check : Bool → Option (Unit {0})
check true = some tt
check false = none

-- Total correctness: the program does not abort, and its result satisfies `P`.
abbrev pub Returns {ℓ} : {A : Type ℓ} → Option A → (A → Type 0) → Type 0
Returns none P = ⊥
Returns (some a) P = P a

pub Returns-bind {ℓ κ} :
    {A : Type ℓ} {B : Type κ} (P : A → Type 0) (Q : B → Type 0) (m : Option A) (f : A → Option B)
    → Returns m P
    → ((a : A) → P a → Returns (f a) Q)
    → Returns (m >>= f) Q
Returns-bind P Q none f r h = absurd r
Returns-bind P Q (some a) f r h = h a r

pub Returns-mono {ℓ} :
    {A : Type ℓ} (P Q : A → Type 0) (m : Option A)
    → Returns m P
    → ((a : A) → P a → Q a)
    → Returns m Q
Returns-mono P Q none r h = absurd r
Returns-mono P Q (some a) r h = h a r

pub Returns-if {ℓ} :
    {A : Type ℓ} (P : A → Type 0) (b : Bool) (m k : Option A)
    → (b ≡ true → Returns m P)
    → (b ≡ false → Returns k P)
    → Returns (if b then m else k) P
Returns-if P true m k yes_case no_case = yes_case refl
Returns-if P false m k yes_case no_case = no_case refl

pub Returns-both {ℓ} :
    {A : Type ℓ} (P Q : A → Type 0) (m : Option A)
    → Returns m P
    → Returns m Q
    → Returns m (λ a. P a × Q a)
Returns-both P Q none p q = absurd p
Returns-both P Q (some a) p q = (p, q)
