-- ===== src/Common/Fallible.antt =====
-- std::expected: a value, or the error in its place.
use mathlib.Core.Path.{◌≡◌, refl}
use mathlib.Core.Logic.{◌⊎◌, inl, inr}
use mathlib.Core.Bool.{Bool, true, false}
use mathlib.Core.Option.{Option, none, some}

pub data Expected {ℓ κ} (A : Type ℓ) (E : Type κ) : Type (ℓ ⊔ κ) where
  value : A → Expected A E
  unexpected : E → Expected A E

infixl 5 ◌>>=◌ ◌>>◌
abbrev pub ◌>>=◌ {ℓ κ ι} :
    {A : Type ℓ} {B : Type κ} {E : Type ι} → Expected A E → (A → Expected B E) → Expected B E
value a >>= f = f a
unexpected e >>= f = unexpected e

abbrev pub ◌>>◌ {ℓ ι} :
    {B : Type ℓ} {E : Type ι} → Expected (Unit {0}) E → Expected B E → Expected B E
m >> k = m >>= λ _. k

-- `if (test) return std::unexpected(e);`
abbrev pub fail_if {ι} : {E : Type ι} → Bool → E → Expected (Unit {0}) E
fail_if true e = unexpected e
fail_if false e = value tt

abbrev pub or_fail {ℓ ι} : {A : Type ℓ} {E : Type ι} → Option A → E → Expected A E
or_fail none e = unexpected e
or_fail (some a) e = value a

pub Expected-cases {ℓ ι} :
    {A : Type ℓ} {E : Type ι} (m : Expected A E)
    → ((a : A) × (m ≡ value a)) ⊎ ((e : E) × (m ≡ unexpected e))
Expected-cases (value a) = inl (a, refl)
Expected-cases (unexpected e) = inr (e, refl)

-- Inversion of a successful bind, for proofs where the parts stay shut.
pub >>=-eq-value {ℓ κ ι} :
    {A : Type ℓ} {B : Type κ} {E : Type ι} (m : Expected A E) (f : A → Expected B E) {b : B}
    → (m >>= f) ≡ value b
    → (a : A) × (m ≡ value a) × (f a ≡ value b)
>>=-eq-value (value a) f h = (a, refl, h)
>>=-eq-value (unexpected e) f h = cc

pub fail_if-eq-value {ι} :
    {E : Type ι} (b : Bool) (e : E) {u : Unit {0}} → fail_if b e ≡ value u → b ≡ false
fail_if-eq-value true e h = cc
fail_if-eq-value false e h = refl

pub or_fail-eq-value {ℓ ι} :
    {A : Type ℓ} {E : Type ι} (o : Option A) (e : E) {a : A} → or_fail o e ≡ value a → o ≡ some a
or_fail-eq-value none e h = cc
or_fail-eq-value (some a) e h = cc

pub value_injective {ℓ ι} :
    {A : Type ℓ} {E : Type ι} {a b : A} → ◌≡◌ {A = Expected A E} (value a) (value b) → a ≡ b
value_injective h = cc
