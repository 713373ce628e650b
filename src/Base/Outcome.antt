-- ===== src/Base/Outcome.antt =====
-- Go's `(T, error)` results.
use mathlib.Core.Path.{◌≡◌, refl}
use mathlib.Core.Logic.{◌⊎◌, inl, inr}
use mathlib.Core.Bool.{Bool, true, false}
use native.Mathlib.Omega.{arith}

pub data Result {ℓ κ} (E : Type ℓ) (A : Type κ) : Type (ℓ ⊔ κ) where
  success : A → Result E A
  failure : E → Result E A

module _ {ℓ} {E : Type ℓ} where
  infixl 5 ◌>>=◌ ◌>>◌
  abbrev pub ◌>>=◌ {κ μ} : {A : Type κ} {B : Type μ} → Result E A → (A → Result E B) → Result E B
  success a >>= f = f a
  failure e >>= f = failure e

  abbrev pub ◌>>◌ {κ} : {B : Type κ} → Result E (Unit {0}) → Result E B → Result E B
  m >> k = m >>= λ _. k

  -- `if !test { return err }`
  abbrev pub require : Bool → E → Result E (Unit {0})
  require true e = success tt
  require false e = failure e

  -- The error wrapped by the caller.
  abbrev pub map_failure {κ μ} : {F : Type κ} {A : Type μ} → (E → F) → Result E A → Result F A
  map_failure f (success a) = success a
  map_failure f (failure e) = failure (f e)

  pub >>=-eq-success {κ μ} :
      {A : Type κ} {B : Type μ} (m : Result E A) (f : A → Result E B) {b : B}
      → (m >>= f) ≡ success b
      → (a : A) × (m ≡ success a) × (f a ≡ success b)
  >>=-eq-success (success a) f h = (a, refl, h)
  >>=-eq-success (failure e) f h = cc

  pub >>-eq-success {κ} :
      {B : Type κ} (m : Result E (Unit {0})) (k : Result E B) {b : B}
      → (m >> k) ≡ success b
      → (m ≡ success tt) × (k ≡ success b)
  >>-eq-success (success u) k h = (refl, h)
  >>-eq-success (failure e) k h = cc

  pub map_failure-eq-success {κ μ} :
      {F : Type κ} {A : Type μ} (f : E → F) (m : Result E A) {a : A}
      → map_failure f m ≡ success a
      → m ≡ success a
  map_failure-eq-success f (success a) h = ground arith
  map_failure-eq-success f (failure e) h = cc

  pub require-eq-success {κ} :
      {B : Type κ} (test : Bool) (e : E) (m : Result E B) {b : B}
      → (require test e >> m) ≡ success b
      → (test ≡ true) × (m ≡ success b)
  require-eq-success true e m h = (refl, h)
  require-eq-success false e m h = cc

pub success-injective {ℓ κ} :
    {E : Type ℓ} {A : Type κ} {a b : A} → ◌≡◌ {A = Result E A} (success a) (success b) → a ≡ b
success-injective h = cc

pub Result-cases {ℓ κ} :
    {E : Type ℓ} {A : Type κ} (r : Result E A)
    → ((a : A) × (r ≡ success a)) ⊎ ((e : E) × (r ≡ failure e))
Result-cases (success a) = inl (a, refl)
Result-cases (failure e) = inr (e, refl)
