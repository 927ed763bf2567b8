-- ===== src/Prelude/Post.antt =====
-- What a fallible computation ensures of the value that it returns, with a rule for each step.
use mathlib.Core.Path.{◌≡◌, refl}
use mathlib.Core.Bool.{Bool, true, false}
use swiyu_rs.Prelude.Outcome.{Result, ok, err, ◌>>=◌, guard}

pub data Ensures {ℓ κ μ} {E : Type ℓ} {A : Type κ} (P : A → Type μ)
    : Result E A → Type (ℓ ⊔ κ ⊔ μ) where
  returns : {a : A} → P a → Ensures P (ok a)
  fails : {e : E} → Ensures P (err e)

module _ {ℓ κ μ} {E : Type ℓ} {A : Type κ} {P : A → Type μ} where
  -- The conclusion, of a computation that returned.
  pub Ensures-ok : {r : Result E A} {a : A} → Ensures P r → r ≡ ok a → P a
  Ensures-ok {a} (returns {a = b} p) e = conclude b a p e
    where
      conclude : (b a : A) → P b → ◌≡◌ {A = Result E A} (ok b) (ok a) → P a
      conclude b a p e = let same : b ≡ a = cc in rw same at p
  Ensures-ok fails e = absurd (cc)

module _ {ℓ κ μ ν} {E : Type ℓ} {A : Type κ} {B : Type μ} {P : B → Type ν} where
  pub Ensures-bind :
      (m : Result E A) (f : A → Result E B)
      → ((a : A) → m ≡ ok a → Ensures P (f a))
      → Ensures P (m >>= f)
  Ensures-bind (ok a) f h = h a refl
  Ensures-bind (err e) f h = fails

module _ {ℓ μ} {E : Type ℓ} {P : Unit {0} → Type μ} where
  pub Ensures-guard : (test : Bool) (e : E) → (test ≡ true → P tt) → Ensures P (guard test e)
  Ensures-guard true e h = returns (h refl)
  Ensures-guard false e h = fails

module _ {ℓ κ μ ν} {E : Type ℓ} {A : Type κ} {P : A → Type μ} {Q : A → Type ν} where
  pub Ensures-weaken : {r : Result E A} → Ensures P r → ((a : A) → P a → Q a) → Ensures Q r
  Ensures-weaken (returns {a} p) h = returns (h a p)
  Ensures-weaken fails h = fails

module _ {ℓ κ μ} {E : Type ℓ} {A : Type κ} {P : A → Type μ} where
  -- What holds of every value that the computation returns.
  pub Ensures-all : (r : Result E A) → ((a : A) → r ≡ ok a → P a) → Ensures P r
  Ensures-all (ok a) h = returns (h a refl)
  Ensures-all (err e) h = fails
