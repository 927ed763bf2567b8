-- ===== src/Prelude/Chunks.antt =====
-- A list spread out by a function that gives each element the same number of places.
use Prim.Native.Nat.{ℕ, zero, suc, ◌+◌, ◌*◌, ◌<◌}
use mathlib.Core.Path.{◌≡◌, refl, ap, ap₂, sym, ◌∙◌}
use mathlib.Core.List.{List, [], ◌∷◌, ◌++◌, map}
use mathlib.Core.Option
use mathlib.Core.Option.{Option, none, some}
use native.Mathlib.Omega.{arith}
use swiyu_rs.Prelude.Lists.{length, get_elem?, set, replicate, length-append}
use swiyu_rs.Prelude.Tests.{◌==◌, if◌then◌else◌}
use swiyu_rs.Prelude.Outcome.{and_then}

module _ {ℓ} {A : Type ℓ} where
  pub get_elem?-append_left :
      (xs ys : List A) (i : ℕ) → i < length xs → get_elem? (xs ++ ys) i ≡ get_elem? xs i
  get_elem?-append_left [] ys i h = elim h [ ]
  get_elem?-append_left (x ∷ xs) ys zero h = refl
  get_elem?-append_left (x ∷ xs) ys (suc i) h = get_elem?-append_left xs ys i (omega arith)

  pub get_elem?-append_right :
      (xs ys : List A) (i k : ℕ) → k ≡ length xs + i → get_elem? (xs ++ ys) k ≡ get_elem? ys i
  get_elem?-append_right [] ys i k h = ap (get_elem? ys) (omega arith)
  get_elem?-append_right (x ∷ xs) ys i zero h = absurd (omega arith)
  get_elem?-append_right (x ∷ xs) ys i (suc k) h = get_elem?-append_right xs ys i k (omega arith)

  pub set-append_left :
      (xs ys : List A) (i : ℕ) (v : A) → i < length xs → set (xs ++ ys) i v ≡ set xs i v ++ ys
  set-append_left [] ys i v h = elim h [ ]
  set-append_left (x ∷ xs) ys zero v h = refl
  set-append_left (x ∷ xs) ys (suc i) v h =
      ap (λ r. x ∷ r) (set-append_left xs ys i v (omega arith))

  pub set-append_right :
      (xs ys : List A) (i k : ℕ) (v : A) → k ≡ length xs + i → set (xs ++ ys) k v ≡ xs ++ set ys i v
  set-append_right [] ys i k v h = ap (λ (m : ℕ). set ys m v) (omega arith)
  set-append_right (x ∷ xs) ys i zero v h = absurd (omega arith)
  set-append_right (x ∷ xs) ys i (suc k) v h =
      ap (λ r. x ∷ r) (set-append_right xs ys i k v (omega arith))

  pub replicate-add :
      (m n k : ℕ) (a : A) → k ≡ m + n → replicate k a ≡ replicate m a ++ replicate n a
  replicate-add zero n k a e = ap (λ (i : ℕ). replicate i a) (omega arith)
  replicate-add (suc m) n zero a e = absurd (omega arith)
  replicate-add (suc m) n (suc k) a e = ap (λ r. a ∷ r) (replicate-add m n k a (omega arith))

  -- An element is read back where it was written, and the others are as before.
  pub get_elem?-set :
      (xs : List A) (i k : ℕ) (v : A)
      → i < length xs
      → get_elem? (set xs i v) k ≡ (if k == i then some v else get_elem? xs k)
  get_elem?-set [] i k v h = elim h [ ]
  get_elem?-set (x ∷ xs) zero zero v h = refl
  get_elem?-set (x ∷ xs) zero (suc k) v h = ground arith
  get_elem?-set (x ∷ xs) (suc i) zero v h = ground arith
  get_elem?-set (x ∷ xs) (suc i) (suc k) v h = ground (arith, get_elem?-set xs i k v)

module _ {ℓ κ} {A : Type ℓ} {B : Type κ} where
  abbrev pub chunks : (A → List B) → List A → List B
  chunks f [] = []
  chunks f (x ∷ xs) = f x ++ chunks f xs

  pub length-chunks :
      (f : A → List B) (w : ℕ) (xs : List A)
      → ((a : A) → length (f a) ≡ w)
      → length (chunks f xs) ≡ length xs * w
  length-chunks f w [] h = omega arith
  length-chunks f w (x ∷ xs) h =
      omega (arith, length-append (f x) (chunks f xs), h x, length-chunks f w xs h)

  pub get_elem?-chunks :
      (f : A → List B) (w : ℕ) (xs : List A) (q r : ℕ)
      → ((a : A) → length (f a) ≡ w)
      → r < w
      → get_elem? (chunks f xs) (q * w + r) ≡ and_then (get_elem? xs q) (λ a. get_elem? (f a) r)
  get_elem?-chunks f w [] q r h lt = refl
  get_elem?-chunks f w (x ∷ xs) zero r h lt =
      let e : 0 * w + r ≡ r = omega arith in
      rw e (get_elem?-append_left (f x) (chunks f xs) r (omega (arith, h x)))
  get_elem?-chunks f w (x ∷ xs) (suc q) r h lt =
      get_elem?-append_right (f x) (chunks f xs) (q * w + r) _ (omega (arith, h x))
      ∙ get_elem?-chunks f w xs q r h lt

  pub set-chunks :
      (f : A → List B) (w : ℕ) (xs : List A) (q r : ℕ) (a b : A) (v : B)
      → ((a : A) → length (f a) ≡ w)
      → r < w
      → get_elem? xs q ≡ some a
      → f b ≡ set (f a) r v
      → chunks f (set xs q b) ≡ set (chunks f xs) (q * w + r) v
  set-chunks f w [] q r a b v h lt e eb = refl
  set-chunks f w (x ∷ xs) zero r a b v h lt e eb =
      let i : 0 * w + r ≡ r = omega arith in
      let x-a : x ≡ a = Option.some-injective _ _ e in
      rw (i, set-append_left (f x) (chunks f xs) r v (omega (arith, h x)), eb, x-a)
  set-chunks f w (x ∷ xs) (suc q) r a b v h lt e eb =
      ap (λ t. f x ++ t) (set-chunks f w xs q r a b v h lt e eb)
      ∙ sym (set-append_right (f x) (chunks f xs) (q * w + r) _ v (omega (arith, h x)))

  pub get_elem?-map :
      (f : A → B) (xs : List A) (i : ℕ)
      → get_elem? (map f xs) i ≡ and_then (get_elem? xs i) (λ a. some (f a))
  get_elem?-map f [] i = refl
  get_elem?-map f (x ∷ xs) zero = refl
  get_elem?-map f (x ∷ xs) (suc i) = get_elem?-map f xs i

  pub map-set :
      (f : A → B) (xs : List A) (i : ℕ) (v : A) → map f (set xs i v) ≡ set (map f xs) i (f v)
  map-set f [] i v = refl
  map-set f (x ∷ xs) zero v = refl
  map-set f (x ∷ xs) (suc i) v = ap (λ t. f x ∷ t) (map-set f xs i v)

  pub length-map : (f : A → B) (xs : List A) → length (map f xs) ≡ length xs
  length-map f [] = refl
  length-map f (x ∷ xs) = ap suc (length-map f xs)

  pub chunks-replicate :
      (f : A → List B) (w n : ℕ) (a : A) (b : B)
      → f a ≡ replicate w b
      → chunks f (replicate n a) ≡ replicate (n * w) b
  chunks-replicate f w zero a b h =
      let none_left : 0 ≡ 0 * w = omega arith in ap (λ (i : ℕ). replicate i b) none_left
  chunks-replicate f w (suc n) a b h =
      ap₂ (λ s t. s ++ t) h (chunks-replicate f w n a b h)
      ∙ sym (replicate-add w (n * w) (suc n * w) b (omega arith))

  pub map-replicate : (f : A → B) (n : ℕ) (a : A) → map f (replicate n a) ≡ replicate n (f a)
  map-replicate f zero a = refl
  map-replicate f (suc n) a = ap (λ t. f a ∷ t) (map-replicate f n a)
