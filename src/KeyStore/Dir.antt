-- ===== src/KeyStore/Dir.antt =====
-- Directories: a name stands for one thing at most.
use swiyu_rs.Prelude.{
  ◌≡◌, refl, Option, none, some, List, [], ◌∷◌, if◌then◌else◌, Bool-cases, inl, inr, All, arith,
}
use swiyu_rs.Prelude.Text.{Text, text_eq, text_eq_iff, text_eq_sound}
use mathlib.Core.Option.{some-injective}

abbrev pub Dir {ℓ} : Type ℓ → Type ℓ
Dir A = List (Text × A)

module _ {ℓ} {A : Type ℓ} where
  unfoldable pub find : Dir A → Text → Option A
  find [] k = none
  find ((n, a) ∷ d) k = if text_eq n k then some a else find d k

  -- What the name stood for is overwritten.
  unfoldable pub put : Dir A → Text → A → Dir A
  put [] k v = (k, v) ∷ []
  put ((n, a) ∷ d) k v = let rest = put d k v in if text_eq n k then (k, v) ∷ d else (n, a) ∷ rest

  unfoldable pub erase : Dir A → Text → Dir A
  erase [] k = []
  erase ((n, a) ∷ d) k = let rest = erase d k in if text_eq n k then rest else (n, a) ∷ rest

  pub find-put :
      (d : Dir A) (k l : Text) (v : A)
      → find (put d k v) l ≡ (if text_eq k l then some v else find d l)
  unfolding find put
  find-put [] k l v = refl
  find-put ((n, a) ∷ d) k l v =
      ground (arith, text_eq_iff n k, text_eq_iff n l, text_eq_iff k l, find-put d k l v)

  pub find-erase :
      (d : Dir A) (k l : Text) → find (erase d k) l ≡ (if text_eq k l then none else find d l)
  unfolding find erase
  find-erase [] k l = ground arith
  find-erase ((n, a) ∷ d) k l =
      ground (arith, text_eq_iff n k, text_eq_iff n l, text_eq_iff k l, find-erase d k l)

  pub All-put {κ} :
      (P : Text × A → Type κ) (d : Dir A) (k : Text) (v : A)
      → All P d
      → P (k, v)
      → All P (put d k v)
  unfolding put
  All-put P [] k v h p = (p, tt)
  All-put P ((n, a) ∷ d) k v (q, h) p = elim (Bool-cases (text_eq n k)) [
    | inl e ↦ rw e (p, h)
    | inr e ↦ rw e (q, All-put P d k v h p)
  ]

  pub All-erase {κ} : (P : Text × A → Type κ) (d : Dir A) (k : Text) → All P d → All P (erase d k)
  unfolding erase
  All-erase P [] k h = tt
  All-erase P ((n, a) ∷ d) k (q, h) = elim (Bool-cases (text_eq n k)) [
    | inl e ↦ rw e (All-erase P d k h)
    | inr e ↦ rw e (q, All-erase P d k h)
  ]

  -- What a name stands for satisfies what all satisfy.
  pub All-find {κ} :
      (P : Text × A → Type κ) (d : Dir A) (k : Text) {v : A}
      → All P d
      → find d k ≡ some v
      → P (k, v)
  unfolding find
  All-find P [] k h e = absurd (cc)
  All-find P ((n, a) ∷ d) k {v} (q, h) e = elim (Bool-cases (text_eq n k)) [
    | inl f ↦
        let name : n ≡ k = text_eq_sound n k f in
        let same : a ≡ v = some-injective _ _ (rw f at e) in rw (← name, ← same) q
    | inr f ↦ All-find P d k h (rw f at e)
  ]
