-- ===== src/Prelude/Splits.antt =====
-- The parts that a text is split into at a separator.
use swiyu_rs.Prelude.{ℕ, ◌≡◌, refl, List, [], ◌∷◌, ◌++◌, Bool-cases, ◌==◌, inl, inr, arith}
use swiyu_rs.Prelude.Text.{Text, split, Lacks}

pub split-Lacks : (sep : ℕ) (s : Text) → Lacks sep s → split sep s ≡ s ∷ []
unfolding split
split-Lacks sep [] h = refl
split-Lacks sep (c ∷ s) (hc, h) = ground (arith, split-Lacks sep s h)

-- The part before a separator comes first.
pub split-part : (sep : ℕ) (a s : Text) → Lacks sep a → split sep (a ++ sep ∷ s) ≡ a ∷ split sep s
unfolding split
split-part sep [] s h = ground arith
split-part sep (c ∷ a) s (hc, h) = ground (arith, split-part sep a s h)

pub split-nonempty : (sep : ℕ) (s : Text) → (x : Text) × (xs : List Text) × (split sep s ≡ x ∷ xs)
unfolding split
split-nonempty sep [] = ([], [], refl)
split-nonempty sep (c ∷ s) =
    let (x, xs, e) = split-nonempty sep s in
    elim (Bool-cases (c == sep)) [
      | inl h ↦ ([], split sep s, rw h refl)
      | inr h ↦ (c ∷ x, xs, rw (h, e) refl)
    ]

pub split-append : (sep : ℕ) (a s : Text) → split sep (a ++ sep ∷ s) ≡ split sep a ++ split sep s
unfolding split
split-append sep [] s = ground arith
split-append sep (c ∷ a) s =
    let (x, xs, e) = split-nonempty sep a in
    elim (Bool-cases (c == sep)) [
      | inl h ↦ rw (h, split-append sep a s) refl
      | inr h ↦ rw (h, split-append sep a s, e) refl
    ]
