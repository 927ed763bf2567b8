-- ===== src/Prelude/Text.antt =====
-- Text as a list of code points: Rust's `str`, and the methods of it that the program calls.
use Prim.Native.Char.{code}
use Prim.Native.String.{String}
use Prim.Native.Nat.{ℕ, zero, suc, ◌-◌}
use mathlib.Core.Path.{◌≡◌, refl, ap}
use mathlib.Core.Logic.{◌≢◌, ◌↔◌, inl, inr}
use mathlib.Core.Bool.{Bool, true, false, ◌&&◌}
use mathlib.Core.List.{List, [], ◌∷◌, ◌++◌}
use mathlib.Core.Option
use mathlib.Core.Option.{Option, none, some}
use native.Mathlib.Omega.{arith}
use swiyu_rs.Prelude.Tests.{◌==◌, if◌then◌else◌, Option-cases, Bool-cases}
use swiyu_rs.Prelude.Lists.{length, All}

abbrev pub Text : Type 0
Text = List ℕ

-- The code points of a literal.
abbrev pub text : String → Text
text String.[] = []
text (String.◌∷◌ c s) = code c ∷ text s

-- `a == b`
abbrev pub text_eq : Text → Text → Bool
text_eq [] [] = true
text_eq [] (d ∷ t) = false
text_eq (c ∷ s) [] = false
text_eq (c ∷ s) (d ∷ t) = (c == d) && text_eq s t

pub text_eq_sound : (s t : Text) → text_eq s t ≡ true → s ≡ t
text_eq_sound [] [] h = refl
text_eq_sound [] (d ∷ t) h = cc
text_eq_sound (c ∷ s) [] h = cc
text_eq_sound (c ∷ s) (d ∷ t) h = ground (arith, text_eq_sound s t)

pub text_eq_refl : (s : Text) → text_eq s s ≡ true
text_eq_refl [] = refl
text_eq_refl (c ∷ s) = ground (arith, text_eq_refl s)

pub text_eq_iff : (s t : Text) → (text_eq s t ≡ true) ↔ (s ≡ t)
text_eq_iff s t = (text_eq_sound s t, λ e. rw e (text_eq_refl t))

abbrev pub Lacks : ℕ → Text → Type 0
Lacks c = All (λ d. d ≢ c)

-- `strip_prefix`
unfoldable pub strip_prefix : Text → Text → Option Text
strip_prefix [] s = some s
strip_prefix (c ∷ p) [] = none
strip_prefix (c ∷ p) (d ∷ s) = if c == d then strip_prefix p s else none

-- `split_once`: what stands before and behind the first separator.
unfoldable pub split_once : ℕ → Text → Option (Text × Text)
split_once sep [] = none
split_once sep (c ∷ s) =
    if c == sep
    then some ([], s)
    else Option.map (λ (p : Text × Text). (c ∷ p.0, p.1)) (split_once sep s)

-- `splitn`: at most `n` parts, the last one whole.
unfoldable pub splitn : ℕ → ℕ → Text → List Text
splitn zero sep s = []
splitn (suc zero) sep s = s ∷ []
splitn (suc (suc n)) sep s = elim (split_once sep s) [
  | none ↦ s ∷ []
  | some (a, b) ↦ a ∷ splitn (suc n) sep b
]

abbrev pub push_head : ℕ → List Text → List Text
push_head c [] = (c ∷ []) ∷ []
push_head c (p ∷ ps) = (c ∷ p) ∷ ps

-- `split`
unfoldable pub split : ℕ → Text → List Text
split sep [] = [] ∷ []
split sep (c ∷ s) = let rest = split sep s in if c == sep then [] ∷ rest else push_head c rest

abbrev pub is_empty : Text → Bool
is_empty [] = true
is_empty (c ∷ s) = false

-- `replace` of a pattern that is not empty. The number counts the places of a match that are still
-- to be passed over.
unfoldable pub replace_from : Text → Text → ℕ → Text → Text
replace_from from to skip [] = []
replace_from from to (suc skip) (c ∷ s) = replace_from from to skip s
replace_from from to zero (c ∷ s) = elim (strip_prefix from (c ∷ s)) [
  | none ↦ c ∷ replace_from from to zero s
  | some _ ↦ to ++ replace_from from to (length from - 1) s
]

-- The empty pattern matches before each character and at the end.
interleave : Text → Text → Text
interleave to [] = to
interleave to (c ∷ s) = to ++ c ∷ interleave to s

unfoldable pub replace : Text → Text → Text → Text
unfolding replace_from strip_prefix interleave
replace s [] to = interleave to s
replace s (c ∷ from) to = replace_from (c ∷ from) to 0 s

pub strip_prefix-append : (p s : Text) → strip_prefix p (p ++ s) ≡ some s
unfolding strip_prefix
strip_prefix-append [] s = refl
strip_prefix-append (c ∷ p) s = ground (arith, strip_prefix-append p s)

pub strip_prefix_sound : (p s r : Text) → strip_prefix p s ≡ some r → s ≡ p ++ r
unfolding strip_prefix
strip_prefix_sound [] s r h = cc
strip_prefix_sound (c ∷ p) [] r h = cc
strip_prefix_sound (c ∷ p) (d ∷ s) r h = ground (arith, strip_prefix_sound p s r)

pub split_once-append :
    (sep : ℕ) (a b : Text) → Lacks sep a → split_once sep (a ++ sep ∷ b) ≡ some (a, b)
unfolding split_once
split_once-append sep [] b h = ground arith
split_once-append sep (c ∷ a) b (hc, h) = ground (arith, split_once-append sep a b h)

pub split_once_sound :
    (sep : ℕ) (s : Text) {p : Text × Text}
    → split_once sep s ≡ some p
    → (s ≡ p.0 ++ sep ∷ p.1) × Lacks sep p.0
unfolding split_once
split_once_sound sep [] h = absurd (cc)
split_once_sound sep (c ∷ s) {p} h = elim (Bool-cases (c == sep)) [
  | inl e ↦
      let q : ([], s) ≡ p = Option.some-injective _ _ (ground arith) in
      let same : c ≡ sep = ground arith in rw (← q, same) (refl, tt)
  | inr e ↦ elim (Option-cases (split_once sep s)) [
    | inl f ↦ absurd (ground arith)
    | inr (r, f) ↦
        let q : (c ∷ r.0, r.1) ≡ p = Option.some-injective _ _ (ground arith) in
        let (whole, lacks) = split_once_sound sep s f in
        rw (← q) (ap (λ t. c ∷ t) whole, (ground arith, lacks))
  ]
]

pub split_once-none : (sep : ℕ) (s : Text) → Lacks sep s → split_once sep s ≡ none
unfolding split_once
split_once-none sep [] h = refl
split_once-none sep (c ∷ s) (hc, h) = ground (arith, split_once-none sep s h)

pub Lacks-split_once : (sep : ℕ) (s : Text) → split_once sep s ≡ none → Lacks sep s
unfolding split_once
Lacks-split_once sep [] h = tt
Lacks-split_once sep (c ∷ s) h = elim (Bool-cases (c == sep)) [
  | inl e ↦ absurd (ground arith)
  | inr e ↦ elim (Option-cases (split_once sep s)) [
    | inl f ↦ (ground arith, Lacks-split_once sep s f)
    | inr (r, f) ↦ absurd (ground arith)
  ]
]
