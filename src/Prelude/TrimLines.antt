-- ===== src/Prelude/TrimLines.antt =====
-- How `lines` and `trim` act on a line that is written with a newline behind it.
use swiyu_rs.Prelude.{ℕ, ◌≡◌, ◌≢◌, ◌&&◌, refl, List, [], ◌∷◌, ◌++◌, All, ◌==◌}
use swiyu_rs.Prelude.{if◌then◌else◌, Bool-cases, arith, inl, inr}
use swiyu_rs.Prelude.Text.{Text, Lacks}
use swiyu_rs.Prelude.Trim.{trim, trim_start, trim_end, lines, on_first_line, at_newline}

-- A line without the carriage return at its end
unfoldable pub strip_cr : Text → Text
strip_cr [] = []
strip_cr (c ∷ []) = if c == 13 then [] else c ∷ []
strip_cr (c ∷ d ∷ s) = c ∷ strip_cr (d ∷ s)

trim_end-strip_cr : (s : Text) → trim_end (strip_cr s) ≡ trim_end s
unfolding strip_cr trim_end
trim_end-strip_cr [] = refl
trim_end-strip_cr (c ∷ []) = ground arith
trim_end-strip_cr (c ∷ d ∷ s) = rw (trim_end-strip_cr (d ∷ s)) refl

-- What `trim` leaves of a line does not depend on a carriage return at its end.
pub trim-strip_cr : (s : Text) → trim (strip_cr s) ≡ trim s
unfolding trim trim_start strip_cr
trim-strip_cr [] = refl
trim-strip_cr (c ∷ []) = ground (arith, trim_end-strip_cr (c ∷ []))
trim-strip_cr (c ∷ d ∷ s) = ground (arith, trim-strip_cr (d ∷ s), trim_end-strip_cr (c ∷ d ∷ s))

pub lines-newline : (l r : Text) → Lacks 10 l → lines (l ++ 10 ∷ r) ≡ strip_cr l ∷ lines r
unfolding lines strip_cr
lines-newline [] r h = refl
lines-newline (c ∷ []) r (hc, h) = ground arith
lines-newline (c ∷ d ∷ l) r (hc, (hd, h)) = ground (arith, lines-newline (d ∷ l) r (hd, h))

Lacks-on_first_line :
    (c : ℕ) (ls : List Text) → c ≢ 10 → All (Lacks 10) ls → All (Lacks 10) (on_first_line c ls)
Lacks-on_first_line c [] h hs = ((h, tt), tt)
Lacks-on_first_line c (l ∷ ls) h (hl, hs) = ((h, hl), hs)

-- No line has a newline in it.
pub Lacks-lines : (s : Text) → All (Lacks 10) (lines s)
unfolding lines
Lacks-lines [] = tt
Lacks-lines (c ∷ s) = elim (Bool-cases (c == 10)) [
  | inl e ↦ rw e (tt, Lacks-lines s)
  | inr e ↦ elim (Bool-cases ((c == 13) && at_newline s)) [
    | inl f ↦ rw (e, f) (Lacks-lines s)
    | inr f ↦ rw (e, f) (Lacks-on_first_line c (lines s) (ground arith) (Lacks-lines s))
  ]
]
