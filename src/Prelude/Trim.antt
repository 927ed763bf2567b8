-- ===== src/Prelude/Trim.antt =====
-- `str::trim` and `str::lines`.
use swiyu_rs.Prelude.Tests.{leb, ◌==◌, if◌then◌else◌}
use swiyu_rs.Prelude.Text.{Text, is_empty}
use Prim.Native.Nat.{ℕ}
use mathlib.Core.Bool.{Bool, false, ◌&&◌, ◌||◌}
use mathlib.Core.List.{List, [], ◌∷◌}

-- White space behind ASCII, in Unicode's sense
abbrev is_wide_space : ℕ → Bool
is_wide_space c =
    (c == 0x85)
    || (c == 0xa0)
    || (c == 0x1680)
    || (leb 0x2000 c && leb c 0x200a)
    || (c == 0x2028)
    || (c == 0x2029)
    || (c == 0x202f)
    || (c == 0x205f)
    || (c == 0x3000)

-- `char::is_whitespace`
abbrev is_space : ℕ → Bool
is_space c = (c == b' ') || (leb 9 c && leb c 13) || is_wide_space c

unfoldable pub trim_start : Text → Text
trim_start [] = []
trim_start (c ∷ s) = let rest = trim_start s in if is_space c then rest else c ∷ s

unfoldable pub trim_end : Text → Text
trim_end [] = []
trim_end (c ∷ s) = let rest = trim_end s in if is_empty rest && is_space c then [] else c ∷ rest

-- `str::trim`
unfoldable pub trim : Text → Text
unfolding trim_start trim_end
trim s = trim_end (trim_start s)

-- A character before the first of the lines
abbrev pub on_first_line : ℕ → List Text → List Text
on_first_line c [] = (c ∷ []) ∷ []
on_first_line c (l ∷ ls) = (c ∷ l) ∷ ls

abbrev pub at_newline : Text → Bool
at_newline [] = false
at_newline (c ∷ s) = c == 10

-- `str::lines`: a carriage return goes with the newline behind it.
unfoldable pub lines : Text → List Text
lines [] = []
lines (c ∷ s) =
    let rest = lines s in
    let crlf = (c == 13) && at_newline s in
    if c == 10 then [] ∷ rest else if crlf then rest else on_first_line c rest
