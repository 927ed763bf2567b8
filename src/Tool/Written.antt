-- ===== src/Tool/Written.antt =====
-- swiyu-didtool/src/cmd: `collect_raw_lines` of didlog.rs and `build_updated_log` of did/rotate.rs.
use swiyu_rs.Prelude.{Bool, false, List, [], ◌∷◌, ◌++◌, ◌==◌, if◌then◌else◌}
use swiyu_rs.Prelude.Text.{Text, is_empty}
use swiyu_rs.Prelude.Trim.{trim, lines}

-- The lines that are not blank
unfoldable pub not_blank : List Text → List Text
not_blank [] = []
not_blank (line ∷ ls) =
    let rest = not_blank ls in if is_empty (trim line) then rest else line ∷ rest

unfoldable pub collect_raw_lines : Text → List Text
unfolding not_blank
collect_raw_lines s = not_blank (lines s)

-- `ends_with('\n')`
unfoldable pub ends_with_newline : Text → Bool
ends_with_newline [] = false
ends_with_newline (c ∷ []) = c == 10
ends_with_newline (c ∷ d ∷ s) = ends_with_newline (d ∷ s)

unfoldable pub build_updated_log : List Text → Text → Text
unfolding ends_with_newline
build_updated_log [] new_line = if ends_with_newline new_line then new_line else new_line ++ 10 ∷ []
build_updated_log (line ∷ raw_lines) new_line = line ++ 10 ∷ build_updated_log raw_lines new_line
