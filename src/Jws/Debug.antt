-- ===== src/Jws/Debug.antt =====
-- `{:?}` of a text, as the messages of swiyu-core/src/jws.rs use it. Of the characters beyond Latin-1's
-- controls, all stand as they are, those too that Rust's tables call unprintable.
use swiyu_rs.Prelude.{ℕ, ◌+◌, ◌-◌, ◌/◌, ◌%◌, Bool, ◌&&◌, ◌||◌, [], ◌∷◌, ◌++◌, ◌==◌, if◌then◌else◌}
use swiyu_rs.Prelude.{leb, ltb}
use swiyu_rs.Prelude.Text.{Text, text}

abbrev hex_char : ℕ → ℕ
hex_char d = if ltb d 10 then d + b'0' else d - 10 + b'a'

-- The number of a control character, which has one or two hex digits
abbrev hex_number : ℕ → Text
hex_number c = if ltb c 16 then hex_char c ∷ [] else hex_char (c / 16) ∷ hex_char (c % 16) ∷ []

-- `char::is_control`
abbrev is_control : ℕ → Bool
is_control c = ltb c 32 || leb 127 c && ltb c 160

-- `char::escape_debug`, in a text, where an apostrophe stands as it is
unfoldable pub escaped : ℕ → Text
escaped c =
    if c == 0
    then text "\\0"
    else if c == 9
    then text "\\t"
    else if c == 10
    then text "\\n"
    else if c == 13
    then text "\\r"
    else if (c == 0x22) || (c == 0x5c)
    then 0x5c ∷ c ∷ []
    else if is_control c
    then text "\\u{" ++ hex_number c ++ text "}"
    else c ∷ []

unfoldable pub all_escaped : Text → Text
all_escaped [] = []
all_escaped (c ∷ s) = escaped c ++ all_escaped s

-- `Debug for str`
abbrev pub debug : Text → Text
debug s = b'"' ∷ all_escaped s ++ text "\""
