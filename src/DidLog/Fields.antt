-- ===== src/DidLog/Fields.antt =====
-- Optional typed fields of a JSON object.
use swiyu_rs.Prelude.{
  ℕ, ◌≡◌, refl, Bool, Option, none, some, List, [], ◌∷◌, ◌++◌, map, Result, ok, ◌>>=◌,
}
use swiyu_rs.Prelude.{ok_or}
use swiyu_rs.Prelude.Text.{Text, text}
use swiyu_rs.Prelude.Bytes.{IsU64}
use mathlib.Core.Option
use swiyu_rs.Json.Interface.{Json}
use swiyu_rs.Json.Access.{as_str, as_bool, as_u64, as_array, string, boolean, u64, array}
use swiyu_rs.Json.Access.{as_str-string, as_bool-boolean, as_u64-u64, as_array-array}
use swiyu_rs.DidLog.Error.{DidLogError, invalid_field_type}

-- `format!("'{key}' …")`
abbrev pub about : Text → Text → Text
about key problem = text "'" ++ key ++ text "' " ++ problem

module _ ⦃j : Json⦄ where
  open j use {Value, Map, get}

  unfoldable pub optional_string : Text → Option Value → Result DidLogError (Option Text)
  optional_string key none = ok none
  optional_string key (some v) = do
    s ← ok_or (as_str v) (invalid_field_type (about key (text "must be a string")))
    ok (some s)

  unfoldable pub optional_bool : Text → Option Value → Result DidLogError (Option Bool)
  optional_bool key none = ok none
  optional_bool key (some v) = do
    b ← ok_or (as_bool v) (invalid_field_type (about key (text "must be a boolean")))
    ok (some b)

  unfoldable pub optional_u64 : Text → Option Value → Result DidLogError (Option ℕ)
  optional_u64 key none = ok none
  optional_u64 key (some v) = do
    n ← ok_or (as_u64 v) (invalid_field_type (about key (text "must be a number")))
    ok (some n)

  -- `arr.iter().map(…).collect()`: the first element that is no string is the error.
  unfoldable pub strings_of : Text → List Value → Result DidLogError (List Text)
  strings_of key [] = ok []
  strings_of key (v ∷ vs) = do
    s ← ok_or (as_str v) (invalid_field_type (about key (text "elements must be strings")))
    rest ← strings_of key vs
    ok (s ∷ rest)

  unfoldable pub optional_strings : Text → Option Value → Result DidLogError (Option (List Text))
  unfolding strings_of
  optional_strings key none = ok none
  optional_strings key (some v) = do
    arr ← ok_or (as_array v) (invalid_field_type (about key (text "must be an array")))
    strings ← strings_of key arr
    ok (some strings)

  abbrev pub string_field : Map → Text → Result DidLogError (Option Text)
  string_field obj key = optional_string key (get obj key)

  abbrev pub bool_field : Map → Text → Result DidLogError (Option Bool)
  bool_field obj key = optional_bool key (get obj key)

  abbrev pub u64_field : Map → Text → Result DidLogError (Option ℕ)
  u64_field obj key = optional_u64 key (get obj key)

  abbrev pub string_array_field : Map → Text → Result DidLogError (Option (List Text))
  string_array_field obj key = optional_strings key (get obj key)

  -- `json!(v)` of a list of strings
  abbrev pub strings : List Text → Value
  strings l = array (map string l)

  strings_of-map : (key : Text) (l : List Text) → strings_of key (map string l) ≡ ok l
  unfolding strings_of
  strings_of-map key [] = refl
  strings_of-map key (s ∷ l) = simp (as_str-string, strings_of-map key l)

  -- What was written for an optional field is read back.
  pub optional_string-map :
      (key : Text) (o : Option Text) → optional_string key (Option.map string o) ≡ ok o
  unfolding optional_string
  optional_string-map key none = refl
  optional_string-map key (some s) = simp as_str-string

  pub optional_bool-map :
      (key : Text) (o : Option Bool) → optional_bool key (Option.map boolean o) ≡ ok o
  unfolding optional_bool
  optional_bool-map key none = refl
  optional_bool-map key (some b) = simp as_bool-boolean

  abbrev pub FitsU64 : Option ℕ → Type 0
  FitsU64 none = Unit
  FitsU64 (some n) = IsU64 n

  pub optional_u64-map :
      (key : Text) (o : Option ℕ) → FitsU64 o → optional_u64 key (Option.map u64 o) ≡ ok o
  unfolding optional_u64
  optional_u64-map key none h = refl
  optional_u64-map key (some n) h = simp (as_u64-u64 n h)

  pub optional_strings-map :
      (key : Text) (o : Option (List Text)) → optional_strings key (Option.map strings o) ≡ ok o
  unfolding optional_strings
  optional_strings-map key none = refl
  optional_strings-map key (some l) = simp (as_array-array, strings_of-map)

pub ruleset field_laws = (optional_string-map, optional_bool-map, optional_strings-map)
