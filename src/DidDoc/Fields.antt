-- ===== src/DidDoc/Fields.antt =====
-- Required and optional fields of a JSON object, in swiyu-core/src/diddoc/mod.rs.
use swiyu_rs.Prelude.{
  ◌≡◌, refl, Option, none, some, List, [], ◌∷◌, ◌++◌, map, Result, ok, err, ◌>>=◌, ok_or,
}
use swiyu_rs.Prelude.{traverse}
use swiyu_rs.Prelude.Text.{Text, text}
use mathlib.Core.Option
use swiyu_rs.Json.Interface.{Json, Shape}
use swiyu_rs.Json.Access.{as_str, as_array, string, array, as_str-string, as_array-array}
use swiyu_rs.DidDoc.Error.{DidDocError, missing_field, invalid_field_type}

-- `format!("'{key}' …")`
abbrev pub about : Text → Text → Text
about key problem = text "'" ++ key ++ text "' " ++ problem

module _ ⦃j : Json⦄ where
  open j use {Value, Map, get, shape}

  unfoldable pub required_string : Map → Text → Result DidDocError Text
  required_string obj key = do
    v ← ok_or (get obj key) (missing_field key)
    ok_or (as_str v) (invalid_field_type (about key (text "must be a string")))

  unfoldable pub optional_str : Text → Option Value → Result DidDocError (Option Text)
  optional_str key none = ok none
  optional_str key (some v) = do
    s ← ok_or (as_str v) (invalid_field_type (about key (text "must be a string")))
    ok (some s)

  abbrev pub optional_string : Map → Text → Result DidDocError (Option Text)
  optional_string obj key = optional_str key (get obj key)

  -- The closure that maps an element to its text.
  unfoldable pub element_text : Text → Value → Result DidDocError Text
  element_text key v =
      ok_or (as_str v) (invalid_field_type (about key (text "elements must be strings")))

  unfoldable pub optional_strs : Text → Option Value → Result DidDocError (Option (List Text))
  unfolding element_text
  optional_strs key none = ok none
  optional_strs key (some v) = do
    arr ← ok_or (as_array v) (invalid_field_type (about key (text "must be an array")))
    strings ← traverse (element_text key) arr
    ok (some strings)

  abbrev pub optional_string_array : Map → Text → Result DidDocError (Option (List Text))
  optional_string_array obj key = optional_strs key (get obj key)

  unfoldable pub string_or_strings : Text → Option Value → Result DidDocError (List Text)
  unfolding element_text
  string_or_strings key none = ok []
  string_or_strings key (some v) = elim (shape v) [
    | Shape.str s ↦ ok (s ∷ [])
    | Shape.arr l ↦ traverse (element_text key) l
    | _ ↦ err (invalid_field_type (about key (text "must be a string or array of strings")))
  ]

  abbrev pub string_or_array : Map → Text → Result DidDocError (List Text)
  string_or_array obj key = string_or_strings key (get obj key)

  -- `json!(l)` of a list of strings
  abbrev pub strings : List Text → Value
  strings l = array (map string l)

  -- `if values.len() == 1 { json!(values[0]) } else { json!(values) }`
  unfoldable pub string_or_array_value : List Text → Value
  string_or_array_value (s ∷ []) = string s
  string_or_array_value l = strings l

  -- `if !l.is_empty() { map.insert(key, f(l)) }`, as the value to insert
  abbrev pub unless_empty {ℓ} : {A : Type ℓ} → (List A → Value) → List A → Option Value
  unless_empty f [] = none
  unless_empty f (x ∷ xs) = some (f (x ∷ xs))

  pub traverse-element_text :
      (key : Text) (l : List Text) → traverse (element_text key) (map string l) ≡ ok l
  unfolding element_text traverse
  traverse-element_text key [] = refl
  traverse-element_text key (s ∷ l) = simp (as_str-string, traverse-element_text key l)

  pub optional_str-map :
      (key : Text) (o : Option Text) → optional_str key (Option.map string o) ≡ ok o
  unfolding optional_str
  optional_str-map key none = refl
  optional_str-map key (some s) = simp as_str-string

  pub optional_strs-map :
      (key : Text) (o : Option (List Text)) → optional_strs key (Option.map strings o) ≡ ok o
  unfolding optional_strs
  optional_strs-map key none = refl
  optional_strs-map key (some l) = simp (as_array-array, traverse-element_text)

  string_or_strings-string : (key s : Text) → string_or_strings key (some (string s)) ≡ ok (s ∷ [])
  unfolding string_or_strings
  string_or_strings-string key s = rw (j.shape-value, string_or_strings)

  string_or_strings-array :
      (key : Text) (l : List Text) → string_or_strings key (some (strings l)) ≡ ok l
  unfolding string_or_strings
  string_or_strings-array key l =
      rw (j.shape-value, string_or_strings) (traverse-element_text key l)

  pub string_or_strings-value :
      (key : Text) (l : List Text)
      → string_or_strings key (unless_empty string_or_array_value l) ≡ ok l
  unfolding string_or_array_value
  string_or_strings-value key [] = unfold string_or_strings in refl
  string_or_strings-value key (s ∷ []) = string_or_strings-string key s
  string_or_strings-value key (s ∷ t ∷ l) = string_or_strings-array key (s ∷ t ∷ l)

  pub string_or_strings-strings :
      (key : Text) (l : List Text) → string_or_strings key (unless_empty strings l) ≡ ok l
  string_or_strings-strings key [] = unfold string_or_strings in refl
  string_or_strings-strings key (s ∷ l) = string_or_strings-array key (s ∷ l)

pub ruleset doc_field_laws =
    (optional_str-map, optional_strs-map, string_or_strings-value, string_or_strings-strings)
