-- ===== src/StatusList/Pointer.antt =====
-- `StatusListPointer`: where a credential's status is to be found.
use swiyu_rs.Prelude.{ℕ, ◌≡◌, [], ◌∷◌, Result, ok, ◌>>=◌, ok_or}
use swiyu_rs.Prelude.Text.{Text, text}
use swiyu_rs.Prelude.Bytes.{IsU64}
use swiyu_rs.Json.Interface.{Json}
use swiyu_rs.Json.Access.{
  as_str, as_u64, as_object, string, u64, json_object, json_laws, as_u64-u64,
}
use swiyu_rs.StatusList.Error.{StatusListError, missing_field, invalid_field_type}

module _ ⦃j : Json⦄ where
  open j use {Value, Map, get}

  -- `obj.get(name).ok_or(MissingField(name))?.as_str().ok_or(InvalidFieldType(name))?`
  abbrev pub required_str : Map → Text → Result StatusListError Text
  required_str obj name = do
    v ← ok_or (get obj name) (missing_field name)
    ok_or (as_str v) (invalid_field_type name)

  abbrev pub required_u64 : Map → Text → Result StatusListError ℕ
  required_u64 obj name = do
    v ← ok_or (get obj name) (missing_field name)
    ok_or (as_u64 v) (invalid_field_type name)

pub record StatusListPointer : Type 0 where
  pub type_ : Text
  pub idx : ℕ
  pub uri : Text

module _ ⦃j : Json⦄ where
  open j use {Value, Map, get}

  unfoldable pub pointer_try_from : Value → Result StatusListError StatusListPointer
  pointer_try_from v = do
    obj ← ok_or (as_object v) (invalid_field_type (text "status_list"))
    type_ ← required_str obj (text "type")
    idx ← required_u64 obj (text "idx")
    uri ← required_str obj (text "uri")
    ok (record { type_ = type_; idx = idx; uri = uri })

  unfoldable pub pointer_to_value : StatusListPointer → Value
  pointer_to_value p =
      json_object
        ((text "type", string p.type_) ∷ (text "idx", u64 p.idx) ∷ (text "uri", string p.uri) ∷ [])

  -- Parsing a pointer that was written gives it back, for every index that is a `u64`.
  pub pointer_try_from-to_value :
      (p : StatusListPointer) → IsU64 p.idx → pointer_try_from (pointer_to_value p) ≡ ok p
  unfolding pointer_try_from pointer_to_value
  pointer_try_from-to_value p h = simp (json_laws, as_u64-u64 p.idx h)
