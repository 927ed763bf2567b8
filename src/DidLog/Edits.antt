-- ===== src/DidLog/Edits.antt =====
-- swiyu-core/src/didlog/entry_edits.rs: edits of a serialised entry, each giving the edited value.
use swiyu_rs.Prelude.{Option, none, some, List, [], ◌∷◌, ◌++◌}
use swiyu_rs.Prelude.Text.{Text, text}
use swiyu_rs.Json.Interface.{Json}
use swiyu_rs.Json.Access.{as_array, as_object, string, array, object}
use swiyu_rs.DidLog.Parameters.{LogEntryFormat, tdw03, web_vh10}

-- `Vec::pop`, on what is kept
unfoldable pub pop {ℓ} : {A : Type ℓ} → List A → List A
pop [] = []
pop (x ∷ []) = []
pop (x ∷ y ∷ xs) = x ∷ pop (y ∷ xs)

-- `if let Some(slot) = arr.first_mut() { *slot = v }`
unfoldable pub set_first {ℓ} : {A : Type ℓ} → List A → A → List A
set_first [] v = []
set_first (x ∷ xs) v = v ∷ xs

module _ ⦃j : Json⦄ where
  open j use {Value, Map, insert, remove}

  -- `if let Some(arr) = entry.as_array_mut() { … }`
  abbrev edit_array : Value → Option (List Value) → (List Value → List Value) → Value
  edit_array entry none f = entry
  edit_array entry (some arr) f = array (f arr)

  -- `if let Some(obj) = entry.as_object_mut() { … }`
  abbrev edit_object : Value → Option Map → (Map → Map) → Value
  edit_object entry none f = entry
  edit_object entry (some obj) f = object (f obj)

  unfoldable pub strip_proof_slot : Value → LogEntryFormat → Value
  strip_proof_slot entry tdw03 = edit_array entry (as_array entry) pop
  strip_proof_slot entry web_vh10 =
      edit_object entry (as_object entry) (λ obj. remove obj (text "proof"))

  unfoldable pub set_version_id : Value → Text → LogEntryFormat → Value
  set_version_id entry version_id tdw03 =
      edit_array entry (as_array entry) (λ arr. set_first arr (string version_id))
  set_version_id entry version_id web_vh10 =
      edit_object entry (as_object entry) (λ obj. insert obj (text "versionId") (string version_id))

  unfoldable pub append_proof : Value → Value → LogEntryFormat → Value
  append_proof entry proof tdw03 =
      edit_array entry (as_array entry) (λ arr. arr ++ array (proof ∷ []) ∷ [])
  append_proof entry proof web_vh10 =
      edit_object entry (as_object entry) (λ obj. insert obj (text "proof") (array (proof ∷ [])))
