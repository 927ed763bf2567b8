-- ===== src/DidLog/Entry.antt =====
-- `DIDDocState` and `DIDLogEntry`, with their JSON in both wire formats.
use swiyu_rs.Prelude.{◌≡◌, Option, none, some, List, [], ◌∷◌, ◌++◌, Result, ok, err, ◌>>=◌}
use swiyu_rs.Prelude.{ok_or, length}
use swiyu_rs.Prelude.Text.{Text, text}
use swiyu_rs.Prelude.Decimal.{decimal}
use swiyu_rs.Json.Interface.{Json}
use swiyu_rs.Json.Access.{as_str, as_array, as_object, string, array, json_object, json_laws}
use swiyu_rs.DidLog.Error.{DidLogError, invalid_format, missing_field, invalid_field_type}
use swiyu_rs.DidLog.Fields.{string_field}
use swiyu_rs.DidLog.Parameters.{LogEntryFormat, tdw03, web_vh10, LogParameters, parameters_try_from}
use swiyu_rs.DidLog.Parameters.{parameters_to_value}

pub data DidDocState (V : Type 0) : Type 0 where
  full patch : V → DidDocState V

pub record DidLogEntry (V : Type 0) : Type 0 where
  pub format : LogEntryFormat
  pub version_id : Text
  pub version_time : Text
  pub parameters : LogParameters V
  pub did_doc_state : DidDocState V
  pub data_integrity_proofs : List V

-- `new_tdw` and `new_webvh`
unfoldable pub new_entry :
    {V : Type 0}
    → LogEntryFormat
    → Text
    → Text
    → LogParameters V
    → DidDocState V
    → List V
    → DidLogEntry V
new_entry format version_id version_time parameters state proofs = record {
  format = format;
  version_id = version_id;
  version_time = version_time;
  parameters = parameters;
  did_doc_state = state;
  data_integrity_proofs = proofs;
}

module _ ⦃j : Json⦄ where
  open j use {Value, Map, get, empty}

  -- `if let Some(value) … else if let Some(patch) …`
  abbrev state_of : Option Value → Option Value → Result DidLogError (DidDocState Value)
  state_of (some v) p = ok (full v)
  state_of none (some p) = ok (patch p)
  state_of none none = err (invalid_format (text "DIDDocState must contain 'value' or 'patch'"))

  unfoldable pub state_try_from : Value → Result DidLogError (DidDocState Value)
  state_try_from v = do
    obj ← ok_or (as_object v) (invalid_field_type (text "DIDDocState must be a JSON object"))
    state_of (get obj (text "value")) (get obj (text "patch"))

  unfoldable pub state_to_value : DidDocState Value → Value
  state_to_value (full v) = json_object ((text "value", v) ∷ [])
  state_to_value (patch p) = json_object ((text "patch", p) ∷ [])

  pub state_try_from-to_value : (s : DidDocState Value) → state_try_from (state_to_value s) ≡ ok s
  unfolding state_try_from state_to_value
  state_try_from-to_value (full v) = simp json_laws
  state_try_from-to_value (patch p) = simp json_laws

  -- `try_from_json_array`
  unfoldable pub entry_try_from_array : List Value → Result DidLogError (DidLogEntry Value)
  entry_try_from_array (id ∷ time ∷ params ∷ state ∷ proofs ∷ []) = do
    version_id ← ok_or (as_str id) (invalid_field_type (text "versionId must be a string"))
    version_time ← ok_or (as_str time) (invalid_field_type (text "versionTime must be a string"))
    parameters ← parameters_try_from params tdw03
    did_doc_state ← state_try_from state
    list ←
        ok_or (as_array proofs)
          (invalid_field_type (text "DataIntegrityProof must be a JSON array"))
    ok (record {
      format = tdw03;
      version_id = version_id;
      version_time = version_time;
      parameters = parameters;
      did_doc_state = did_doc_state;
      data_integrity_proofs = list;
    })
  entry_try_from_array arr = err (
      invalid_format
        (text "v0.3 log entry must have exactly 5 elements, got " ++ decimal (length arr)))

  -- `try_from_json_object`
  unfoldable pub entry_try_from_object : Map → Result DidLogError (DidLogEntry Value)
  entry_try_from_object obj = do
    id ← string_field obj (text "versionId")
    version_id ← ok_or id (missing_field (text "versionId"))
    time ← string_field obj (text "versionTime")
    version_time ← ok_or time (missing_field (text "versionTime"))
    params ← ok_or (get obj (text "parameters")) (missing_field (text "parameters"))
    parameters ← parameters_try_from params web_vh10
    state ← ok_or (get obj (text "state")) (missing_field (text "state"))
    did_doc_state ← state_try_from state
    proof ← ok_or (get obj (text "proof")) (missing_field (text "proof"))
    list ← ok_or (as_array proof) (invalid_field_type (text "proof must be a JSON array"))
    ok (record {
      format = web_vh10;
      version_id = version_id;
      version_time = version_time;
      parameters = parameters;
      did_doc_state = did_doc_state;
      data_integrity_proofs = list;
    })

  -- `if v.is_array() … else if v.is_object() …`
  abbrev entry_of : Option (List Value) → Option Map → Result DidLogError (DidLogEntry Value)
  entry_of (some arr) m = entry_try_from_array arr
  entry_of none (some obj) = entry_try_from_object obj
  entry_of none none =
      err (invalid_format (text "log entry must be a JSON array (v0.3) or object (v1.0)"))

  unfoldable pub entry_try_from : Value → Result DidLogError (DidLogEntry Value)
  entry_try_from v = entry_of (as_array v) (as_object v)

  -- `From<DIDLogEntry> for Value`, of the fields of an entry
  unfoldable pub fields_to_value :
      LogEntryFormat → Text → Text → LogParameters Value → DidDocState Value → List Value → Value
  fields_to_value tdw03 id time params state proofs = array (
      string id
      ∷ string time
      ∷ parameters_to_value params
      ∷ state_to_value state
      ∷ array proofs
      ∷ [])
  fields_to_value web_vh10 id time params state proofs = json_object (
      (text "versionId", string id)
      ∷ (text "versionTime", string time)
      ∷ (text "parameters", parameters_to_value params)
      ∷ (text "state", state_to_value state)
      ∷ (text "proof", array proofs)
      ∷ [])

  unfoldable pub entry_to_value : DidLogEntry Value → Value
  unfolding fields_to_value
  entry_to_value e =
      fields_to_value e.format e.version_id e.version_time e.parameters e.did_doc_state
        e.data_integrity_proofs
