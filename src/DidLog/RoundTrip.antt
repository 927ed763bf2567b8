-- ===== src/DidLog/RoundTrip.antt =====
-- Entries of a log and their JSON.
use swiyu_rs.Prelude.{◌≡◌, some, List, [], ◌∷◌, ok}
use swiyu_rs.Prelude.Text.{Text, text}
use swiyu_rs.Json.Interface.{Json}
use swiyu_rs.Json.Access.{array, string, json_laws}
use swiyu_rs.DidLog.Fields.{FitsU64, optional_string-map}
use swiyu_rs.DidLog.Parameters.{LogEntryFormat, tdw03, web_vh10, LogParameters, as_written}
use swiyu_rs.DidLog.Parameters.{parameters_to_value, parameters_try_from-to_value}
use swiyu_rs.DidLog.Entry.{
  DidDocState, DidLogEntry, entry_try_from, entry_try_from_array, entry_to_value,
}
use swiyu_rs.DidLog.Entry.{
  entry_try_from_object, fields_to_value, state_to_value, state_try_from-to_value,
}

module _ ⦃j : Json⦄ where
  open j use {Value, Map, get}

  -- An entry of the given format whose parameters are those that JSON shows.
  abbrev pub entry_as_written :
      LogEntryFormat
      → Text
      → Text
      → LogParameters Value
      → DidDocState Value
      → List Value
      → DidLogEntry Value
  entry_as_written format id time params state proofs = record {
    format = format;
    version_id = id;
    version_time = time;
    parameters = as_written params;
    did_doc_state = state;
    data_integrity_proofs = proofs;
  }

  -- The members of an entry's array, and the fields of its object, parse to the entry.
  pub from_array :
      (id time : Text) (params : LogParameters Value) (state : DidDocState Value)
      (proofs : List Value)
      → params.format ≡ tdw03
      → FitsU64 params.ttl
      → entry_try_from_array (
          string id
          ∷ string time
          ∷ parameters_to_value params
          ∷ state_to_value state
          ∷ array proofs
          ∷ [])
        ≡ ok (entry_as_written tdw03 id time params state proofs)
  unfolding entry_try_from_array
  from_array id time params state proofs e h =
      simp (json_laws, state_try_from-to_value, ← e, parameters_try_from-to_value params h)

  pub from_object :
      (m : Map) (id time : Text) (params : LogParameters Value) (state : DidDocState Value)
      (proofs : List Value)
      → params.format ≡ web_vh10
      → FitsU64 params.ttl
      → get m (text "versionId") ≡ some (string id)
      → get m (text "versionTime") ≡ some (string time)
      → get m (text "parameters") ≡ some (parameters_to_value params)
      → get m (text "state") ≡ some (state_to_value state)
      → get m (text "proof") ≡ some (array proofs)
      → entry_try_from_object m ≡ ok (entry_as_written web_vh10 id time params state proofs)
  unfolding entry_try_from_object
  from_object m id time params state proofs e h h1 h2 h3 h4 h5 = simp (
    h1,
    h2,
    h3,
    h4,
    h5,
    optional_string-map (text "versionId") (some id),
    optional_string-map (text "versionTime") (some time),
    json_laws,
    state_try_from-to_value,
    ← e,
    parameters_try_from-to_value params h,
  )

  round_trip :
      (format : LogEntryFormat) (id time : Text) (params : LogParameters Value)
      (state : DidDocState Value) (proofs : List Value)
      → params.format ≡ format
      → FitsU64 params.ttl
      → entry_try_from (fields_to_value format id time params state proofs)
        ≡ ok (entry_as_written format id time params state proofs)
  unfolding entry_try_from fields_to_value
  round_trip tdw03 id time params state proofs e h =
      simp (json_laws) (from_array id time params state proofs e h)
  round_trip web_vh10 id time params state proofs e h = simp json_laws (
      from_object _ id time params state proofs e h (simp json_laws) (simp json_laws)
        (simp json_laws) (simp json_laws) (simp json_laws))

  -- Parsing an entry that was written gives it back in its own wire format, with the parameters that
  -- JSON shows, if its parameters are of that format and the cache time is a `u64`.
  pub entry_try_from-to_value :
      (e : DidLogEntry Value)
      → e.parameters.format ≡ e.format
      → FitsU64 e.parameters.ttl
      → entry_try_from (entry_to_value e) ≡ ok (record e { parameters = as_written e.parameters })
  unfolding entry_to_value
  entry_try_from-to_value e same h =
      round_trip e.format e.version_id e.version_time e.parameters e.did_doc_state
        e.data_integrity_proofs same h
