-- ===== src/DidLog/Parameters.antt =====
-- `LogEntryFormat` and `LogParameters`, with their JSON.
use swiyu_rs.Prelude.{
  ap, ℕ, ◌≡◌, refl, Bool, true, false, Option, none, some, List, [], ◌∷◌, Result, ok, ◌>>=◌,
}
use swiyu_rs.Prelude.{ok_or}
use swiyu_rs.Prelude.Text.{Text, text}
use mathlib.Core.Option
use swiyu_rs.Json.Interface.{Json}
use swiyu_rs.Json.Access.{as_object, string, boolean, u64, object, insert_some, json_laws}
use swiyu_rs.DidLog.Error.{DidLogError, invalid_field_type}
use swiyu_rs.DidLog.Fields.{
  string_field, bool_field, u64_field, string_array_field, strings, field_laws,
}
use swiyu_rs.DidLog.Fields.{FitsU64, optional_u64-map}

pub data LogEntryFormat : Type 0 where
  tdw03 web_vh10 : LogEntryFormat

-- `V` is the type of JSON values.
pub record LogParameters (V : Type 0) : Type 0 where
  pub format : LogEntryFormat
  pub method : Option Text
  pub scid : Option Text
  pub update_keys : Option (List Text)
  pub prerotation : Option Bool
  pub next_key_hashes : Option (List Text)
  pub portable : Option Bool
  pub deactivated : Option Bool
  pub ttl : Option ℕ
  pub witness : Option V
  pub watchers : Option (List Text)

-- Parameters of which only the key list is set, and whether the identifier is deactivated.
abbrev pub only_keys : {V : Type 0} → LogEntryFormat → List Text → Option Bool → LogParameters V
only_keys format keys deactivated = record {
  format = format;
  method = none;
  scid = none;
  update_keys = some keys;
  prerotation = none;
  next_key_hashes = none;
  portable = none;
  deactivated = deactivated;
  ttl = none;
  witness = none;
  watchers = none;
}

-- `new_tdw_minimal` and `new_webvh_minimal`
unfoldable pub new_minimal :
    {V : Type 0} → LogEntryFormat → Text → Text → List Text → LogParameters V
new_minimal format method scid update_keys = record {
  format = format;
  method = some method;
  scid = some scid;
  update_keys = some update_keys;
  prerotation = none;
  next_key_hashes = none;
  portable = none;
  deactivated = none;
  ttl = none;
  witness = none;
  watchers = none;
}

-- `matches!(format, TDW03) && scid.is_some()`
abbrev is_tdw_genesis : LogEntryFormat → Option Text → Bool
is_tdw_genesis tdw03 (some s) = true
is_tdw_genesis tdw03 none = false
is_tdw_genesis web_vh10 s = false

-- The `portable` that is written: a did:tdw genesis entry says `false` where it is not set.
abbrev portable_out : Bool → Option Bool → Option Bool
portable_out genesis (some v) = some v
portable_out true none = some false
portable_out false none = none

abbrev watchers_out : LogEntryFormat → Option (List Text) → Option (List Text)
watchers_out tdw03 w = none
watchers_out web_vh10 w = w

-- What the JSON shows of `portable`: in a did:tdw entry with an SCID, a missing one is `false`.
abbrev shown_portable : LogEntryFormat → Option Text → Option Bool → Option Bool
shown_portable tdw03 (some scid) none = some false
shown_portable tdw03 (some scid) (some v) = some v
shown_portable tdw03 none v = v
shown_portable web_vh10 scid v = v

-- What the JSON shows of the watchers: did:tdw has none.
abbrev shown_watchers : LogEntryFormat → Option (List Text) → Option (List Text)
shown_watchers tdw03 w = none
shown_watchers web_vh10 w = w

portable_out-shown :
    (f : LogEntryFormat) (s : Option Text) (v : Option Bool)
    → portable_out (is_tdw_genesis f s) v ≡ shown_portable f s v
portable_out-shown tdw03 (some s) (some v) = refl
portable_out-shown tdw03 (some s) none = refl
portable_out-shown tdw03 none (some v) = refl
portable_out-shown tdw03 none none = refl
portable_out-shown web_vh10 s (some v) = refl
portable_out-shown web_vh10 s none = refl

pair_path :
    {a b : Option Bool} {c d : Option (List Text)}
    → a ≡ b
    → c ≡ d
    → ◌≡◌ {A = Option Bool × Option (List Text)} (a, c) (b, d)
pair_path e f = cc

watchers_out-shown :
    (f : LogEntryFormat) (w : Option (List Text)) → watchers_out f w ≡ shown_watchers f w
watchers_out-shown tdw03 w = refl
watchers_out-shown web_vh10 w = refl

module _ ⦃j : Json⦄ where
  open j use {Value, Map, get, empty}

  abbrev watchers_in : LogEntryFormat → Map → Result DidLogError (Option (List Text))
  watchers_in tdw03 obj = ok none
  watchers_in web_vh10 obj = string_array_field obj (text "watchers")

  unfoldable pub parameters_try_from :
      Value → LogEntryFormat → Result DidLogError (LogParameters Value)
  parameters_try_from v format = do
    obj ← ok_or (as_object v) (invalid_field_type (text "parameters must be a JSON object"))
    method ← string_field obj (text "method")
    scid ← string_field obj (text "scid")
    update_keys ← string_array_field obj (text "updateKeys")
    prerotation ← bool_field obj (text "prerotation")
    next_key_hashes ← string_array_field obj (text "nextKeyHashes")
    portable ← bool_field obj (text "portable")
    deactivated ← bool_field obj (text "deactivated")
    ttl ← u64_field obj (text "ttl")
    let witness = get obj (text "witness")
    watchers ← watchers_in format obj
    ok (record {
      format = format;
      method = method;
      scid = scid;
      update_keys = update_keys;
      prerotation = prerotation;
      next_key_hashes = next_key_hashes;
      portable = portable;
      deactivated = deactivated;
      ttl = ttl;
      witness = witness;
      watchers = watchers;
    })

  -- The inserts of `to_json`, in their order.
  abbrev insert_fields : List (Text × Option Value) → Map → Map
  insert_fields [] m = m
  insert_fields ((k, o) ∷ rest) m = insert_fields rest (insert_some m k o)

  unfoldable pub parameters_to_value : LogParameters Value → Value
  parameters_to_value p =
      let portable = portable_out (is_tdw_genesis p.format p.scid) p.portable in
      let watchers = watchers_out p.format p.watchers in
      object (
        insert_fields
          ((text "method", Option.map string p.method)
            ∷ (text "scid", Option.map string p.scid)
            ∷ (text "updateKeys", Option.map strings p.update_keys)
            ∷ (text "prerotation", Option.map boolean p.prerotation)
            ∷ (text "nextKeyHashes", Option.map strings p.next_key_hashes)
            ∷ (text "portable", Option.map boolean portable)
            ∷ (text "deactivated", Option.map boolean p.deactivated)
            ∷ (text "ttl", Option.map u64 p.ttl)
            ∷ (text "witness", p.witness)
            ∷ (text "watchers", Option.map strings watchers)
            ∷ [])
          empty)

  -- The parameters as their JSON shows them: `portable` explicit in a did:tdw genesis entry, and
  -- watchers for did:webvh only.
  abbrev pub as_written : LogParameters Value → LogParameters Value
  as_written p = record p {
    portable = shown_portable p.format p.scid p.portable;
    watchers = shown_watchers p.format p.watchers;
  }

  watchers_round_trip :
      (format : LogEntryFormat) (w : Option (List Text)) (m : Map)
      → get m (text "watchers") ≡ Option.map strings (watchers_out format w)
      → watchers_in format m ≡ ok (watchers_out format w)
  watchers_round_trip tdw03 w m h = refl
  watchers_round_trip web_vh10 w m h = rw h (simp field_laws)

  written_form :
      (p : LogParameters Value)
      → record p {
        portable = portable_out (is_tdw_genesis p.format p.scid) p.portable;
        watchers = watchers_out p.format p.watchers;
      }
        ≡ as_written p
  written_form p =
      ap (λ (q : Option Bool × Option (List Text)). record p { portable = q.0; watchers = q.1 })
        (pair_path (portable_out-shown p.format p.scid p.portable)
          (watchers_out-shown p.format p.watchers))

  -- Parsing parameters that were written, in their own format, gives back what the JSON shows.
  pub parameters_try_from-to_value :
      (p : LogParameters Value)
      → FitsU64 p.ttl
      → parameters_try_from (parameters_to_value p) p.format ≡ ok (as_written p)
  unfolding parameters_try_from parameters_to_value
  parameters_try_from-to_value p h =
      simp
        (
          json_laws,
          field_laws,
          optional_u64-map (text "ttl") p.ttl h,
          watchers_round_trip p.format p.watchers,
        )
        (ap ok (written_form p))
