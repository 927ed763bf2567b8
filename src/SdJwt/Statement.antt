-- ===== src/SdJwt/Statement.antt =====
-- `TrustStatement` and its decoding from an SD-JWT VC.
use swiyu_rs.Prelude.{
  ℕ, Bool, Option, none, some, List, [], ◌∷◌, ◌++◌, Result, ok, err, ◌>>=◌, ok_or, map_err, map_ok,
  and_then, length, ◌==◌, ◌&&◌, if◌then◌else◌,
}
use mathlib.Core.Option
use swiyu_rs.Prelude.Text.{Text, text, text_eq, split, is_empty}
use swiyu_rs.Json.Interface.{Json}
use swiyu_rs.Json.Access.{as_str, as_u64, as_bool, as_array, as_object, member}
use swiyu_rs.Vendor.Encoding.{Base64}
use swiyu_rs.Vendor.Crypto.{Sha256}
use swiyu_rs.DidLog.Proof.{contains_key}
use swiyu_rs.KeyStore.Dir.{Dir, put}
use swiyu_rs.StatusList.Error.{StatusListError}
use swiyu_rs.StatusList.Pointer.{StatusListPointer, pointer_try_from}
use swiyu_rs.SdJwt.Disclosure.{
  Disclosure, DisclosureError, base64, json, not_array, salt_not_string, name_not_string,
  wrong_length, disclosure_from_text, disclosure_digest,
}

pub data StatementError : Type 0 where
  jwt_shape : (got : ℕ) → StatementError
  bad_base64 bad_json : (segment reason : Text) → StatementError
  disclosure_not_array : StatementError
  missing_header_field missing_payload_field : Text → StatementError
  status_list_pointer : StatusListError → StatementError

-- What the disclosures of a statement say: names by language, and the flag.
pub record Disclosed : Type 0 where
  pub entity_name : Dir Text
  pub is_state_actor : Option Bool

pub record TrustStatement : Type 0 where
  pub vct : Text
  pub iss : Text
  pub iat : ℕ
  pub nbf : Option ℕ
  pub exp : Option ℕ
  pub disclosed : Disclosed
  pub status : Option StatusListPointer
  pub kid : Text
  pub alg : Text
  pub signing_input : Text
  pub signature : List ℕ

-- `trim_end_matches('~')`
unfoldable pub trim_tildes : Text → Text
trim_tildes [] = []
trim_tildes (c ∷ s) =
    let rest = trim_tildes s in if is_empty rest && (c == b'~') then [] else c ∷ rest

abbrev pub three_segments : List Text → Result StatementError (Text × Text × Text)
three_segments (h ∷ p ∷ s ∷ []) = ok (h, p, s)
three_segments segs = err (jwt_shape (length segs))

-- `parts[0]` and `&parts[1..]`; `split` answers a part at least.
abbrev pub head_and_rest : List Text → Text × List Text
head_and_rest [] = ([], [])
head_and_rest (jwt ∷ disclosures) = (jwt, disclosures)

abbrev pub unwrap_text : Option Text → Text → Text
unwrap_text none other = other
unwrap_text (some s) other = s

-- `transpose`
abbrev transpose {ℓ κ} : {E : Type ℓ} {A : Type κ} → Option (Result E A) → Result E (Option A)
transpose none = ok none
transpose (some r) = map_ok some r

module _ ⦃j : Json⦄ where
  open j use {Value, Map}

  -- `filter_map(Value::as_str)`
  unfoldable pub texts_of : List Value → List Text
  texts_of [] = []
  texts_of (v ∷ vs) = elim (as_str v) [ some s ↦ s ∷ texts_of vs | none ↦ texts_of vs ]

  unfoldable pub sd_set : Value → List Text
  unfolding texts_of
  sd_set payload = elim (and_then (member payload (text "_sd")) as_array) [
    | some arr ↦ texts_of arr
    | none ↦ []
  ]

  abbrev pub with_name : Dir Text → Text → Option Text → Dir Text
  with_name names lang none = names
  with_name names lang (some s) = put names lang s

  -- The names of a disclosed object that are texts
  unfoldable pub insert_names : Dir Text → List (Text × Value) → Dir Text
  unfolding put
  insert_names names [] = names
  insert_names names ((lang, v) ∷ rest) = insert_names (with_name names lang (as_str v)) rest

  -- `members` lists a map, as its iterator does.
  abbrev pub with_names : (Map → List (Text × Value)) → Disclosed → Option Map → Disclosed
  with_names members r none = r
  with_names members r (some m) = record r { entity_name = insert_names r.entity_name (members m) }

  abbrev pub with_flag : Disclosed → Option Bool → Disclosed
  with_flag r none = r
  with_flag r (some b) = record r { is_state_actor = some b }

  unfoldable pub add_disclosure :
      (members : Map → List (Text × Value)) → Disclosure Value → Disclosed → Disclosed
  unfolding insert_names
  add_disclosure members d r =
      if text_eq d.name (text "entityName")
      then with_names members r (as_object d.value)
      else if text_eq d.name (text "isStateActor")
      then with_flag r (as_bool d.value)
      else r

  -- The status-list pointer of a payload, if it has one
  abbrev pub status_of : Value → Result StatementError (Option StatusListPointer)
  status_of payload =
      let pointer =
        and_then (member payload (text "status")) (λ v. member v (text "status_list")) in
      map_err status_list_pointer (transpose (Option.map pointer_try_from pointer))

-- What a disclosure that does not parse does: it ends the decoding, or it is passed over.
abbrev pub unparsed : Disclosed → DisclosureError → Result StatementError Disclosed
unparsed r (base64 reason) = err (bad_base64 (text "disclosure") reason)
unparsed r (json reason) = err (bad_json (text "disclosure") reason)
unparsed r not_array = err disclosure_not_array
unparsed r (wrong_length got) = ok r
unparsed r salt_not_string = ok r
unparsed r name_not_string = ok r

module _ ⦃j : Json⦄ ⦃e : Base64⦄ ⦃s : Sha256⦄ (members : j.Map → List (Text × j.Value))
    (from_slice : List ℕ → Result Text j.Value) where
  open j use {Value}

  -- One disclosure; only those whose digest the payload lists count.
  abbrev pub read_disclosure :
      List Text
      → Disclosed
      → Result DisclosureError (Disclosure Value)
      → Result StatementError Disclosed
  read_disclosure set r (err e) = unparsed r e
  read_disclosure set r (ok d) =
      if contains_key set (disclosure_digest d) then ok (add_disclosure members d r) else ok r

  unfoldable pub read_disclosures :
      List Text → Disclosed → List Text → Result StatementError Disclosed
  unfolding disclosure_from_text
  read_disclosures set r [] = ok r
  read_disclosures set r (d ∷ ds) = do
    next ← read_disclosure set r (disclosure_from_text from_slice d)
    read_disclosures set next ds

  unfoldable pub decode_segment : Text → Text → Result StatementError Value
  decode_segment segment part = do
    bytes ← map_err (bad_base64 segment) (e.decode part)
    map_err (bad_json segment) (from_slice bytes)

  unfoldable pub try_from_jwt : Text → Result StatementError TrustStatement
  unfolding trim_tildes decode_segment read_disclosures sd_set
  try_from_jwt jwt_text = do
    let (jwt, disclosures) = head_and_rest (split b'~' (trim_tildes jwt_text))
    (h, p, s) ← three_segments (split b'.' jwt)
    header ← decode_segment (text "header") h
    payload ← decode_segment (text "payload") p
    signature ← map_err (bad_base64 (text "signature")) (e.decode s)
    kid ← ok_or (and_then (member header (text "kid")) as_str) (missing_header_field (text "kid"))
    alg ← ok_or (and_then (member header (text "alg")) as_str) (missing_header_field (text "alg"))
    disclosed ←
        read_disclosures (sd_set payload) (record { entity_name = []; is_state_actor = none })
          disclosures
    let vct = unwrap_text (and_then (member payload (text "vct")) as_str) (text "(unknown)")
    let iss = unwrap_text (and_then (member payload (text "iss")) as_str) (text "(unknown)")
    iat ← ok_or (and_then (member payload (text "iat")) as_u64) (missing_payload_field (text "iat"))
    let nbf = and_then (member payload (text "nbf")) as_u64
    let exp = and_then (member payload (text "exp")) as_u64
    status ← status_of payload
    ok (record {
      vct = vct;
      iss = iss;
      iat = iat;
      nbf = nbf;
      exp = exp;
      disclosed = disclosed;
      status = status;
      kid = kid;
      alg = alg;
      signing_input = h ++ b'.' ∷ p;
      signature = signature;
    })
