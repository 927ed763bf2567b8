-- ===== src/SdJwt/Runs.antt =====
-- The theorem at a concrete statement.
use swiyu_rs.Prelude.{
  ℕ, ◌≡◌, refl, true, none, some, List, [], ◌∷◌, Result, ok, replicate, if◌then◌else◌,
}
use swiyu_rs.Prelude.Text.{Text, text, text_eq, split}
use swiyu_rs.Json.Access.{
  string, u64, boolean, array, json_object, as_str, as_u64, as_bool, as_array, as_object,
}
use swiyu_rs.Json.Plain.{Tree, Members, plain_json}
use swiyu_rs.Vendor.Plain.{plain_base64}
use swiyu_rs.Vendor.Samples.{sample_sha256}
use swiyu_rs.DidLog.Proof.{contains_key}
use swiyu_rs.SdJwt.Disclosure.{disclosure_from_text, disclosure_digest}
use swiyu_rs.SdJwt.Statement.{
  TrustStatement, try_from_jwt, trim_tildes, decode_segment, read_disclosures, sd_set, texts_of,
  add_disclosure,
}
use swiyu_rs.SdJwt.Authorised.{StatementHolds, try_from_jwt_sound}

abbrev members : Members → List (Text × Tree)
members Members.done = []
members (Members.entry k t ms) = (k, t) ∷ members ms

abbrev header : Tree
header = json_object ((text "kid", string (text "k")) ∷ (text "alg", string (text "ES256")) ∷ [])

-- It commits to the disclosure `d`.
abbrev payload : Tree
payload =
    json_object ((text "iat", u64 7) ∷ (text "_sd", array (string (replicate 32 b'd') ∷ [])) ∷ [])

abbrev state_actor : Tree
state_actor = array (string (text "salt") ∷ string (text "isStateActor") ∷ boolean true ∷ [])

-- JSON as one letter
abbrev read : List ℕ → Result Text Tree
read bytes =
    if text_eq bytes (text "h")
    then ok header
    else if text_eq bytes (text "p")
    then ok payload
    else ok state_actor

abbrev statement : TrustStatement
statement = record {
  vct = text "(unknown)";
  iss = text "(unknown)";
  iat = 7;
  nbf = none;
  exp = none;
  disclosed = record { entity_name = []; is_state_actor = some true };
  status = none;
  kid = text "k";
  alg = text "ES256";
  signing_input = text "h.p";
  signature = text "s";
}

-- A second disclosure, to which the payload does not commit, shows nothing.
try_from_jwt-statement : try_from_jwt members read (text "h.p.s~d~x~") ≡ ok statement
unfolding try_from_jwt trim_tildes decode_segment read_disclosures sd_set texts_of add_disclosure
    disclosure_from_text disclosure_digest contains_key split as_str as_u64 as_bool as_array
    as_object
try_from_jwt-statement = refl

try_from_jwt_sound_example : StatementHolds members read (text "h.p.s~d~x~") statement
try_from_jwt_sound_example =
    try_from_jwt_sound members read (text "h.p.s~d~x~") statement try_from_jwt-statement
