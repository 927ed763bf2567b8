-- ===== src/Trust/Runs.antt =====
-- The theorems at a statement in the name of one DID that is signed with the key of another.
use swiyu_rs.Prelude.{
  ℕ, ◌≡◌, ◌↔◌, refl, true, none, some, List, [], ◌∷◌, ◌++◌, Result, ok, arith, if◌then◌else◌,
}
use swiyu_rs.Prelude.Text.{Text, text, text_eq, split, split_once}
use swiyu_rs.Prelude.Trim.{trim, trim_start, trim_end, lines}
use swiyu_rs.Json.Access.{string, u64, json_object, as_str, as_u64, as_array, as_object}
use swiyu_rs.Json.Plain.{Tree, Members, plain_json}
use swiyu_rs.Vendor.Plain.{plain_base64, plain_zlib}
use swiyu_rs.Vendor.Crypto.{JsonText}
use swiyu_rs.Vendor.Web.{Response, Web, Dates}
use swiyu_rs.Vendor.Samples.{
  sample_base58, sample_sha256, sample_ed25519, sample_p256, sample_signature, leaves,
}
use swiyu_rs.DidDoc.Jwk.{ec, from_p256_coordinates}
use swiyu_rs.DidDoc.Document.{DidDoc, new, jwk}
use swiyu_rs.DidDoc.Doc.{doc_to_value, doc_try_from, DocIsBytes, doc_try_from-to_value}
use swiyu_rs.DidLog.Parameters.{tdw03, only_keys}
use swiyu_rs.DidLog.Entry.{full, DidLogEntry, entry_to_value, entry_try_from}
use swiyu_rs.DidLog.RoundTrip.{entry_try_from-to_value}
use swiyu_rs.StatusList.Pointer.{pointer_try_from}
use swiyu_rs.SdJwt.Statement.{
  TrustStatement, try_from_jwt, trim_tildes, decode_segment, read_disclosures, sd_set, texts_of,
}
use swiyu_rs.Did.Parse.{from_text, from_parts}
use swiyu_rs.Did.Url.{log_url}
use swiyu_rs.Did.Identifier.{is_valid_domain, is_valid_path}
use swiyu_rs.Prelude.Text.{strip_prefix, replace, replace_from}
use swiyu_rs.Tool.Http.{max_bytes, read_body, fetch_text}
use swiyu_rs.Tool.Update.{last}
use swiyu_rs.Trust.Issuer.{fetch_issuer_doc, load_issuer_doc, find_verifying_key}
use swiyu_rs.Prelude.Text.{text_eq_refl}
use swiyu_rs.KeyStore.Dir.{find, put}
use swiyu_rs.StatusList.Bitstring.{value_at, read_field}
use swiyu_rs.StatusList.Wire.{list_try_from}
use swiyu_rs.Jws.Verify.{
  VerifyingKey, ecdsa_p256, key_try_from, p256_of_key, p256_try_from, alg_of, key_verify,
  signature_verifies,
}
use swiyu_rs.Tool.PopVerify.{method_named}
use swiyu_rs.Trust.Error.{VerifyContext, passed}
use swiyu_rs.Trust.StatusLists.{segment_json, parse_and_verify_status_list, load_status_list}
use swiyu_rs.Prelude.Decimal.{decimal}
use swiyu_rs.StatusList.Slot.{from_raw}
use swiyu_rs.Trust.Error.{Report, ok_check}
use swiyu_rs.Trust.Verify.{
  report_of, check_freshness, verify_signature, check_status, verify_one, verify_all,
}
use swiyu_rs.Trust.Command.{
  trusted, new_context, decode_all, newest_first, insert_by_iat, trusted_count, verify_statements,
}
use swiyu_rs.Trust.Lists.{ContextHolds}
use swiyu_rs.Trust.Trusted.{StatementTrusted}
use swiyu_rs.Trust.Verdict.{StatementFrom, verify_statements_sound}
use swiyu_rs.Trust.Complete.{verify_one_iff}
use swiyu_rs.DidLog.Jsonl.{read_line, read_lines, try_from_jsonl}

-- The DIDs, and the texts of their kids
abbrev expected : Text
expected = text "did:tdw:Qi:e.org"

abbrev other : Text
other = text "did:tdw:Qo:o.org"

abbrev kid_of : Text → Text
kid_of did = did ++ text "#k"

abbrev document : Text → DidDoc Tree
document did = record (new did) {
  verification_method =
      record {
        id = kid_of did;
        type_ = text "JsonWebKey2020";
        controller = did;
        public_key = jwk (ec (from_p256_coordinates (1 ∷ []) (2 ∷ [])));
      }
      ∷ [];
}

document-DocIsBytes : (did : Text) → DocIsBytes (document did)
unfolding new
document-DocIsBytes did = record {
  methods = (tt, tt);
  authentication = tt;
  assertion_method = tt;
  key_agreement = tt;
  capability_invocation = tt;
  capability_delegation = tt;
}

-- A log of one entry with the document
abbrev entry : Text → DidLogEntry Tree
entry did = record {
  format = tdw03;
  version_id = text "1-Q";
  version_time = text "t";
  parameters = only_keys tdw03 [] none;
  did_doc_state = full (doc_to_value (document did));
  data_integrity_proofs = [];
}

-- The text `o` is the entry of the other DID.
instance abbrev texts : JsonText plain_json
texts = record {
  to_string = λ v. ok (leaves v);
  from_str =
      λ s. ok (entry_to_value (if text_eq s (text "o") then entry other else entry expected));
  jcs = leaves;
}

abbrev list_jwt : Text
list_jwt = text "k.l." ++ sample_signature (text "k.l")

-- What the three URLs serve
abbrev served : Text → Text
served url =
    if text_eq url (text "https://o.org/.well-known/did.jsonl")
    then text "o"
    else if text_eq url (text "https://e.org/.well-known/did.jsonl")
    then text "e"
    else list_jwt

abbrev answer : Text → Response
answer s = record { status = 200; all = ok s; head = λ n. ok s }

instance abbrev sample_web : Web
sample_web = record { send = λ r. ok (answer (served r.url)); from_utf8 = some }

instance abbrev sample_dates : Dates
sample_dates = record { from_timestamp = λ n. none }

abbrev header : Text → Tree
header kid = json_object ((text "kid", string kid) ∷ (text "alg", string (text "ES256")) ∷ [])

abbrev payload : Tree
payload = json_object (
    (text "iss", string expected)
    ∷ (text "iat", u64 7)
    ∷ (
      text "status",
      json_object (
          (
            text "status_list",
            json_object (
                (text "type", string (text "SwissTokenStatusList-1.0"))
                ∷ (text "idx", u64 0)
                ∷ (text "uri", string (text "list"))
                ∷ []),
          )
          ∷ []),
    )
    ∷ [])

abbrev list_payload : Tree
list_payload =
    json_object ((text "status_list", json_object ((text "lst", string (120 ∷ 0 ∷ [])) ∷ [])) ∷ [])

-- JSON as one letter
abbrev read : List ℕ → Result Text Tree
read bytes =
    if text_eq bytes (text "h")
    then ok (header (kid_of other))
    else if text_eq bytes (text "p")
    then ok payload
    else if text_eq bytes (text "k")
    then ok (header (kid_of expected))
    else ok list_payload

abbrev members : Members → List (Text × Tree)
members m = []

abbrev jwt : Text
jwt = text "h.p." ++ sample_signature (text "h.p")

abbrev statement : TrustStatement
statement = record {
  vct = text "(unknown)";
  iss = expected;
  iat = 7;
  nbf = none;
  exp = none;
  disclosed = record { entity_name = []; is_state_actor = none };
  status = some (record { type_ = text "SwissTokenStatusList-1.0"; idx = 0; uri = text "list" });
  kid = kid_of other;
  alg = text "ES256";
  signing_input = text "h.p";
  signature = sample_signature (text "h.p");
}

decoded : try_from_jwt members read jwt ≡ ok statement
unfolding try_from_jwt trim_tildes decode_segment read_disclosures sd_set texts_of split as_str
    as_u64 as_array as_object pointer_try_from
decoded = refl

-- A log of one document is read back.
entry_read : (did : Text) → entry_try_from (entry_to_value (entry did)) ≡ ok (entry did)
entry_read did = entry_try_from-to_value (entry did) refl tt

document_read : (did : Text) → doc_try_from (doc_to_value (document did)) ≡ ok (document did)
document_read did = doc_try_from-to_value (document did) (document-DocIsBytes did)

fetched_other : fetch_issuer_doc other ≡ ok (document other)
unfolding fetch_issuer_doc fetch_text read_body max_bytes try_from_jsonl read_lines read_line lines
    trim trim_start trim_end last from_text from_parts strip_prefix split_once is_valid_domain
    is_valid_path split log_url replace replace_from
fetched_other = rw (entry_read other, document_read other) refl

fetched_expected : fetch_issuer_doc expected ≡ ok (document expected)
unfolding fetch_issuer_doc fetch_text read_body max_bytes try_from_jsonl read_lines read_line lines
    trim trim_start trim_end last from_text from_parts strip_prefix split_once is_valid_domain
    is_valid_path split log_url replace replace_from
fetched_expected = rw (entry_read expected, document_read expected) refl

abbrev the_key : VerifyingKey
the_key = ecdsa_p256 (0x04 ∷ 1 ∷ 2 ∷ [])

-- The key of a document's one method
key_found : (did : Text) → find_verifying_key (document did) (kid_of did) ≡ ok the_key
unfolding find_verifying_key method_named new from_p256_coordinates key_try_from p256_of_key
    p256_try_from alg_of
key_found did = ground (arith, text_eq_refl (kid_of did))

list_verified :
    (ctx : VerifyContext Tree)
    → ctx.expected_issuer ≡ expected
    → find ctx.issuer_docs expected ≡ none
    → parse_and_verify_status_list read (text "list") list_jwt ctx
      ≡ ok (record { bits = 1; bytes = 0 ∷ [] }, put ctx.issuer_docs expected (document expected))
unfolding parse_and_verify_status_list segment_json split as_str as_object split_once list_try_from
    load_issuer_doc key_verify signature_verifies
list_verified ctx same absent = rw (same, absent, fetched_expected, key_found expected) refl

-- The report is positive, although the kid is another DID's.
abbrev documents : VerifyContext Tree
documents = record {
  expected_issuer = expected;
  issuer_docs = (other, document other) ∷ [];
  status_lists = [];
}

served_list :
    load_status_list read (text "list") documents
    ≡ ok (
      record { bits = 1; bytes = 0 ∷ [] },
      record documents {
        issuer_docs = (other, document other) ∷ (expected, document expected) ∷ [];
        status_lists = (text "list", record { bits = 1; bytes = 0 ∷ [] }) ∷ [];
      },
    )
unfolding load_status_list find fetch_text read_body max_bytes trim trim_start trim_end put
served_list = rw (list_verified documents refl refl) refl

signed :
    verify_signature statement (new_context expected)
    ≡ ok (ok_check (text "valid (kid: " ++ kid_of other ++ text ")"), documents)
unfolding verify_signature load_issuer_doc find put split_once key_verify signature_verifies
signed = rw (fetched_other, key_found other) refl

abbrev report : Report
report =
    report_of statement (ok_check (text "matches expected issuer"))
      (ok_check (text "valid (kid: " ++ kid_of other ++ text ")")) (check_freshness statement 8)
      (ok_check (text "valid (idx=0, bits=1)"))

reported :
    (next : VerifyContext Tree) × (verify_one read statement 8 (new_context expected)
      ≡ ok (report, next))
unfolding verify_one check_status value_at read_field from_raw decimal passed
reported = (
  record documents {
    issuer_docs = (other, document other) ∷ (expected, document expected) ∷ [];
    status_lists = (text "list", record { bits = 1; bytes = 0 ∷ [] }) ∷ [];
  },
  rw (signed, served_list) refl,
)

new_context-ContextHolds : ContextHolds read expected (new_context expected)
new_context-ContextHolds = record { issuer_eq = refl; docs_hold = tt; lists_hold = tt }

verdict : verify_statements members read expected 8 (jwt ∷ []) ≡ ok trusted
unfolding verify_statements decode_all newest_first insert_by_iat verify_all trusted_count passed
    check_freshness
verdict = rw (decoded, reported.1) refl

verify_statements_sound_example :
    (stmt : TrustStatement) × StatementFrom members read (jwt ∷ []) stmt
    × StatementTrusted read expected 8 stmt
verify_statements_sound_example = verify_statements_sound members read expected 8 (jwt ∷ []) verdict

verify_one_iff_example :
    ((r : Report) × (next : VerifyContext Tree) × (verify_one read statement 8
          (new_context expected)
        ≡ ok (r, next))
      × (r.verdict ≡ true))
    ↔ StatementTrusted read expected 8 statement
verify_one_iff_example =
    verify_one_iff read statement expected 8 (new_context expected) new_context-ContextHolds

-- The other DID's key signed it.
other_key : StatementTrusted read expected 8 statement
unfolding passed check_freshness
other_key =
    (verify_one_iff read statement expected 8 (new_context expected) new_context-ContextHolds).0
      (report, reported.0, reported.1, refl)
