-- ===== src/DidDoc/Runs.antt =====
-- The theorems at concrete keys and at a genesis document.
use swiyu_rs.Prelude.{◌≡◌, ok, none, some, replicate, arith, All-replicate, [], ◌∷◌}
use swiyu_rs.Prelude.Text.{text}
use swiyu_rs.Prelude.Bytes.{IsByte}
use swiyu_rs.Json.Access.{string}
use swiyu_rs.Json.Plain.{Tree, plain_json}
use swiyu_rs.Vendor.Samples.{sample_base58}
use swiyu_rs.DidDoc.Multibase.{PublicKeyMultibase}
use swiyu_rs.DidDoc.Jwk.{PublicKeyJwk, rsa, sig}
use swiyu_rs.DidDoc.Document.{DidDoc, VerificationMethod, jwk, multibase, embedded, reference}
use swiyu_rs.DidDoc.Doc.{doc_to_value, doc_try_from, DocIsBytes, doc_try_from-to_value}

abbrev multibase_key : PublicKeyMultibase
multibase_key = record { key = 0xed ∷ 0x01 ∷ replicate 32 7 }

abbrev rsa_key : PublicKeyJwk
rsa_key = rsa (record {
  n = text "AQ";
  e = text "AQAB";
  use_ = some sig;
  key_ops = none;
  alg = none;
  kid = some (text "k");
})

abbrev first_method : VerificationMethod
first_method = record {
  id = text "did:a#1";
  type_ = text "Multikey";
  controller = text "did:a";
  public_key = multibase multibase_key;
}

abbrev document : DidDoc Tree
document = record {
  context = string (text "https://www.w3.org/ns/did/v1");
  id = text "did:a";
  also_known_as = text "b" ∷ text "c" ∷ [];
  controller = text "did:a" ∷ [];
  verification_method = first_method ∷ record first_method { public_key = jwk rsa_key } ∷ [];
  authentication = reference (text "did:a#1") ∷ embedded first_method ∷ [];
  assertion_method = [];
  key_agreement = [];
  capability_invocation = [];
  capability_delegation = [];
  service =
      record {
        id = text "did:a#s";
        type_ = text "t" ∷ [];
        service_endpoint = string (text "https://e.org");
      }
      ∷ [];
}

document-DocIsBytes : DocIsBytes document
document-DocIsBytes = record {
  methods = ((omega arith, (omega arith, All-replicate IsByte 32 7 (omega arith))), (tt, tt));
  authentication =
      (tt, ((omega arith, (omega arith, All-replicate IsByte 32 7 (omega arith))), tt));
  assertion_method = tt;
  key_agreement = tt;
  capability_invocation = tt;
  capability_delegation = tt;
}

doc_try_from-to_value_example : doc_try_from (doc_to_value document) ≡ ok document
doc_try_from-to_value_example = doc_try_from-to_value document document-DocIsBytes
