-- ===== src/Trust/Sources.antt =====
-- Where the documents, keys and status lists of a verification come from.
use swiyu_rs.Prelude.{
  ℕ, ◌≡◌, refl, true, Option, none, some, List, ok, guard, ok_or, map_err, length, get_elem?, All,
}
use swiyu_rs.Prelude.{Ensures, returns, Ensures-ok, Ensures-bind, Ensures-all, ok_or-eq-ok, ap, ◌∙◌}
use swiyu_rs.Prelude.{map_err-eq-ok, guard-eq-ok}
use swiyu_rs.Prelude.Text.{Text, text, text_eq, text_eq_sound}
use swiyu_rs.Json.Interface.{Json}
use swiyu_rs.Vendor.Encoding.{Base64}
use swiyu_rs.Vendor.Crypto.{Bs58, Ed25519, P256, JsonText}
use swiyu_rs.Vendor.Web.{Web}
use swiyu_rs.Did.Identifier.{Did}
use swiyu_rs.Did.Parse.{from_text}
use swiyu_rs.Did.Url.{log_url}
use swiyu_rs.DidDoc.Jwk.{PublicKeyJwk}
use swiyu_rs.DidDoc.Document.{PublicKey, jwk, multibase, VerificationMethod, DidDoc}
use swiyu_rs.DidDoc.Doc.{doc_try_from}
use swiyu_rs.DidLog.Entry.{DidDocState, full, patch, DidLogEntry}
use swiyu_rs.DidLog.Jsonl.{try_from_jsonl}
use swiyu_rs.KeyStore.Dir.{Dir, find, All-find, All-put}
use swiyu_rs.Jws.Verify.{VerifyingKey, alg_of, key_try_from, key_verify, signature_verifies}
use swiyu_rs.Jws.Embedded.{key_verify_iff}
use swiyu_rs.Tool.Http.{FetchOutcome, found, not_found, fetch_text}
use swiyu_rs.Tool.Update.{last}
use swiyu_rs.Tool.PopVerify.{method_named}
use swiyu_rs.Tool.PopContext.{method_named_sound}
use swiyu_rs.Trust.Issuer.{
  log_text, full_state, fetch_issuer_doc, cached_doc, load_issuer_doc, es256_key,
  find_verifying_key,
}

module _ ⦃j : Json⦄ ⦃t : JsonText j⦄ ⦃b : Bs58⦄ ⦃w : Web⦄ where
  open j use {Value}

  -- The document is the full one of the last entry of the log that is served for the DID.
  pub record IssuerDoc (iss : Text) (doc : DidDoc Value) : Type 0 where
    pub did : Did
    pub body : Text
    pub log : List (DidLogEntry Value)
    pub entry : DidLogEntry Value
    pub document : Value
    pub did_eq : from_text iss ≡ ok did
    pub body_eq : fetch_text (log_url did) ≡ ok (found body)
    pub log_eq : try_from_jsonl body ≡ ok log
    pub entry_eq : last log ≡ some entry
    pub state_eq : entry.did_doc_state ≡ full document
    pub doc_eq : doc_try_from document ≡ ok doc

  log_text_sound :
      (iss url : Text) (o : FetchOutcome) {s : Text} → log_text iss url o ≡ ok s → o ≡ found s
  log_text_sound iss url (found r) h = cc
  log_text_sound iss url not_found h = absurd (cc)

  full_state_sound :
      (iss : Text) (s : DidDocState Value) {v : Value} → full_state iss s ≡ ok v → s ≡ full v
  full_state_sound iss (full v) h = cc
  full_state_sound iss (patch p) h = absurd (cc)

  fetch_issuer_doc_sound : (iss : Text) → Ensures (IssuerDoc iss) (fetch_issuer_doc iss)
  unfolding fetch_issuer_doc
  fetch_issuer_doc_sound iss = Ensures-bind (map_err _ (from_text iss)) _ λ did e1.
      Ensures-bind (map_err _ (fetch_text (log_url did))) _ λ outcome e2.
        Ensures-bind (log_text iss (log_url did) outcome) _ λ body e3.
          Ensures-bind (map_err _ (try_from_jsonl body)) _ λ log e4.
            Ensures-bind (ok_or (last log) _) _ λ entry e5.
              Ensures-bind (full_state iss entry.did_doc_state) _ λ document e6.
                Ensures-all (map_err _ (doc_try_from document)) λ doc e7. record {
                  did = did;
                  body = body;
                  log = log;
                  entry = entry;
                  document = document;
                  did_eq = map_err-eq-ok _ (from_text iss) e1;
                  body_eq =
                      map_err-eq-ok _ (fetch_text (log_url did)) e2
                      ∙ ap ok (log_text_sound iss (log_url did) outcome e3);
                  log_eq = map_err-eq-ok _ (try_from_jsonl body) e4;
                  entry_eq = ok_or-eq-ok (last log) _ e5;
                  state_eq = full_state_sound iss entry.did_doc_state e6;
                  doc_eq = map_err-eq-ok _ (doc_try_from document) e7;
                }

  -- A cache of such documents
  abbrev pub DocsHold : Dir (DidDoc Value) → Type 0
  DocsHold docs = All (λ p. IssuerDoc (p.0) (p.1)) docs

  pub load_issuer_doc_sound :
      (iss : Text) (docs : Dir (DidDoc Value))
      → DocsHold docs
      → Ensures (λ r. IssuerDoc iss (r.0) × DocsHold (r.1)) (load_issuer_doc iss docs)
  unfolding load_issuer_doc
  load_issuer_doc_sound iss docs hold = cached (find docs iss) refl
    where
      cached :
          (o : Option (DidDoc Value))
          → find docs iss ≡ o
          → Ensures (λ r. IssuerDoc iss (r.0) × DocsHold (r.1)) (cached_doc iss docs o)
      cached (some doc) at = returns (All-find (λ p. IssuerDoc (p.0) (p.1)) docs iss hold at, hold)
      cached none at = Ensures-bind (fetch_issuer_doc iss) _ λ doc e.
          let here = Ensures-ok (fetch_issuer_doc_sound iss) e in
          returns (here, All-put (λ p. IssuerDoc (p.0) (p.1)) docs iss doc hold here)

module _ ⦃e : Base64⦄ ⦃c : Ed25519⦄ ⦃p : P256⦄ where
  -- The signature is that of the ES256 key of the first method of the document with the kid for its id.
  pub record SignedBy {V : Type 0} (doc : DidDoc V) (kid : Text) (input signature : List ℕ)
      : Type 0 where
    pub method_index : ℕ
    pub method : VerificationMethod
    pub key_jwk : PublicKeyJwk
    pub key : VerifyingKey
    pub first_named : method_named kid doc.verification_method ≡ some method
    pub method_at : get_elem? doc.verification_method method_index ≡ some method
    pub id_eq : method.id ≡ kid
    pub public_key_eq : method.public_key ≡ jwk key_jwk
    pub key_eq : key_try_from key_jwk ≡ ok key
    pub alg_eq : alg_of key ≡ text "ES256"
    pub size : length signature ≡ 64
    pub valid : signature_verifies key input signature ≡ true

  es256_key_sound :
      (k : PublicKey) {key : VerifyingKey}
      → es256_key k ≡ ok key
      → (kj : PublicKeyJwk) × (k ≡ jwk kj)
        × (key_try_from kj ≡ ok key)
        × (alg_of key ≡ text "ES256")
  es256_key_sound (multibase m) h = absurd (cc)
  es256_key_sound (jwk kj) {key} h = Ensures-ok checked h
    where
      checked :
          Ensures
            (λ (key : VerifyingKey).
              (k : PublicKeyJwk) × (jwk kj ≡ jwk k)
              × (key_try_from k ≡ ok key)
              × (alg_of key ≡ text "ES256"))
            (es256_key (jwk kj))
      checked = Ensures-bind (map_err _ (key_try_from kj)) _ λ key e1.
          Ensures-bind (guard (text_eq (alg_of key) (text "ES256")) _) _ λ _ e2.
            returns (
              kj,
              refl,
              map_err-eq-ok _ (key_try_from kj) e1,
              text_eq_sound _ _ (guard-eq-ok _ _ e2),
            )

  pub find_verifying_key_sound :
      {V : Type 0} (doc : DidDoc V) (kid : Text) (input signature : List ℕ) {key : VerifyingKey}
      → find_verifying_key doc kid ≡ ok key
      → key_verify key input signature ≡ ok tt
      → SignedBy doc kid input signature
  unfolding find_verifying_key
  find_verifying_key_sound doc kid input signature {key} at_kid verified =
      let (size, valid) = (key_verify_iff key input signature).0 verified in
      Ensures-ok
        (Ensures-bind {P = λ (k : VerifyingKey). k ≡ key → SignedBy doc kid input signature}
          (ok_or (method_named kid doc.verification_method) _) _
          λ vm e1. Ensures-all (es256_key vm.public_key) λ k e2 same.
            let (i, at, named) =
              method_named_sound kid doc.verification_method
                (ok_or-eq-ok (method_named kid doc.verification_method) _ e1) in
            let (kj, is_jwk, key_at, alg) = es256_key_sound vm.public_key (rw same at e2) in
            record {
              method_index = i;
              method = vm;
              key_jwk = kj;
              key = key;
              first_named = ok_or-eq-ok (method_named kid doc.verification_method) _ e1;
              method_at = at;
              id_eq = named;
              public_key_eq = is_jwk;
              key_eq = key_at;
              alg_eq = alg;
              size = size;
              valid = valid;
            })
        at_kid refl
