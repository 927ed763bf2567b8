-- ===== src/Tool/PopContext.antt =====
-- The key of a proof of possession that is checked against a verified log.
use swiyu_rs.Prelude.{
  ℕ, suc, ◌≡◌, refl, Option, none, some, List, [], ◌∷◌, Result, ok, err, guard, ok_or, map_err,
  length, take, get_elem?, arith, sym, ap, ◌∙◌, Bool-cases, inl, inr,
}
use swiyu_rs.Prelude.{Ensures, returns, fails, Ensures-ok, Ensures-bind, ok_or-eq-ok}
use swiyu_rs.Prelude.{map_err-eq-ok, guard-eq-ok, get_elem?-some}
use mathlib.Core.Option.{some-injective}
use swiyu_rs.Prelude.Text.{Text, text_eq, text_eq_sound}
use swiyu_rs.Json.Interface.{Json}
use swiyu_rs.Vendor.Encoding.{Base64}
use swiyu_rs.Vendor.Crypto.{Bs58, Sha256, Ed25519, P256, JsonText}
use swiyu_rs.Did.Identifier.{Did, to_text}
use swiyu_rs.DidDoc.Jwk.{PublicKeyJwk}
use swiyu_rs.DidDoc.Document.{PublicKey, jwk, multibase, VerificationMethod, DidDoc}
use swiyu_rs.DidDoc.Doc.{doc_try_from}
use swiyu_rs.DidLog.Entry.{DidDocState, full, patch, DidLogEntry}
use swiyu_rs.DidLog.Proof.{contains_key}
use swiyu_rs.DidLog.ProofLemmas.{contains_key_sound}
use swiyu_rs.DidLog.Chain.{LogVerified, last_announced, authorized_keys, unwrap_or}
use swiyu_rs.KeyStore.Entry.{KeyRole}
use swiyu_rs.Jws.Verify.{VerifyingKey, key_try_from}
use swiyu_rs.Tool.Log.{current_did}
use swiyu_rs.Tool.Update.{last}
use swiyu_rs.Tool.Deactivated.{last-get_elem?, current_did-last, last-EntryVerified, last-did_of}
use swiyu_rs.Tool.PopVerify.{
  PopError, pop_error_of, KidShape, did_key, fragment, Context, latest_update_keys, unwrap_keys,
  method_named, decode_multikey, find_vm_key_in_log, resolve_context, document_of, jwk_key,
}

-- The list that is searched for a did:key is that of the keys for the next entry.
latest_update_keys-last_announced :
    {V : Type 0} (log : List (DidLogEntry V)) → latest_update_keys log ≡ last_announced log
unfolding latest_update_keys last_announced
latest_update_keys-last_announced [] = refl
latest_update_keys-last_announced (e ∷ es) = simp (latest_update_keys-last_announced es)

take-length {ℓ} : {A : Type ℓ} (xs : List A) → take (length xs) xs ≡ xs
take-length [] = refl
take-length (x ∷ xs) = ap (λ r. x ∷ r) (take-length xs)

pub authorized_keys-latest :
    {V : Type 0} (e : DidLogEntry V) (log : List (DidLogEntry V))
    → unwrap_keys (latest_update_keys (e ∷ log)) ≡ authorized_keys (e ∷ log) (length (e ∷ log))
authorized_keys-latest e log =
    rw (take-length (e ∷ log), latest_update_keys-last_announced (e ∷ log))
      (unwrapped (last_announced (e ∷ log)))
  where
    unwrapped : (o : Option (List Text)) → unwrap_keys o ≡ unwrap_or o []
    unwrapped none = refl
    unwrapped (some keys) = refl

pub method_named_sound :
    (kid : Text) (vms : List VerificationMethod) {vm : VerificationMethod}
    → method_named kid vms ≡ some vm
    → (k : ℕ) × (get_elem? vms k ≡ some vm) × (vm.id ≡ kid)
unfolding method_named
method_named_sound kid [] h = absurd (cc)
method_named_sound kid (v ∷ vms) {vm} h = elim (Bool-cases (text_eq v.id kid)) [
  | inl e ↦
      let same : v ≡ vm = some-injective _ _ (rw e at h) in
      (0, ap some same, rw (← same) (text_eq_sound v.id kid e))
  | inr e ↦ let (k, at, named) = method_named_sound kid vms (rw e at h) in (suc k, at, named)
]

module _ ⦃j : Json⦄ ⦃e : Base64⦄ ⦃b : Bs58⦄ ⦃c : Ed25519⦄ ⦃p : P256⦄ where
  open j use {Value}

  -- The key is that of the JWK of a verification method named by the kid, in the last document.
  pub record KeyOfDocument (log : List (DidLogEntry Value)) (kid : Text) (key : VerifyingKey)
      : Type 0 where
    pub entry : DidLogEntry Value
    pub document : Value
    pub doc : DidDoc Value
    pub method_index : ℕ
    pub method : VerificationMethod
    pub key_jwk : PublicKeyJwk
    pub entry_eq : last log ≡ some entry
    pub state_eq : entry.did_doc_state ≡ full document
    pub doc_eq : doc_try_from document ≡ ok doc
    pub method_at : get_elem? doc.verification_method method_index ≡ some method
    pub id_eq : method.id ≡ kid
    pub public_key_eq : method.public_key ≡ jwk key_jwk
    pub key_eq : key_try_from key_jwk ≡ ok key

  document_of_sound :
      (state : DidDocState Value) {v : Value} → document_of state ≡ ok v → state ≡ full v
  document_of_sound (full w) h = cc
  document_of_sound (patch d) h = absurd (cc)

  jwk_key_sound :
      (k : PublicKey) {key : VerifyingKey}
      → jwk_key k ≡ ok key
      → (kj : PublicKeyJwk) × (k ≡ jwk kj) × (key_try_from kj ≡ ok key)
  jwk_key_sound (jwk kj) h = (kj, refl, map_err-eq-ok pop_error_of (key_try_from kj) h)
  jwk_key_sound (multibase m) h = absurd (cc)

  find_vm_key_in_log_sound :
      (log : List (DidLogEntry Value)) (kid : Text)
      → Ensures (KeyOfDocument log kid) (find_vm_key_in_log log kid)
  unfolding find_vm_key_in_log
  find_vm_key_in_log_sound log kid = Ensures-bind (ok_or (last log) _) _ λ entry e1.
      Ensures-bind (document_of entry.did_doc_state) _ λ document e2.
        Ensures-bind (map_err _ (doc_try_from document)) _ λ doc e3.
          Ensures-bind (ok_or (method_named kid doc.verification_method) _) _ λ vm e4.
            let (i, at, named) =
              method_named_sound kid doc.verification_method
                (ok_or-eq-ok (method_named kid doc.verification_method) _ e4) in
            of_method entry document doc i vm (ok_or-eq-ok (last log) _ e1)
              (document_of_sound entry.did_doc_state e2)
              (map_err-eq-ok _ (doc_try_from document) e3) at named (jwk_key vm.public_key) refl
    where
      of_method :
          (entry : DidLogEntry Value) (document : Value) (doc : DidDoc Value) (i : ℕ)
          (vm : VerificationMethod)
          → last log ≡ some entry
          → entry.did_doc_state ≡ full document
          → doc_try_from document ≡ ok doc
          → get_elem? doc.verification_method i ≡ some vm
          → vm.id ≡ kid
          → (r : Result PopError VerifyingKey) → jwk_key vm.public_key ≡ r
          → Ensures (KeyOfDocument log kid) r
      of_method entry document doc i vm e1 e2 e3 at named (err x) h = fails
      of_method entry document doc i vm e1 e2 e3 at named (ok key) h =
          let (kj, is_jwk, key_at) = jwk_key_sound vm.public_key h in
          returns (record {
            entry = entry;
            document = document;
            doc = doc;
            method_index = i;
            method = vm;
            key_jwk = kj;
            entry_eq = e1;
            state_eq = e2;
            doc_eq = e3;
            method_at = at;
            id_eq = named;
            public_key_eq = is_jwk;
            key_eq = key_at;
          })

module _ ⦃j : Json⦄ ⦃e : Base64⦄ ⦃b : Bs58⦄ ⦃c : Ed25519⦄ ⦃p : P256⦄
    (multicodec : ℕ → ℕ → Text) where
  open j use {Value}

  -- The key that a kid of each shape resolves to by a log: one of `keys`, or that of a method of the
  -- log's document, whose DID the kid then has.
  abbrev pub KeyByLog :
      List (DidLogEntry Value) → List Text → Text → Text → KidShape → VerifyingKey → Type 0
  KeyByLog log keys did kid (did_key mk) key =
      ((k : ℕ) × (get_elem? keys k ≡ some mk)) × (decode_multikey multicodec mk ≡ ok key)
  KeyByLog log keys did kid (fragment d) key = (d ≡ did) × KeyOfDocument log kid key

  resolve_context_sound :
      (log : List (DidLogEntry Value))
      (stored : Text → Result PopError (KeyRole → Result PopError p.VerifyingKey)) (did kid : Text)
      (shape : KidShape)
      → current_did log ≡ some did
      → Ensures
          (λ (context : Context).
            (context.iss_constraint ≡ some did)
            × KeyByLog log (unwrap_keys (latest_update_keys log)) did kid shape context.key)
          (resolve_context multicodec (some (ok log)) stored kid shape)
  unfolding resolve_context
  resolve_context_sound log stored did kid (did_key mk) current =
      Ensures-bind (decode_multikey multicodec mk) _ λ key e1.
        Ensures-bind (ok_or (current_did log) _) _ λ log_did e2.
          Ensures-bind (guard (contains_key (unwrap_keys (latest_update_keys log)) mk) _) _ λ _ e3.
            let same : log_did ≡ did =
              some-injective _ _ (sym (ok_or-eq-ok (current_did log) _ e2) ∙ current) in
            let known =
              contains_key_sound (unwrap_keys (latest_update_keys log)) mk
                (guard-eq-ok (contains_key (unwrap_keys (latest_update_keys log)) mk) _ e3) in
            returns (ap some same, (known, e1))
  resolve_context_sound log stored did kid (fragment d) current =
      Ensures-bind (ok_or (current_did log) _) _ λ log_did e1.
        Ensures-bind (guard (text_eq log_did d) _) _ λ _ e2.
          Ensures-bind (find_vm_key_in_log log kid) _ λ key e3.
            let same : log_did ≡ did =
              some-injective _ _ (sym (ok_or-eq-ok (current_did log) _ e1) ∙ current) in
            let named = text_eq_sound log_did d (guard-eq-ok (text_eq log_did d) _ e2) in
            let is_did : d ≡ did = sym named ∙ same in
            returns (ap some is_did, (is_did, Ensures-ok (find_vm_key_in_log_sound log kid) e3))

module _ ⦃j : Json⦄ ⦃t : JsonText j⦄ ⦃s : Sha256⦄ ⦃e : Base64⦄ ⦃b : Bs58⦄ ⦃c : Ed25519⦄
    ⦃p : P256⦄ where
  open j use {Value}

  -- The DID of a verified log
  pub current_did-LogVerified :
      (first : DidLogEntry Value) (log : List (DidLogEntry Value)) (did : Did)
      → LogVerified (first ∷ log) did
      → current_did (first ∷ log) ≡ some (to_text did)
  current_did-LogVerified first log did verified =
      let (l, at) = get_elem?-some (first ∷ log) (length log) (omega arith) in
      let last_at = last-get_elem? first log ∙ at in
      let named = last-did_of l (last-EntryVerified first log did verified last_at) in
      current_did-last (first ∷ log) last_at named

  -- By a verified log, a kid resolves to a key for which the issuer must be the log's DID: a did:key to
  -- the Ed25519 key of a multikey that may sign the log's next entry, and any other kid, which has the
  -- log's DID then, to the JWK of the verification method that it names in the last document.
  pub resolve_context-LogVerified :
      (multicodec : ℕ → ℕ → Text)
      (stored : Text → Result PopError (KeyRole → Result PopError p.VerifyingKey))
      (first : DidLogEntry Value) (log : List (DidLogEntry Value)) (did : Did) (kid : Text)
      (shape : KidShape) (context : Context)
      → LogVerified (first ∷ log) did
      → resolve_context multicodec (some (ok (first ∷ log))) stored kid shape ≡ ok context
      → (context.iss_constraint ≡ some (to_text did))
        × KeyByLog multicodec
            (first ∷ log)
            (authorized_keys (first ∷ log) (length (first ∷ log)))
            (to_text did)
            kid
            shape
            context.key
  resolve_context-LogVerified multicodec stored first log did kid shape context verified h =
      let current = current_did-LogVerified first log did verified in
      let found =
        Ensures-ok
          (resolve_context_sound multicodec (first ∷ log) stored (to_text did) kid shape current)
          h in
      rw (authorized_keys-latest first log) at found
