-- ===== src/Trust/Trusted.antt =====
-- What a positive verdict of the verification of trust statements rests on.
use swiyu_rs.Prelude.{
  ℕ, ◌≤◌, ◌<◌, ◌≡◌, refl, true, false, Option, none, some, List, Result, ok, err, map_err, ap, ◌∙◌,
  arith, Bool, ◌&&◌, Bool-cases, inl, inr,
}
use swiyu_rs.Prelude.{Ensures, returns, Ensures-ok, Ensures-bind}
use swiyu_rs.Prelude.{map_err-eq-ok}
use mathlib.Core.Option.{some-injective}
use swiyu_rs.Prelude.Text.{Text, text, text_eq, text_eq_sound}
use swiyu_rs.Json.Interface.{Json}
use swiyu_rs.Vendor.Encoding.{Base64, Zlib}
use swiyu_rs.Vendor.Crypto.{Bs58, Ed25519, P256, JsonText}
use swiyu_rs.Vendor.Web.{Web, Dates}
use swiyu_rs.DidDoc.Document.{DidDoc}
use swiyu_rs.Jws.Verify.{JwsVerifyError, VerifyingKey}
use swiyu_rs.StatusList.Slot.{StatusValue, valid, revoked, suspended, reserved}
use swiyu_rs.StatusList.Bitstring.{StatusList, value_at}
use swiyu_rs.StatusList.Pointer.{StatusListPointer}
use swiyu_rs.SdJwt.Statement.{TrustStatement}
use swiyu_rs.Trust.Error.{VerifyContext, Check, passed}
use swiyu_rs.Trust.Issuer.{load_issuer_doc, find_verifying_key}
use swiyu_rs.Trust.StatusLists.{kid_did_of, load_status_list}
use swiyu_rs.Trust.Verify.{
  too_early, too_late, check_issuer, signature_check_of, status_check_of, check_freshness,
  key_check, check_by_kid, verify_signature, check_pointer, check_status, signature_step,
  status_step, verify_one,
}
use swiyu_rs.Trust.Sources.{IssuerDoc, load_issuer_doc_sound, SignedBy, find_verifying_key_sound}
use swiyu_rs.Trust.Lists.{ListFrom, ContextHolds, load_status_list_sound}

all_passed :
    (x y z w : Bool) → (x && y && z && w) ≡ true → (x ≡ true) × (y ≡ true) × (z ≡ true) × (w ≡ true)
all_passed x y z w h = (ground arith, ground arith, ground arith, ground arith)

check_issuer_sound :
    (iss expected : Text) → passed (check_issuer iss expected) ≡ true → iss ≡ expected
unfolding passed
check_issuer_sound iss expected h = elim (Bool-cases (text_eq iss expected)) [
  | inl e ↦ text_eq_sound iss expected e
  | inr e ↦ absurd (ground arith)
]

signature_check_of_sound :
    (kid : Text) (r : Result JwsVerifyError (Unit {0}))
    → passed (signature_check_of kid r) ≡ true
    → r ≡ ok tt
unfolding passed
signature_check_of_sound kid (ok u) h = refl
signature_check_of_sound kid (err (JwsVerifyError.unsupported_alg a)) h = absurd (cc)
signature_check_of_sound kid (err (JwsVerifyError.malformed_jwk a)) h = absurd (cc)
signature_check_of_sound kid (err (JwsVerifyError.alg_key_mismatch a k)) h = absurd (cc)
signature_check_of_sound kid (err (JwsVerifyError.invalid_signature_length m n)) h = absurd (cc)
signature_check_of_sound kid (err JwsVerifyError.signature_mismatch) h = absurd (cc)

status_check_of_sound :
    (slot : Text) (v : StatusValue) → passed (status_check_of slot v) ≡ true → v ≡ valid
unfolding passed
status_check_of_sound slot valid h = refl
status_check_of_sound slot revoked h = absurd (cc)
status_check_of_sound slot suspended h = absurd (cc)
status_check_of_sound slot (reserved n) h = absurd (cc)

-- The bounds that a statement sets on the time
pub record InTime (stmt : TrustStatement) (now : ℕ) : Type 0 where
  pub not_early : (n : ℕ) → stmt.nbf ≡ some n → n ≤ now
  pub not_late : (n : ℕ) → stmt.exp ≡ some n → now < n

module _ ⦃d : Dates⦄ where
  not_too_early :
      (o : Option ℕ) (now : ℕ) → too_early o now ≡ false → (n : ℕ) → o ≡ some n → n ≤ now
  not_too_early none now h n e = absurd (cc)
  not_too_early (some m) now h n e = let same : m ≡ n = some-injective _ _ e in ground arith

  not_too_late : (o : Option ℕ) (now : ℕ) → too_late o now ≡ false → (n : ℕ) → o ≡ some n → now < n
  not_too_late none now h n e = absurd (cc)
  not_too_late (some m) now h n e = let same : m ≡ n = some-injective _ _ e in ground arith

  check_freshness_sound :
      (stmt : TrustStatement) (now : ℕ) → passed (check_freshness stmt now) ≡ true → InTime stmt now
  unfolding check_freshness passed
  check_freshness_sound stmt now h = elim (Bool-cases (too_early stmt.nbf now)) [
    | inl f ↦ absurd (ground arith)
    | inr f ↦ elim (Bool-cases (too_late stmt.exp now)) [
      | inl g ↦ absurd (ground arith)
      | inr g ↦ record {
        not_early = not_too_early stmt.nbf now f;
        not_late = not_too_late stmt.exp now g;
      }
    ]
  ]

module _ ⦃j : Json⦄ ⦃t : JsonText j⦄ ⦃e : Base64⦄ ⦃b : Bs58⦄ ⦃c : Ed25519⦄ ⦃p : P256⦄
    ⦃w : Web⦄ where
  open j use {Value}

  -- The signature is that of a key of the DID that the kid names.
  pub record SignatureTrusted (stmt : TrustStatement) : Type 0 where
    pub kid_did : Text
    pub doc : DidDoc Value
    pub alg_eq : stmt.alg ≡ text "ES256"
    pub kid_did_eq : kid_did_of stmt.kid ≡ some kid_did
    pub doc_from : IssuerDoc kid_did doc
    pub signed : SignedBy doc stmt.kid stmt.signing_input stmt.signature

module _ ⦃j : Json⦄ ⦃t : JsonText j⦄ ⦃e : Base64⦄ ⦃b : Bs58⦄ ⦃c : Ed25519⦄ ⦃p : P256⦄ ⦃z : Zlib⦄
    ⦃w : Web⦄ (from_slice : List ℕ → Result Text j.Value) where
  open j use {Value}

  abbrev SignatureStep : TrustStatement → Text → Check × VerifyContext Value → Type 0
  SignatureStep stmt issuer r =
      ContextHolds from_slice issuer (r.1) × (passed (r.0) ≡ true → SignatureTrusted stmt)

  key_check_sound :
      (stmt : TrustStatement) (doc : DidDoc Value)
      → passed (key_check stmt (find_verifying_key doc stmt.kid)) ≡ true
      → SignedBy doc stmt.kid stmt.signing_input stmt.signature
  unfolding passed
  key_check_sound stmt doc h = checked (find_verifying_key doc stmt.kid) refl h
    where
      checked :
          (r : Result Text VerifyingKey)
          → find_verifying_key doc stmt.kid ≡ r
          → passed (key_check stmt r) ≡ true
          → SignedBy doc stmt.kid stmt.signing_input stmt.signature
      checked (err x) at h = absurd (cc)
      checked (ok vk) at h =
          find_verifying_key_sound doc stmt.kid stmt.signing_input stmt.signature at
            (signature_check_of_sound stmt.kid _ h)

  check_by_kid_sound :
      (stmt : TrustStatement) (issuer : Text) (ctx : VerifyContext Value) (o : Option Text)
      → stmt.alg ≡ text "ES256"
      → kid_did_of stmt.kid ≡ o
      → ContextHolds from_slice issuer ctx
      → Ensures (SignatureStep stmt issuer) (check_by_kid stmt ctx o)
  unfolding passed
  check_by_kid_sound stmt issuer ctx none alg at holds = returns (holds, λ h. absurd (cc))
  check_by_kid_sound stmt issuer ctx (some kid_did) alg at holds =
      Ensures-bind (load_issuer_doc kid_did ctx.issuer_docs) _ λ (doc, docs) e1.
        let (from, docs_hold) =
          Ensures-ok (load_issuer_doc_sound kid_did ctx.issuer_docs holds.docs_hold) e1 in
        returns (
          record {
            issuer_eq = holds.issuer_eq;
            docs_hold = docs_hold;
            lists_hold = holds.lists_hold;
          },
          λ h. record {
            kid_did = kid_did;
            doc = doc;
            alg_eq = alg;
            kid_did_eq = at;
            doc_from = from;
            signed = key_check_sound stmt doc h;
          },
        )

  signature_step_sound :
      (check : Check) (stmt : TrustStatement) (issuer : Text) (ctx : VerifyContext Value)
      → ContextHolds from_slice issuer ctx
      → Ensures (SignatureStep stmt issuer) (signature_step from_slice check stmt ctx)
  unfolding verify_signature passed
  signature_step_sound check stmt issuer ctx holds = elim (Bool-cases (passed check)) [
    | inl f ↦ elim (Bool-cases (text_eq stmt.alg (text "ES256"))) [
      | inl g ↦
          rw (f, g)
            (check_by_kid_sound stmt issuer ctx (kid_did_of stmt.kid) (text_eq_sound _ _ g) refl
              holds)
      | inr g ↦ rw (f, g) (returns (holds, λ h. absurd (cc)))
    ]
    | inr f ↦ rw f (returns (holds, λ h. absurd (cc)))
  ]

  -- The statement's slot of a list of the issuer is valid.
  pub record StatusTrusted (issuer : Text) (stmt : TrustStatement) : Type 0 where
    pub info : StatusListPointer
    pub list : StatusList
    pub info_eq : stmt.status ≡ some info
    pub list_from : ListFrom from_slice issuer info.uri list
    pub value_eq : value_at list info.idx ≡ ok valid

  abbrev StatusStep : TrustStatement → Text → Check × VerifyContext Value → Type 0
  StatusStep stmt issuer r =
      ContextHolds from_slice issuer (r.1) × (passed (r.0) ≡ true → StatusTrusted issuer stmt)

  check_pointer_sound :
      (stmt : TrustStatement) (issuer : Text) (ctx : VerifyContext Value)
      (o : Option StatusListPointer)
      → stmt.status ≡ o
      → ContextHolds from_slice issuer ctx
      → Ensures (StatusStep stmt issuer) (check_pointer from_slice o ctx)
  unfolding passed
  check_pointer_sound stmt issuer ctx none at holds = returns (holds, λ h. absurd (cc))
  check_pointer_sound stmt issuer ctx (some info) at holds =
      Ensures-bind (load_status_list from_slice info.uri ctx) _ λ (list, next) e1.
        Ensures-bind (map_err _ (value_at list info.idx)) _ λ value e2.
          let (from, hold) =
            Ensures-ok (load_status_list_sound from_slice issuer info.uri ctx holds) e1 in
          returns (
            hold,
            λ h. record {
              info = info;
              list = list;
              info_eq = at;
              list_from = from;
              value_eq =
                  map_err-eq-ok _ (value_at list info.idx) e2
                  ∙ ap ok (status_check_of_sound _ value h);
            },
          )

  status_step_sound :
      (check : Check) (stmt : TrustStatement) (issuer : Text) (ctx : VerifyContext Value)
      → ContextHolds from_slice issuer ctx
      → Ensures (StatusStep stmt issuer) (status_step from_slice check stmt ctx)
  unfolding check_status passed
  status_step_sound check stmt issuer ctx holds = elim (Bool-cases (passed check)) [
    | inl f ↦ rw f (check_pointer_sound stmt issuer ctx stmt.status refl holds)
    | inr f ↦ rw f (returns (holds, λ h. absurd (cc)))
  ]

  -- What a trusted statement is.
  pub record StatementTrusted (issuer : Text) (now : ℕ) (stmt : TrustStatement) : Type 0 where
    pub iss_eq : stmt.iss ≡ issuer
    pub signature : SignatureTrusted stmt
    pub in_time : InTime stmt now
    pub status : StatusTrusted issuer stmt

  module _ ⦃d : Dates⦄ where
    -- The report is the statement's, its verdict is positive only if the statement is trusted, and the
    -- caches go on to hold what was served.
    pub verify_one_sound :
        (stmt : TrustStatement) (issuer : Text) (now : ℕ) (ctx : VerifyContext Value)
        → ContextHolds from_slice issuer ctx
        → Ensures
            (λ r.
              ((r.0).statement ≡ stmt)
              × ((r.0).verdict ≡ true → StatementTrusted issuer now stmt)
              × ContextHolds from_slice issuer (r.1))
            (verify_one from_slice stmt now ctx)
    unfolding verify_one
    verify_one_sound stmt issuer now ctx holds =
        let iss_check = check_issuer stmt.iss ctx.expected_issuer in
        Ensures-bind (signature_step from_slice iss_check stmt ctx) _ λ (signature_check, next) e1.
          Ensures-bind (status_step from_slice signature_check stmt next) _
            λ (status_check, final) e2.
              let (hold, signed) =
                Ensures-ok (signature_step_sound iss_check stmt issuer ctx holds) e1 in
              let (final_hold, status) =
                Ensures-ok (status_step_sound signature_check stmt issuer next hold) e2 in
              returns (
                refl,
                λ h.
                    let (h1, h2, h3, h4) =
                      all_passed (passed iss_check) (passed signature_check)
                        (passed (check_freshness stmt now)) (passed status_check) h in
                    record {
                      iss_eq = check_issuer_sound stmt.iss ctx.expected_issuer h1 ∙ holds.issuer_eq;
                      signature = signed h2;
                      in_time = check_freshness_sound stmt now h3;
                      status = status h4;
                    },
                final_hold,
              )
