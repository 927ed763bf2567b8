-- ===== src/Trust/Verify.antt =====
-- `cmd_verify` of swiyu-didtool/src/cmd/trust/verify.rs.
use swiyu_rs.Prelude.{
  ℕ, Bool, false, ◌&&◌, Option, none, some, List, [], ◌∷◌, ◌++◌, Result, ok, err, ◌>>=◌, map_err,
  leb, ltb, if◌then◌else◌,
}
use swiyu_rs.Prelude.Text.{Text, text, text_eq}
use swiyu_rs.Prelude.Decimal.{decimal}
use swiyu_rs.Json.Interface.{Json}
use swiyu_rs.Vendor.Encoding.{Base64, Zlib}
use swiyu_rs.Vendor.Crypto.{Bs58, Ed25519, P256, JsonText}
use swiyu_rs.Vendor.Web.{Web, Dates}
use swiyu_rs.Jws.Verify.{
  JwsVerifyError, unsupported_alg, alg_key_mismatch, malformed_jwk, invalid_signature_length,
  signature_mismatch, VerifyingKey, key_verify,
}
use swiyu_rs.StatusList.Slot.{StatusValue, valid, revoked, suspended, reserved}
use swiyu_rs.StatusList.Bitstring.{value_at}
use swiyu_rs.StatusList.Pointer.{StatusListPointer}
use swiyu_rs.SdJwt.Statement.{TrustStatement}
use swiyu_rs.Tool.Http.{iso8601}
use swiyu_rs.Trust.Error.{
  TrustError, status_list, VerifyContext, Check, ok_check, fail_check, skip_check, passed, Report,
}
use swiyu_rs.Trust.Issuer.{load_issuer_doc, find_verifying_key}
use swiyu_rs.Trust.StatusLists.{kid_did_of, load_status_list}

abbrev pub check_issuer : Text → Text → Check
check_issuer iss expected =
    if text_eq iss expected
    then ok_check (text "matches expected issuer")
    else fail_check (iss ++ text " (does not match expected issuer)")

-- What the verification with the key makes of the check
abbrev pub signature_check_of : Text → Result JwsVerifyError (Unit {0}) → Check
signature_check_of kid (ok u) = ok_check (text "valid (kid: " ++ kid ++ text ")")
signature_check_of kid (err (invalid_signature_length expected actual)) =
    fail_check (text "signature bytes are not a valid ES256 signature")
signature_check_of kid (err (unsupported_alg alg)) = fail_check (text "signature does not verify")
signature_check_of kid (err (alg_key_mismatch alg jwk_alg)) =
    fail_check (text "signature does not verify")
signature_check_of kid (err (malformed_jwk msg)) = fail_check (text "signature does not verify")
signature_check_of kid (err signature_mismatch) = fail_check (text "signature does not verify")

-- `slot` is the words `(idx=…, bits=…)`.
abbrev pub status_check_of : (slot : Text) → StatusValue → Check
status_check_of slot valid = ok_check (text "valid " ++ slot)
status_check_of slot revoked = fail_check (text "revoked " ++ slot)
status_check_of slot suspended = fail_check (text "suspended " ++ slot)
status_check_of slot (reserved n) = fail_check (text "reserved=" ++ decimal n ++ text " " ++ slot)

abbrev pub slot_text : ℕ → ℕ → Text
slot_text idx bits = text "(idx=" ++ decimal idx ++ text ", bits=" ++ decimal bits ++ text ")"

abbrev pub report_of : TrustStatement → Check → Check → Check → Check → Report
report_of stmt iss_check signature_check freshness_check status_check = record {
  statement = stmt;
  iss_check = iss_check;
  signature_check = signature_check;
  freshness_check = freshness_check;
  status_check = status_check;
  verdict =
      passed iss_check && passed signature_check && passed freshness_check && passed status_check;
}

module _ ⦃d : Dates⦄ where
  -- `map(iso8601).unwrap_or_else(|| "—")`
  abbrev bound_text : Option ℕ → Text
  bound_text none = 0x2014 ∷ []
  bound_text (some n) = iso8601 n

  abbrev pub too_early : Option ℕ → ℕ → Bool
  too_early none now = false
  too_early (some nbf) now = ltb now nbf

  abbrev pub too_late : Option ℕ → ℕ → Bool
  too_late none now = false
  too_late (some exp) now = leb exp now

  unfoldable pub check_freshness : TrustStatement → ℕ → Check
  unfolding iso8601
  check_freshness stmt now =
      if too_early stmt.nbf now
      then fail_check
          (text "now < nbf (" ++ iso8601 now ++ text " < " ++ bound_text stmt.nbf ++ text ")")
      else if too_late stmt.exp now
      then fail_check (text "expired at " ++ bound_text stmt.exp)
      else ok_check (
          text "now within nbf..exp ("
          ++ bound_text stmt.nbf
          ++ text ".."
          ++ bound_text stmt.exp
          ++ text ")")

module _ ⦃j : Json⦄ ⦃t : JsonText j⦄ ⦃e : Base64⦄ ⦃b : Bs58⦄ ⦃c : Ed25519⦄ ⦃p : P256⦄
    ⦃w : Web⦄ where
  open j use {Value}

  abbrev pub key_check : TrustStatement → Result Text VerifyingKey → Check
  key_check stmt (err reason) = fail_check reason
  key_check stmt (ok vk) =
      signature_check_of stmt.kid (key_verify vk stmt.signing_input stmt.signature)

  abbrev pub check_by_kid :
      TrustStatement
      → VerifyContext Value
      → Option Text
      → Result TrustError (Check × VerifyContext Value)
  check_by_kid stmt ctx none =
      ok (fail_check (text "kid '" ++ stmt.kid ++ text "' has no fragment"), ctx)
  check_by_kid stmt ctx (some kid_did) = do
    (doc, docs) ← load_issuer_doc kid_did ctx.issuer_docs
    ok (key_check stmt (find_verifying_key doc stmt.kid), record ctx { issuer_docs = docs })

  unfoldable pub verify_signature :
      TrustStatement → VerifyContext Value → Result TrustError (Check × VerifyContext Value)
  verify_signature stmt ctx =
      if text_eq stmt.alg (text "ES256")
      then check_by_kid stmt ctx (kid_did_of stmt.kid)
      else ok (fail_check (text "unsupported alg '" ++ stmt.alg ++ text "' (expected ES256)"), ctx)

module _ ⦃j : Json⦄ ⦃t : JsonText j⦄ ⦃e : Base64⦄ ⦃b : Bs58⦄ ⦃c : Ed25519⦄ ⦃p : P256⦄ ⦃z : Zlib⦄
    ⦃w : Web⦄ (from_slice : List ℕ → Result Text j.Value) where
  open j use {Value}

  abbrev pub check_pointer :
      Option StatusListPointer
      → VerifyContext Value
      → Result TrustError (Check × VerifyContext Value)
  check_pointer none ctx = ok (fail_check (text "no status_list claim in payload"), ctx)
  check_pointer (some info) ctx = do
    (list, next) ← load_status_list from_slice info.uri ctx
    value ← map_err status_list (value_at list info.idx)
    ok (status_check_of (slot_text info.idx list.bits) value, next)

  unfoldable pub check_status :
      TrustStatement → VerifyContext Value → Result TrustError (Check × VerifyContext Value)
  check_status stmt ctx = check_pointer stmt.status ctx

  -- A later check is made where the one before it passed.
  abbrev pub signature_step :
      Check → TrustStatement → VerifyContext Value → Result TrustError (Check × VerifyContext Value)
  signature_step iss_check stmt ctx =
      if passed iss_check
      then verify_signature stmt ctx
      else ok (skip_check (text "(issuer mismatch)"), ctx)

  abbrev pub status_step :
      Check → TrustStatement → VerifyContext Value → Result TrustError (Check × VerifyContext Value)
  status_step signature_check stmt ctx =
      if passed signature_check
      then check_status stmt ctx
      else ok (skip_check (text "(would only matter if signature were trusted)"), ctx)

  module _ ⦃d : Dates⦄ where
    unfoldable pub verify_one :
        TrustStatement → ℕ → VerifyContext Value → Result TrustError (Report × VerifyContext Value)
    unfolding passed verify_signature check_status check_freshness
    verify_one stmt now ctx = do
      let iss_check = check_issuer stmt.iss ctx.expected_issuer
      (signature_check, next) ← signature_step iss_check stmt ctx
      let freshness_check = check_freshness stmt now
      (status_check, final) ← status_step signature_check stmt next
      ok (report_of stmt iss_check signature_check freshness_check status_check, final)

    -- The reports of the statements, one context behind the other
    unfoldable pub verify_all :
        List TrustStatement → ℕ → VerifyContext Value → Result TrustError (List Report)
    unfolding verify_one
    verify_all [] now ctx = ok []
    verify_all (stmt ∷ stmts) now ctx = do
      (report, next) ← verify_one stmt now ctx
      reports ← verify_all stmts now next
      ok (report ∷ reports)
