-- ===== src/Trust/Command.antt =====
-- `cmd_verify` of trust/verify.rs and `cmd_lookup` of trust/lookup.rs, without what they print.
use swiyu_rs.Prelude.{
  ℕ, suc, ◌+◌, Bool, Option, List, [], ◌∷◌, Result, ok, ◌>>=◌, ok_or, map_err, leb, ltb,
  if◌then◌else◌,
}
use swiyu_rs.Prelude.Text.{Text}
use swiyu_rs.Json.Interface.{Json}
use swiyu_rs.Vendor.Encoding.{Base64, Zlib}
use swiyu_rs.Vendor.Crypto.{Bs58, Sha256, Ed25519, P256, JsonText}
use swiyu_rs.Vendor.Web.{Web, Dates}
use swiyu_rs.SdJwt.Statement.{TrustStatement, try_from_jwt}
use swiyu_rs.KeyStore.Store.{Store}
use swiyu_rs.Registries.Trust.{fetch_trust_statements}
use swiyu_rs.Tool.Resolve.{resolve_did}
use swiyu_rs.Trust.Error.{
  TrustError, trust_registry_url_missing, trust_issuer_missing, statement, registry, resolve,
  VerifyContext, Report,
}
use swiyu_rs.Trust.Verify.{verify_all}

pub data VerifyOutcome : Type 0 where
  trusted untrusted : VerifyOutcome

pub record VerifyArgs : Type 0 where
  pub did : Text
  pub trust_registry_url : Option Text
  pub trust_issuer : Option Text

pub data LookupOutcome : Type 0 where
  found_statements no_statements : LookupOutcome

-- `sort_by_key(|d| Reverse(d.iat))`, a stable sort with the newest first
unfoldable pub insert_by_iat : TrustStatement → List TrustStatement → List TrustStatement
insert_by_iat s [] = s ∷ []
insert_by_iat s (r ∷ rs) =
    let rest = insert_by_iat s rs in if leb r.iat s.iat then s ∷ r ∷ rs else r ∷ rest

unfoldable pub newest_first : List TrustStatement → List TrustStatement
unfolding insert_by_iat
newest_first [] = []
newest_first (s ∷ ss) = insert_by_iat s (newest_first ss)

unfoldable pub trusted_count : List Report → ℕ
trusted_count [] = 0
trusted_count (r ∷ rs) = if r.verdict then suc (trusted_count rs) else trusted_count rs

abbrev pub outcome_of : List Report → VerifyOutcome
outcome_of reports = if ltb 0 (trusted_count reports) then trusted else untrusted

abbrev pub new_context : {V : Type 0} → Text → VerifyContext V
new_context expected_issuer = record {
  expected_issuer = expected_issuer;
  issuer_docs = [];
  status_lists = [];
}

module _ ⦃j : Json⦄ ⦃e : Base64⦄ ⦃s : Sha256⦄ (members : j.Map → List (Text × j.Value))
    (from_slice : List ℕ → Result Text j.Value) where
  -- The statements from the index `i` on, decoded
  unfoldable pub decode_all : ℕ → List Text → Result TrustError (List TrustStatement)
  decode_all i [] = ok []
  decode_all i (jwt ∷ jwts) = do
    stmt ← map_err (statement (i + 1)) (try_from_jwt members from_slice jwt)
    stmts ← decode_all (suc i) jwts
    ok (stmt ∷ stmts)

  -- Behind a flag, the texts are printed as they are.
  unfoldable pub process_statements : List Text → Bool → Result TrustError LookupOutcome
  unfolding decode_all
  process_statements [] raw = ok no_statements
  process_statements (jwt ∷ jwts) raw =
      let decoded = (do stmts ← decode_all 0 (jwt ∷ jwts); ok found_statements) in
      if raw then ok found_statements else decoded

module _ ⦃j : Json⦄ ⦃t : JsonText j⦄ ⦃e : Base64⦄ ⦃s : Sha256⦄ ⦃b : Bs58⦄ ⦃c : Ed25519⦄ ⦃p : P256⦄
    ⦃z : Zlib⦄ ⦃w : Web⦄ ⦃d : Dates⦄ (members : j.Map → List (Text × j.Value))
    (from_slice : List ℕ → Result Text j.Value) where
  -- The verdict on the statements that the registry has; `now` is the clock's.
  unfoldable pub verify_statements :
      (expected_issuer : Text) → ℕ → List Text → Result TrustError VerifyOutcome
  unfolding decode_all newest_first trusted_count verify_all
  verify_statements expected_issuer now [] = ok untrusted
  verify_statements expected_issuer now (jwt ∷ jwts) = do
    decoded ← decode_all members from_slice 0 (jwt ∷ jwts)
    reports ← verify_all from_slice (newest_first decoded) now (new_context expected_issuer)
    ok (outcome_of reports)

module _ ⦃j : Json⦄ ⦃t : JsonText j⦄ ⦃e : Base64⦄ ⦃s : Sha256⦄ ⦃b : Bs58⦄ ⦃c : Ed25519⦄ ⦃p : P256⦄
    ⦃z : Zlib⦄ ⦃w : Web⦄ ⦃d : Dates⦄ (members : j.Map → List (Text × j.Value))
    (from_slice : List ℕ → Result Text j.Value) (parse_texts : Text → Option (List Text)) where
  unfoldable pub cmd_verify : Store → VerifyArgs → ℕ → Result TrustError VerifyOutcome
  unfolding verify_statements fetch_trust_statements resolve_did
  cmd_verify store args now = do
    base_url ← ok_or args.trust_registry_url trust_registry_url_missing
    expected_issuer ← ok_or args.trust_issuer trust_issuer_missing
    did ← map_err resolve (resolve_did store args.did)
    array ← map_err registry (fetch_trust_statements parse_texts base_url did)
    verify_statements members from_slice expected_issuer now array

  unfoldable pub cmd_lookup :
      Store → (did : Text) → Option Text → Bool → Result TrustError LookupOutcome
  unfolding process_statements fetch_trust_statements resolve_did
  cmd_lookup store target trust_registry_url raw = do
    base_url ← ok_or trust_registry_url trust_registry_url_missing
    did ← map_err resolve (resolve_did store target)
    array ← map_err registry (fetch_trust_statements parse_texts base_url did)
    process_statements members from_slice array raw
