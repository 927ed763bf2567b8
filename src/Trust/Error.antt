-- ===== src/Trust/Error.antt =====
-- `TrustError`, and what a verification keeps: the caches and the checks.
use swiyu_rs.Prelude.{ℕ, Bool, true, false}
use swiyu_rs.Prelude.Text.{Text}
use swiyu_rs.KeyStore.Dir.{Dir}
use swiyu_rs.DidDoc.Error.{DidDocError}
use swiyu_rs.DidDoc.Document.{DidDoc}
use swiyu_rs.StatusList.Error.{StatusListError}
use swiyu_rs.StatusList.Bitstring.{StatusList}
use swiyu_rs.SdJwt.Statement.{StatementError, TrustStatement}
use swiyu_rs.Registries.Client.{RegistryError}
use swiyu_rs.Tool.Http.{FetchError}
use swiyu_rs.Tool.Resolve.{ResolveError}

pub data TrustError : Type 0 where
  trust_registry_url_missing trust_issuer_missing status_list_signature_invalid : TrustError
  statement : (n : ℕ) → StatementError → TrustError
  issuer_resolution : (iss reason : Text) → TrustError
  status_list_malformed : (url reason : Text) → TrustError
  status_list : StatusListError → TrustError
  registry : RegistryError → TrustError
  fetch : FetchError → TrustError
  resolve : ResolveError → TrustError
  did_doc : DidDocError → TrustError

-- `V` is the type of JSON values; a cache is a directory by its key.
pub record VerifyContext (V : Type 0) : Type 0 where
  pub expected_issuer : Text
  pub issuer_docs : Dir (DidDoc V)
  pub status_lists : Dir StatusList

pub data Check : Type 0 where
  ok_check fail_check skip_check : (message : Text) → Check

unfoldable pub passed : Check → Bool
passed (ok_check s) = true
passed (fail_check s) = false
passed (skip_check s) = false

pub record Report : Type 0 where
  pub statement : TrustStatement
  pub iss_check : Check
  pub signature_check : Check
  pub freshness_check : Check
  pub status_check : Check
  pub verdict : Bool
