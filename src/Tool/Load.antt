-- ===== src/Tool/Load.antt =====
-- `load_log` of swiyu-didtool/src/cmd/didlog.rs.
use swiyu_rs.Prelude.{Option, none, some, List, Result, ok, err, ◌>>=◌, ok_or, map_err}
use swiyu_rs.Prelude.Text.{Text, text}
use swiyu_rs.Json.Interface.{Json}
use swiyu_rs.Vendor.Crypto.{Bs58, Sha256, Ed25519, JsonText}
use swiyu_rs.Vendor.Web.{Web}
use swiyu_rs.Did.Identifier.{Did}
use swiyu_rs.Did.Url.{log_url}
use swiyu_rs.DidLog.Error.{DidLogError}
use swiyu_rs.DidLog.Entry.{DidLogEntry}
use swiyu_rs.DidLog.Jsonl.{try_from_jsonl}
use swiyu_rs.DidLog.VerifyError.{VerifyError}
use swiyu_rs.KeyStore.Dir.{Dir, find}
use swiyu_rs.KeyStore.Store.{Store}
use swiyu_rs.Tool.Http.{FetchOutcome, found, not_found, FetchError, http_status, fetch_text}
use swiyu_rs.Tool.Log.{verify_loaded_log}
use swiyu_rs.Tool.Resolve.{ResolveError, resolve_did}
use swiyu_rs.Tool.Written.{collect_raw_lines}

-- The errors of loading; a file that is read is missing or is a text.
pub data LogError : Type 0 where
  ambiguous_source : LogError
  read_input : (path : Text) → LogError
  fetch_error : FetchError → LogError
  resolve_error : ResolveError → LogError
  log_parse : DidLogError → LogError
  verification : VerifyError → LogError

pub record LoadedLog (V : Type 0) : Type 0 where
  pub raw_lines : List Text
  pub log : List (DidLogEntry V)
  pub source_path : Option Text

abbrev default_input : Text
default_input = text "did.jsonl"

abbrev pub fetched : Text → FetchOutcome → Result LogError Text
fetched url (found s) = ok s
fetched url not_found = err (fetch_error (http_status url 404 (text "")))

abbrev path_or_default : Option Text → Text
path_or_default none = default_input
path_or_default (some path) = path

module _ ⦃w : Web⦄ where
  unfoldable pub fetch_log : Text → Result LogError Text
  fetch_log url = do outcome ← map_err fetch_error (fetch_text url); fetched url outcome

  -- The text of the log, the path that it was read from, and the DID that was asked for
  unfoldable pub read_log :
      Store
      → Dir Text
      → (did input : Option Text) → Result LogError (Text × Option Text × Option Did)
  unfolding fetch_log
  read_log store files (some target) (some path) = err ambiguous_source
  read_log store files (some target) none = do
    resolved ← map_err resolve_error (resolve_did store target)
    s ← fetch_log (log_url resolved)
    ok (s, none, some resolved)
  read_log store files none input = do
    let path = path_or_default input
    s ← ok_or (find files path) (read_input path)
    ok (s, some path, none)

module _ ⦃j : Json⦄ ⦃t : JsonText j⦄ ⦃b : Bs58⦄ ⦃s : Sha256⦄ ⦃c : Ed25519⦄ ⦃w : Web⦄ where
  open j use {Value}

  unfoldable pub load_log :
      Store → Dir Text → (did input : Option Text) → Result LogError (LoadedLog Value)
  unfolding read_log
  load_log store files did input = do
    (content, source_path, target_did) ← read_log store files did input
    log ← map_err log_parse (try_from_jsonl content)
    _ ← map_err verification (verify_loaded_log log target_did)
    ok (record { raw_lines = collect_raw_lines content; log = log; source_path = source_path })
