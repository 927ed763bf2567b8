-- ===== src/Tool/LoadVerified.antt =====
-- What a log is that `load_log` fetched for a DID.
use swiyu_rs.Prelude.{
  ◌<◌, ◌^◌, ◌≡◌, ◌⊎◌, refl, false, Option, none, some, ok, map_err, length, Ensures, returns, fails,
  Ensures-bind, Ensures-ok, map_err-eq-ok,
}
use swiyu_rs.Prelude.Text.{Text}
use swiyu_rs.Json.Interface.{Json}
use swiyu_rs.Vendor.Crypto.{Bs58, Sha256, Ed25519, JsonText}
use swiyu_rs.Vendor.Web.{Web}
use swiyu_rs.Did.Identifier.{Did}
use swiyu_rs.Did.Url.{log_url}
use swiyu_rs.DidLog.Chain.{LogVerified}
use swiyu_rs.DidLog.Jsonl.{try_from_jsonl}
use swiyu_rs.KeyStore.Dir.{Dir}
use swiyu_rs.KeyStore.Store.{Store}
use swiyu_rs.Tool.Http.{FetchOutcome, found, not_found, fetch_text}
use swiyu_rs.Tool.Load.{LoadedLog, fetched, fetch_log, read_log, load_log}
use swiyu_rs.Tool.Loaded.{verify_loaded_log_iff}
use swiyu_rs.Tool.Log.{starts_as_tdw, verify_loaded_log}
use swiyu_rs.Tool.Resolve.{resolve_did}

module _ ⦃w : Web⦄ where
  fetch_log_sound : (u : Text) → Ensures (λ s. fetch_text u ≡ ok (found s)) (fetch_log u)
  unfolding fetch_log
  fetch_log_sound u =
      Ensures-bind (map_err _ (fetch_text u)) _
        λ outcome e. of_outcome outcome (map_err-eq-ok _ (fetch_text u) e)
    where
      of_outcome :
          (outcome : FetchOutcome)
          → fetch_text u ≡ ok outcome
          → Ensures (λ s. fetch_text u ≡ ok (found s)) (fetched u outcome)
      of_outcome (found s) e = returns e
      of_outcome not_found e = fails

  -- The text is what the address of the DID serves.
  read_log_sound :
      (store : Store) (files : Dir Text) (target : Text)
      → Ensures
          (λ (read : Text × Option Text × Option Did).
            (did : Did) × (resolve_did store target ≡ ok did)
            × (fetch_text (log_url did) ≡ ok (found read.0))
            × (read.1 ≡ none)
            × (read.2 ≡ some did))
          (read_log store files (some target) none)
  unfolding read_log
  read_log_sound store files target =
      Ensures-bind (map_err _ (resolve_did store target)) _ λ did e1.
        Ensures-bind (fetch_log (log_url did)) _ λ s e2. returns (
          did,
          map_err-eq-ok _ (resolve_did store target) e1,
          Ensures-ok (fetch_log_sound (log_url did)) e2,
          refl,
          refl,
        )

module _ ⦃j : Json⦄ ⦃t : JsonText j⦄ ⦃b : Bs58⦄ ⦃s : Sha256⦄ ⦃c : Ed25519⦄ ⦃w : Web⦄ where
  open j use {Value}

  -- What a load for the DID of a target ensures
  pub record LoadedFor (store : Store) (target : Text) (loaded : LoadedLog Value) : Type 0 where
    pub did : Did
    pub served : Text
    pub resolved : resolve_did store target ≡ ok did
    pub fetched_eq : fetch_text (log_url did) ≡ ok (found served)
    pub parsed_eq : try_from_jsonl served ≡ ok loaded.log
    pub no_source : loaded.source_path ≡ none
    pub verified : (starts_as_tdw loaded.log ≡ false) ⊎ LogVerified loaded.log did

  load_log-LoadedFor :
      (store : Store) (files : Dir Text) (target : Text)
      → Ensures
          (λ (loaded : LoadedLog Value). length loaded.log < 2 ^ 32 → LoadedFor store target loaded)
          (load_log store files (some target) none)
  unfolding load_log
  load_log-LoadedFor store files target =
      Ensures-bind (read_log store files (some target) none) _ λ read e1.
        Ensures-bind (map_err _ (try_from_jsonl read.0)) _ λ log e2.
          Ensures-bind (map_err _ (verify_loaded_log log read.2)) _ λ _ e3.
            let (did, resolved, fetched_eq, no_source, asked) =
              Ensures-ok (read_log_sound store files target) e1 in
            let verified : verify_loaded_log log (some did) ≡ ok tt =
              rw (← asked) (map_err-eq-ok _ (verify_loaded_log log read.2) e3) in
            returns (λ fits. record {
              did = did;
              served = read.0;
              resolved = resolved;
              fetched_eq = fetched_eq;
              parsed_eq = map_err-eq-ok _ (try_from_jsonl read.0) e2;
              no_source = no_source;
              verified = (verify_loaded_log_iff log did fits).0 verified;
            })

  -- A log of fewer than 2^32 entries that is loaded for a DID parses from what the address of that DID
  -- serves, and it is a verified log of that DID or begins with no entry of did:tdw 0.3.
  pub load_log_sound :
      (store : Store) (files : Dir Text) (target : Text) (loaded : LoadedLog Value)
      → load_log store files (some target) none ≡ ok loaded
      → length loaded.log < 2 ^ 32
      → LoadedFor store target loaded
  load_log_sound store files target loaded h = Ensures-ok (load_log-LoadedFor store files target) h
