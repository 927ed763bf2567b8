-- ===== src/Tool/Runs.antt =====
-- The theorems at concrete logs.
use swiyu_rs.Prelude.{
  ◌≡◌, ◌≢◌, ◌↔◌, ◌⊎◌, refl, ap, true, false, none, some, [], ◌∷◌, Result, ok, or_else, replicate,
  All-replicate, arith,
}
use swiyu_rs.Prelude.Text.{Text, text, text_eq_refl, strip_prefix, split, split_once, Lacks}
use swiyu_rs.Prelude.Bytes.{IsByte}
use swiyu_rs.Json.Plain.{Tree, Members, plain_json, remove-insert}
use swiyu_rs.Vendor.Plain.{plain_base64}
use swiyu_rs.Vendor.Samples.{
  sample_base58, sample_sha256, sample_ed25519, sample_json_text, sample_signature,
  sample_signature-IsByte, leaves,
}
use swiyu_rs.Did.Identifier.{Did, to_text, is_valid_domain, is_valid_path}
use swiyu_rs.Did.Parse.{from_text, from_parts}
use swiyu_rs.DidDoc.Multibase.{ed25519_verifying_key_to_multikey}
use swiyu_rs.DidLog.Parameters.{tdw03, only_keys}
use swiyu_rs.DidLog.Entry.{DidLogEntry, entry_try_from}
use swiyu_rs.DidLog.Verify.{verify_log}
use swiyu_rs.DidLog.Chain.{LogVerified, last_announced}
use swiyu_rs.DidLog.Samples.{
  issuer, genesis, second, deactivation, accepted, deactivated, deactivation-parameters,
}
use swiyu_rs.Tool.Log.{verify_loaded_log, starts_as_tdw}
use swiyu_rs.Tool.Loaded.{verify_loaded_log_iff}
use swiyu_rs.Tool.Update.{
  SigningKey, UpdateError, StagedPublic, last, multikey_of, deactivate, rotate,
}
use swiyu_rs.Tool.Updated.{Works}
use swiyu_rs.Tool.Deactivated.{deactivate-verify_log}
use swiyu_rs.DidDoc.Document.{new}
use swiyu_rs.Tool.Rotated.{rotated_keys, rotate-verify_log, rotate-deactivated}

abbrev pub key : SigningKey
key = record { public_bytes = replicate 32 b'k'; signer = sample_signature }

pub key-Works : Works key
key-Works = record {
  verifying_key = key.public_bytes;
  public-IsByte = All-replicate IsByte 32 b'k' (omega arith);
  length-public = refl;
  from_bytes-public = refl;
  signer-IsByte = sample_signature-IsByte;
  length-signer = λ m. refl;
  verify-signer = λ m. text_eq_refl (sample_signature m);
}

pub jcs-remove :
    (m : Members) (k : Text) (v : Tree)
    → plain_json.get m k ≡ none
    → leaves (Tree.obj (plain_json.remove (plain_json.insert m k v) k)) ≡ leaves (Tree.obj m)
jcs-remove m k v h = ap (λ (n : Members). leaves (Tree.obj n)) (remove-insert m k v h)

pub multikey-Lacks : Lacks b'#' (multikey_of key)
unfolding ed25519_verifying_key_to_multikey
multikey-Lacks =
    (omega arith, (omega arith, (omega arith, All-replicate (λ d. d ≢ b'#') 32 b'k' (omega arith))))

from_text-issuer : from_text (to_text issuer) ≡ ok issuer
unfolding from_text from_parts to_text strip_prefix split_once is_valid_domain is_valid_path split
from_text-issuer = refl

abbrev the_key : Did → Result UpdateError SigningKey
the_key did = ok key

-- A rotation of all three keys
abbrev staged : StagedPublic
staged = record {
  authorized = replicate 32 b'n';
  authentication = record { x = replicate 32 1; y = replicate 32 2 };
  assertion = record { x = replicate 32 3; y = replicate 32 4 };
}

abbrev the_staged : Did → Result UpdateError StagedPublic
the_staged did = ok staged

deactivate-verify_log_example :
    (line : Tree) × (new : DidLogEntry Tree) × (deactivate the_key
        (genesis ∷ second ∷ [])
        (text "u")
      ≡ ok line)
    × (entry_try_from line ≡ ok new)
    × (new.parameters ≡ only_keys tdw03 [] (some true))
    × (verify_log (genesis ∷ second ∷ new ∷ []) issuer ≡ ok tt)
unfolding last last_announced or_else ed25519_verifying_key_to_multikey
deactivate-verify_log_example =
    deactivate-verify_log key key-Works jcs-remove the_key genesis (second ∷ []) issuer second
      (text "u") 0 (omega arith) accepted refl (λ e. cc) from_text-issuer refl multikey-Lacks refl

rotate-verify_log_example :
    (line : Tree) × (new : DidLogEntry Tree) × (rotate the_key the_staged
        (genesis ∷ second ∷ [])
        (text "u")
      ≡ ok line)
    × (entry_try_from line ≡ ok new)
    × (new.parameters.update_keys
        ≡ rotated_keys (multikey_of key) (ed25519_verifying_key_to_multikey staged.authorized))
    × (verify_log (genesis ∷ second ∷ new ∷ []) issuer ≡ ok tt)
unfolding last last_announced or_else ed25519_verifying_key_to_multikey
rotate-verify_log_example =
    rotate-verify_log key key-Works jcs-remove the_key the_staged genesis (second ∷ []) issuer
      second staged (text "u") 0 (omega arith) accepted refl from_text-issuer refl refl
      multikey-Lacks refl

rotate-deactivated_example :
    ((line : Tree) × (rotate the_key the_staged (genesis ∷ deactivation ∷ []) (text "u") ≡ ok line))
    × (verify_log (genesis ∷ deactivation ∷ second ∷ []) issuer ≢ ok tt)
unfolding last
rotate-deactivated_example =
    rotate-deactivated the_key the_staged genesis (deactivation ∷ []) issuer deactivation key staged
      (text "u") (text "1-Qe") (text "t") (new (text "did:tdw:Qi:e.org")) second (omega arith)
      deactivated refl deactivation-parameters from_text-issuer refl refl

verify_loaded_log_iff_example :
    (verify_loaded_log (genesis ∷ second ∷ []) (some issuer) ≡ ok tt)
    ↔ ((starts_as_tdw (genesis ∷ second ∷ []) ≡ false) ⊎ LogVerified (genesis ∷ second ∷ []) issuer)
verify_loaded_log_iff_example = verify_loaded_log_iff (genesis ∷ second ∷ []) issuer (omega arith)
