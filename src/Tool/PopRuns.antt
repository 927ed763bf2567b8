-- ===== src/Tool/PopRuns.antt =====
-- The theorems at a concrete proof of possession.
use swiyu_rs.Prelude.{
  ℕ, ◌≡◌, refl, false, Option, some, List, [], ◌∷◌, ◌++◌, Result, ok, err, or_else, replicate,
  if◌then◌else◌, arith,
}
use swiyu_rs.Prelude.Text.{Text, text, text_eq, split, split_once, strip_prefix}
use swiyu_rs.Json.Access.{string, u64, json_object, as_str, as_u64, as_object}
use swiyu_rs.Json.Plain.{Tree, plain_json}
use swiyu_rs.Vendor.Plain.{plain_base64}
use swiyu_rs.Vendor.Samples.{
  sample_base58, sample_sha256, sample_ed25519, sample_p256, sample_json_text, sample_signature,
}
use swiyu_rs.Did.Identifier.{to_text}
use swiyu_rs.DidDoc.Multibase.{multibase_from_text}
use swiyu_rs.DidLog.Entry.{DidLogEntry}
use swiyu_rs.DidLog.Proof.{contains_key}
use swiyu_rs.DidLog.ProofLemmas.{did_key_url}
use swiyu_rs.DidLog.Chain.{authorized_keys, verify_log_sound}
use swiyu_rs.DidLog.Samples.{issuer, multikey, genesis, second, accepted}
use swiyu_rs.KeyStore.Entry.{KeyRole}
use swiyu_rs.Jws.Verify.{ed25519, alg_of, signature_verifies, key_verify}
use swiyu_rs.Tool.Log.{current_did}
use swiyu_rs.Tool.PopVerify.{
  PopError, kid_malformed, Context, did_key, parse_kid, multikey_bytes_of, decode_multikey,
  latest_update_keys, resolve_context,
}
use swiyu_rs.Tool.PopCheck.{
  PopArgs, Claims, decode_part_json, check_claims, check_signature, verify_pop,
}
use swiyu_rs.Tool.PopVerified.{SignatureHolds, ClaimsHold, verify_pop_sound}
use swiyu_rs.Tool.PopContext.{KeyByLog, resolve_context-LogVerified}

abbrev shown : ℕ → ℕ → Text
shown b0 b1 = b0 ∷ b1 ∷ []

abbrev header : Tree
header =
    json_object
      ((text "alg", string (text "EdDSA")) ∷ (text "kid", string (did_key_url multikey)) ∷ [])

abbrev payload : Tree
payload = json_object (
    (text "iss", string (to_text issuer))
    ∷ (text "iat", u64 100)
    ∷ (text "exp", u64 200)
    ∷ (text "nonce", string (text "n"))
    ∷ [])

-- JSON as one letter
abbrev read : List ℕ → Result Text Tree
read bytes = if text_eq bytes (text "h") then ok header else ok payload

abbrev no_keys : Text → Result PopError (KeyRole → Result PopError (List ℕ))
no_keys did = err (kid_malformed did)

abbrev jwt : Text
jwt = text "h.p." ++ sample_signature (text "h.p")

abbrev args : PopArgs
args = record { nonce = some (text "n"); allow_expired = false }

abbrev claims : Claims
claims = record { iss = to_text issuer; iat = 100; exp = 200; nonce = text "n"; is_expired = false }

abbrev loaded : Option (Result PopError (List (DidLogEntry Tree)))
loaded = some (ok (genesis ∷ second ∷ []))

abbrev context : Context
context = record { key = ed25519 (replicate 32 b'k'); iss_constraint = some (to_text issuer) }

resolved :
    resolve_context shown loaded no_keys (did_key_url multikey) (did_key multikey) ≡ ok context
unfolding resolve_context decode_multikey multikey_bytes_of multibase_from_text current_did
    contains_key latest_update_keys or_else as_str as_object to_text
resolved = refl

verify_pop-jwt : verify_pop read shown loaded no_keys args 150 jwt ≡ ok claims
unfolding verify_pop check_signature check_claims decode_part_json parse_kid resolve_context
    decode_multikey multikey_bytes_of multibase_from_text current_did contains_key
    latest_update_keys or_else as_str as_u64 as_object key_verify signature_verifies alg_of split
    split_once strip_prefix to_text
verify_pop-jwt = refl

verify_pop_sound_example :
    (context : Context) × (payload : Tree) × SignatureHolds read shown loaded no_keys jwt context
      payload
    × ClaimsHold context.iss_constraint args 150 payload claims
verify_pop_sound_example =
    verify_pop_sound read shown loaded no_keys args 150 jwt claims verify_pop-jwt

resolve_context-LogVerified_example :
    (context.iss_constraint ≡ some (to_text issuer))
    × KeyByLog shown
        (genesis ∷ second ∷ [])
        (authorized_keys (genesis ∷ second ∷ []) 2)
        (to_text issuer)
        (did_key_url multikey)
        (did_key multikey)
        context.key
resolve_context-LogVerified_example =
    resolve_context-LogVerified shown no_keys genesis (second ∷ []) issuer (did_key_url multikey)
      (did_key multikey) context
      (verify_log_sound (genesis ∷ second ∷ []) issuer (omega arith) accepted) resolved
