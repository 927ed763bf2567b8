-- ===== src/DidLog/Proof.antt =====
-- The check of an entry's proof in swiyu-core/src/didlog/verify.rs.
use swiyu_rs.Prelude.{
  ℕ, ◌/◌, ◌%◌, ◌+◌, ◌-◌, Bool, false, ◌&&◌, ◌||◌, Option, none, some, List, [], ◌∷◌, ◌++◌,
}
use swiyu_rs.Prelude.{
  Result, ok, err, ◌>>=◌, ◌>>◌, guard, ok_or, map_err, and_then, if◌then◌else◌, ltb, ◌==◌, length,
}
use swiyu_rs.Prelude.Text.{Text, text, text_eq, strip_prefix, split_once}
use swiyu_rs.Prelude.Decimal.{decimal}
use swiyu_rs.Json.Interface.{Json}
use swiyu_rs.Json.Access.{as_str, as_object, object}
use swiyu_rs.Vendor.Crypto.{Bs58, Sha256, Ed25519, JsonText}
use swiyu_rs.DidDoc.Error.{error_text}
use swiyu_rs.DidDoc.Multibase.{multibase_from_text}
use swiyu_rs.DidLog.Hash.{eddsa_jcs_2022_hash}
use swiyu_rs.DidLog.VerifyError.{
  VerifyError, missing_proof, malformed_proof, proof_key_not_authorized, signature_invalid,
}

abbrev same_keys : Text × Text → Option Text
same_keys (mk1, mk2) = if text_eq mk1 mk2 then some mk1 else none

unfoldable pub parse_did_key_vm : Text → Option Text
parse_did_key_vm vm =
    and_then (strip_prefix (text "did:key:") vm) (λ rest. and_then (split_once b'#' rest) same_keys)

-- `keys.iter().any(|k| k == multikey)`
unfoldable pub contains_key : List Text → Text → Bool
contains_key [] multikey = false
contains_key (k ∷ keys) multikey = text_eq k multikey || contains_key keys multikey

-- `{:02x}` of a byte
abbrev hex_digit : ℕ → ℕ
hex_digit d = if ltb d 10 then d + b'0' else d - 10 + b'a'

abbrev hex_byte : ℕ → Text
hex_byte n = hex_digit (n / 16) ∷ hex_digit (n % 16) ∷ []

abbrev wrong_length : List ℕ → Text
wrong_length bytes = text "Ed25519 multikey must decode to 34 bytes, got " ++ decimal (length bytes)

unfoldable pub ed25519_key_of : List ℕ → Result Text (List ℕ)
ed25519_key_of (b0 ∷ b1 ∷ key) =
    guard (length (b0 ∷ b1 ∷ key) == 34) (wrong_length (b0 ∷ b1 ∷ key))
    >> (guard ((b0 == 0xed) && (b1 == 0x01))
          (text "multikey is not Ed25519 (multicodec " ++ hex_byte b0 ++ hex_byte b1 ++ text ")")
        >> ok key)
ed25519_key_of bytes = err (wrong_length bytes)

module _ ⦃b : Bs58⦄ where
  unfoldable pub decode_ed25519_multikey : Text → Result Text (List ℕ)
  unfolding ed25519_key_of
  decode_ed25519_multikey s = do
    mb ← map_err error_text (multibase_from_text s)
    ed25519_key_of mb.key

  unfoldable pub decode_multibase_z : Text → Result Text (List ℕ)
  decode_multibase_z s = do
    rest ←
        ok_or (strip_prefix (text "z") s)
          (text "not a base58btc multibase string (no 'z' prefix): '" ++ s ++ text "'")
    map_err (λ e. text "base58 decode failed: " ++ e) (b.decode rest)

-- `proofs.is_empty()`, `&proofs[0]`
abbrev pub first_proof {ℓ} : {A : Type ℓ} → ℕ → List A → Result VerifyError A
first_proof i [] = err (missing_proof i)
first_proof i (proof ∷ rest) = ok proof

module _ ⦃j : Json⦄ ⦃t : JsonText j⦄ ⦃b : Bs58⦄ ⦃s : Sha256⦄ ⦃c : Ed25519⦄ where
  open j use {Value, Map, get, remove}

  abbrev pub string_member : Map → Text → Option Text
  string_member m k = and_then (get m k) as_str

  unfoldable pub verify_proof : ℕ → List Value → Value → List Text → Result VerifyError (Unit {0})
  verify_proof i proofs document auth_keys = do
    proof ← first_proof i proofs
    proof_obj ← ok_or (as_object proof) (malformed_proof i (text "proof is not an object"))
    vm ←
        ok_or (string_member proof_obj (text "verificationMethod"))
          (malformed_proof i (text "verificationMethod missing or not a string"))
    multikey ←
        ok_or (parse_did_key_vm vm) (
          malformed_proof i
            (text "verificationMethod '" ++ vm ++ text "' is not did:key:<mk>#<mk>"))
    _ ← guard (contains_key auth_keys multikey) (proof_key_not_authorized i vm multikey)
    vk_bytes ← map_err (malformed_proof i) (decode_ed25519_multikey multikey)
    vk ←
        map_err (λ e. malformed_proof i (text "invalid Ed25519 verifying key: " ++ e))
          (c.from_bytes vk_bytes)
    let config = remove proof_obj (text "proofValue")
    let hash_data = eddsa_jcs_2022_hash document (object config)
    proof_value ←
        ok_or (string_member proof_obj (text "proofValue"))
          (malformed_proof i (text "proofValue missing or not a string"))
    signature ← map_err (malformed_proof i) (decode_multibase_z proof_value)
    _ ← guard (length signature == 64) (
        malformed_proof i
          (text "proofValue must decode to 64 bytes, got " ++ decimal (length signature)))
    guard (c.verify vk hash_data signature) (signature_invalid i)
