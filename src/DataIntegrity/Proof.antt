-- ===== src/DataIntegrity/Proof.antt =====
-- `DataIntegrityProof`: signing, the encoding of the signature, and the JSON of a proof.
use swiyu_rs.Prelude.{ℕ, ◌≡◌, List, ◌++◌, Result, ok, ◌>>=◌, guard, ok_or, map_err, All}
use swiyu_rs.Prelude.Text.{Text, text, text_eq, strip_prefix}
use swiyu_rs.Prelude.Bytes.{IsByte}
use swiyu_rs.Json.Interface.{Json}
use swiyu_rs.Json.Access.{as_str, as_object, string, object, json_laws}
use swiyu_rs.Vendor.Crypto.{Bs58, Sha256, JsonText}
use swiyu_rs.DataIntegrity.Error.{ProofError, missing_field, invalid_field, invalid_encoding}
use swiyu_rs.DataIntegrity.Config.{
  ProofConfig, suite_from_text, purpose_from_text, suite_from_text-text, purpose_from_text-text,
  config_members, signing_input,
}

pub record DataIntegrityProof : Type 0 where
  pub config : ProofConfig
  pub proof_value : Text

module _ ⦃b : Bs58⦄ where
  unfoldable pub from_signature : ProofConfig → List ℕ → DataIntegrityProof
  from_signature config signature = record {
    config = config;
    proof_value = text "z" ++ b.encode signature;
  }

  unfoldable pub decode_signature : DataIntegrityProof → Result ProofError (List ℕ)
  decode_signature p = do
    stripped ←
        ok_or (strip_prefix (text "z") p.proof_value)
          (invalid_encoding (text "proofValue does not start with multibase-z prefix"))
    map_err (λ e. invalid_encoding (text "bs58 decode failed: " ++ e)) (b.decode stripped)

module _ ⦃j : Json⦄ ⦃t : JsonText j⦄ ⦃b : Bs58⦄ ⦃s : Sha256⦄ where
  open j use {Value}

  -- `signer` is the key's signing function: the bytes of the signature of a message.
  unfoldable pub sign : (signer : List ℕ → List ℕ) → Value → ProofConfig → DataIntegrityProof
  unfolding from_signature signing_input
  sign signer document config = from_signature config (signer (signing_input config document))

  -- The signature that a signed proof decodes to is the signer's, of the signing input of the document
  -- under the proof's own options, if the signer makes bytes.
  pub decode_signature-sign :
      (signer : List ℕ → List ℕ) (document : Value) (config : ProofConfig)
      → ((m : List ℕ) → All IsByte (signer m))
      → decode_signature (sign signer document config)
        ≡ ok (signer (signing_input (sign signer document config).config document))
  unfolding decode_signature sign strip_prefix
  decode_signature-sign signer document config h =
      simp (b.decode-encode (signer (signing_input config document)) (h _))

module _ ⦃j : Json⦄ where
  open j use {Value, Map, get, insert}

  -- `string_field`
  unfoldable pub required_string : Map → Text → Result ProofError Text
  required_string obj field = do
    v ← ok_or (get obj field) (missing_field field)
    ok_or (as_str v) (invalid_field field (text "must be a string"))

  unfoldable pub proof_to_value : DataIntegrityProof → Value
  unfolding config_members
  proof_to_value p =
      object (insert (config_members p.config) (text "proofValue") (string p.proof_value))

  unfoldable pub proof_try_from : Value → Result ProofError DataIntegrityProof
  proof_try_from v = do
    obj ← ok_or (as_object v) (invalid_field (text "<proof>") (text "proof is not a JSON object"))
    proof_type ← required_string obj (text "type")
    _ ← guard (text_eq proof_type (text "DataIntegrityProof")) (
        invalid_field (text "type")
          (text "expected 'DataIntegrityProof', got '" ++ proof_type ++ text "'"))
    suite ← required_string obj (text "cryptosuite")
    cryptosuite ← suite_from_text suite
    verification_method ← required_string obj (text "verificationMethod")
    purpose ← required_string obj (text "proofPurpose")
    proof_purpose ← purpose_from_text purpose
    challenge ← required_string obj (text "challenge")
    created ← required_string obj (text "created")
    proof_value ← required_string obj (text "proofValue")
    ok (record {
      config = record {
        cryptosuite = cryptosuite;
        verification_method = verification_method;
        proof_purpose = proof_purpose;
        challenge = challenge;
        created = created;
      };
      proof_value = proof_value;
    })

  -- A proof parses back from its JSON.
  pub proof_try_from-to_value : (p : DataIntegrityProof) → proof_try_from (proof_to_value p) ≡ ok p
  unfolding proof_try_from proof_to_value required_string
  proof_try_from-to_value p = simp (json_laws, suite_from_text-text, purpose_from_text-text)
