-- ===== src/DataIntegrity/Runs.antt =====
-- The theorems at a concrete proof.
use swiyu_rs.Prelude.{ℕ, ◌≡◌, List, ok, arith, All-replicate, replicate}
use swiyu_rs.Prelude.{refl, ap, [], ◌∷◌, ◌≢◌}
use swiyu_rs.Prelude.Text.{Text, text, text_eq_refl}
use swiyu_rs.DidDoc.Multibase.{ed25519_verifying_key_to_multikey}
use swiyu_rs.DidLog.ProofLemmas.{did_key_url}
use swiyu_rs.DidLog.Proof.{verify_proof}
use swiyu_rs.DataIntegrity.Verifies.{verify_proof-sign}
use swiyu_rs.Json.Plain.{Members, remove-insert}
use swiyu_rs.Vendor.Samples.{sample_ed25519, sample_signature, sample_signature-IsByte, leaves}
use swiyu_rs.Prelude.Bytes.{IsByte}
use swiyu_rs.Json.Access.{string}
use swiyu_rs.Json.Plain.{Tree, plain_json}
use swiyu_rs.Vendor.Samples.{sample_base58, sample_sha256, sample_json_text}
use swiyu_rs.DataIntegrity.Config.{ProofConfig, eddsa_jcs_2022, authentication}
use swiyu_rs.DataIntegrity.Proof.{sign, proof_to_value, proof_try_from, proof_try_from-to_value}

abbrev key : List ℕ
key = replicate 32 b'k'

abbrev multikey : Text
multikey = b'z' ∷ 0xed ∷ 0x01 ∷ key

abbrev config : ProofConfig
config = record {
  cryptosuite = eddsa_jcs_2022;
  verification_method = did_key_url multikey;
  proof_purpose = authentication;
  challenge = text "1-Qa";
  created = text "2025-01-01T00:00:00Z";
}

abbrev document : Tree
document = string (text "document")

proof_try_from-to_value_example :
    proof_try_from (proof_to_value (record { config = config; proof_value = text "z7" }))
    ≡ ok (record { config = config; proof_value = text "z7" })
proof_try_from-to_value_example =
    proof_try_from-to_value (record { config = config; proof_value = text "z7" })

verify_proof-sign_example :
    verify_proof 0
      (proof_to_value (sign sample_signature document config) ∷ [])
      document
      (text "zother" ∷ multikey ∷ [])
    ≡ ok tt
unfolding ed25519_verifying_key_to_multikey
verify_proof-sign_example =
    verify_proof-sign key key sample_signature (All-replicate IsByte 32 b'k' (omega arith)) refl
      refl sample_signature-IsByte (λ m. refl) (λ m. text_eq_refl (sample_signature m))
      (λ m k v h. ap (λ (n : Members). leaves (Tree.obj n)) (remove-insert m k v h)) 0 [] document
      config (text "zother" ∷ multikey ∷ []) 1 refl
      (
        omega arith,
        (omega arith, (omega arith, All-replicate (λ d. d ≢ b'#') 32 b'k' (omega arith))),
      )
      refl
