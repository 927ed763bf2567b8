-- ===== src/DataIntegrity/Config.antt =====
-- The options of a proof: `Cryptosuite`, `ProofPurpose` and `ProofConfig`.
use swiyu_rs.Prelude.{ℕ, ◌≡◌, refl, List, [], ◌∷◌, Result, ok, err, if◌then◌else◌}
use swiyu_rs.Prelude.Text.{Text, text, text_eq}
use swiyu_rs.Json.Interface.{Json}
use swiyu_rs.Json.Access.{string, insert_all, object}
use swiyu_rs.Vendor.Crypto.{Sha256, JsonText}
use swiyu_rs.DidLog.Hash.{eddsa_jcs_2022_hash}
use swiyu_rs.DataIntegrity.Error.{ProofError, unknown_cryptosuite, unknown_proof_purpose}

pub data Cryptosuite : Type 0 where
  eddsa_jcs_2022 : Cryptosuite

pub data ProofPurpose : Type 0 where
  authentication assertion_method : ProofPurpose

pub record ProofConfig : Type 0 where
  pub cryptosuite : Cryptosuite
  pub verification_method : Text
  pub proof_purpose : ProofPurpose
  pub challenge : Text
  pub created : Text

unfoldable pub suite_text : Cryptosuite → Text
suite_text eddsa_jcs_2022 = text "eddsa-jcs-2022"

unfoldable pub suite_from_text : Text → Result ProofError Cryptosuite
suite_from_text s =
    if text_eq s (text "eddsa-jcs-2022") then ok eddsa_jcs_2022 else err (unknown_cryptosuite s)

unfoldable pub purpose_text : ProofPurpose → Text
purpose_text authentication = text "authentication"
purpose_text assertion_method = text "assertionMethod"

unfoldable pub purpose_from_text : Text → Result ProofError ProofPurpose
purpose_from_text s =
    if text_eq s (text "authentication")
    then ok authentication
    else if text_eq s (text "assertionMethod")
    then ok assertion_method
    else err (unknown_proof_purpose s)

pub suite_from_text-text : (c : Cryptosuite) → suite_from_text (suite_text c) ≡ ok c
unfolding suite_from_text suite_text
suite_from_text-text eddsa_jcs_2022 = refl

pub purpose_from_text-text : (p : ProofPurpose) → purpose_from_text (purpose_text p) ≡ ok p
unfolding purpose_from_text purpose_text
purpose_from_text-text authentication = refl
purpose_from_text-text assertion_method = refl

module _ ⦃j : Json⦄ where
  open j use {Value, Map, empty}

  -- The object of `From<ProofConfig> for Value`
  unfoldable pub config_members : ProofConfig → Map
  config_members c = insert_all empty (
      (text "type", string (text "DataIntegrityProof"))
      ∷ (text "cryptosuite", string (suite_text c.cryptosuite))
      ∷ (text "verificationMethod", string c.verification_method)
      ∷ (text "proofPurpose", string (purpose_text c.proof_purpose))
      ∷ (text "challenge", string c.challenge)
      ∷ (text "created", string c.created)
      ∷ [])

  unfoldable pub config_to_value : ProofConfig → Value
  unfolding config_members
  config_to_value c = object (config_members c)

module _ ⦃j : Json⦄ ⦃t : JsonText j⦄ ⦃s : Sha256⦄ where
  open j use {Value}

  unfoldable pub signing_input : ProofConfig → Value → List ℕ
  signing_input c document = elim c.cryptosuite [
    | eddsa_jcs_2022 ↦ eddsa_jcs_2022_hash document (config_to_value c)
  ]
