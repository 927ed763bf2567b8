-- ===== src/Vendor/Crypto.antt =====
-- bs58, multihash and ed25519-dalek, and the text forms of JSON that serde_json and serde_jcs write.
-- A failure answers the text of its error.
use swiyu_rs.Prelude.{ℕ, ◌≡◌, Bool, List, Result, ok, All, length}
use swiyu_rs.Prelude.Text.{Text}
use swiyu_rs.Prelude.Bytes.{IsByte}
use swiyu_rs.Json.Interface.{Json}

pub record Bs58 : Type 0 where
  pub encode : List ℕ → Text
  pub decode : Text → Result Text (List ℕ)
  pub decode-encode : (b : List ℕ) → All IsByte b → decode (encode b) ≡ ok b

-- `Code::Sha2_256.digest(b)`: its bytes, and those of the multihash.
pub record Sha256 : Type 0 where
  pub digest : List ℕ → List ℕ
  pub multihash : List ℕ → List ℕ
  pub length-digest : (b : List ℕ) → length (digest b) ≡ 32

pub record Ed25519 : Type 1 where
  pub VerifyingKey : Type 0
  pub from_bytes : List ℕ → Result Text VerifyingKey
  pub verify : VerifyingKey → List ℕ → List ℕ → Bool

pub record JsonText (j : Json) : Type 0 where
  pub to_string : j.Value → Result Text Text
  pub from_str : Text → Result Text j.Value
  pub jcs : j.Value → List ℕ

-- The p256 crate's ECDSA keys; a signature is its bytes, and one that is none does not verify.
pub record P256 : Type 1 where
  pub VerifyingKey : Type 0
  pub from_sec1_bytes : List ℕ → Result Text VerifyingKey
  pub verify : VerifyingKey → List ℕ → List ℕ → Bool
