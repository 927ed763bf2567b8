-- ===== src/Vendor/Encoding.antt =====
-- The base64 crate's `URL_SAFE_NO_PAD` engine and flate2's zlib codec at the default level. A failed
-- decoding answers the text of its error.
use swiyu_rs.Prelude.{ℕ, ◌≡◌, List, Result, ok, All}
use swiyu_rs.Prelude.Text.{Text}
use swiyu_rs.Prelude.Bytes.{IsByte}

pub record Base64 : Type 0 where
  pub encode : List ℕ → Text
  pub decode : Text → Result Text (List ℕ)
  pub decode-encode : (b : List ℕ) → All IsByte b → decode (encode b) ≡ ok b
  pub decode-IsByte : (s : Text) (b : List ℕ) → decode s ≡ ok b → All IsByte b

pub record Zlib : Type 0 where
  pub compress : List ℕ → List ℕ
  pub decompress : List ℕ → Result Text (List ℕ)
  pub compress-IsByte : (b : List ℕ) → All IsByte (compress b)
  pub decompress-compress : (b : List ℕ) → All IsByte b → decompress (compress b) ≡ ok b
  pub decompress-IsByte : (z b : List ℕ) → decompress z ≡ ok b → All IsByte b
