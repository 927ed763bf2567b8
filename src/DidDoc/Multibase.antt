-- ===== src/DidDoc/Multibase.antt =====
-- `PublicKeyMultibase`: key bytes as a base58btc multibase text.
use swiyu_rs.Prelude.{
  ℕ, ◌≡◌, List, [], ◌∷◌, ◌++◌, Result, ok, err, ◌>>=◌, map_err, ◌==◌, if◌then◌else◌, All,
}
use swiyu_rs.Prelude.Text.{Text, text}
use swiyu_rs.Prelude.Bytes.{IsByte}
use swiyu_rs.Vendor.Crypto.{Bs58}
use swiyu_rs.DidDoc.Error.{DidDocError, invalid_format}

pub record PublicKeyMultibase : Type 0 where
  pub key : List ℕ

-- `from_ed25519_bytes`
unfoldable pub from_ed25519_bytes : List ℕ → PublicKeyMultibase
from_ed25519_bytes bytes = record { key = 0xed ∷ 0x01 ∷ bytes }

abbrev undecodable : Text → DidDocError
undecodable e = invalid_format (text "invalid base58btc encoding: " ++ e)

module _ ⦃b : Bs58⦄ where
  unfoldable pub multibase_from_text : Text → Result DidDocError PublicKeyMultibase
  multibase_from_text [] = err (invalid_format (text "empty multibase string"))
  multibase_from_text (c ∷ rest) =
      if c == b'z'
      then (do key ← map_err undecodable (b.decode rest); ok (record { key = key }))
      else err (
          invalid_format (
            text "unsupported multibase prefix '"
            ++ c ∷ text "'; only 'z' (base58btc) is supported"))

  -- `Display`
  unfoldable pub multibase_to_text : PublicKeyMultibase → Text
  multibase_to_text k = b'z' ∷ b.encode k.key

  -- `ed25519_verifying_key_to_multikey`
  unfoldable pub ed25519_verifying_key_to_multikey : List ℕ → Text
  ed25519_verifying_key_to_multikey bytes = b'z' ∷ b.encode (0xed ∷ 0x01 ∷ bytes)

  -- Parsing the text of a multibase key gives the key back.
  pub multibase_from_text-to_text :
      (k : PublicKeyMultibase) → All IsByte k.key → multibase_from_text (multibase_to_text k) ≡ ok k
  unfolding multibase_from_text multibase_to_text
  multibase_from_text-to_text k h = simp (b.decode-encode k.key h)
