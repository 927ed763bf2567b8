-- ===== src/DidLog/Hash.antt =====
-- swiyu-core/src/didlog/scid.rs: the hashes of an entry, and the hash that a proof signs.
use swiyu_rs.Prelude.{ℕ, List, ◌++◌}
use swiyu_rs.Prelude.Text.{Text}
use swiyu_rs.Json.Interface.{Json}
use swiyu_rs.Vendor.Crypto.{Bs58, Sha256, JsonText}

module _ ⦃j : Json⦄ ⦃t : JsonText j⦄ ⦃b : Bs58⦄ ⦃s : Sha256⦄ where
  open j use {Value}

  unfoldable pub hash_log_entry : Value → Text
  hash_log_entry v = b.encode (s.multihash (t.jcs v))

  unfoldable pub derive_scid : Value → Text
  derive_scid preliminary_entry = hash_log_entry preliminary_entry

  unfoldable pub derive_entry_hash : Value → Text
  derive_entry_hash entry = hash_log_entry entry

module _ ⦃j : Json⦄ ⦃t : JsonText j⦄ ⦃s : Sha256⦄ where
  open j use {Value}

  -- The hash of the proof's options comes first, whatever the order of the arguments.
  unfoldable pub eddsa_jcs_2022_hash : Value → Value → List ℕ
  eddsa_jcs_2022_hash document proof_config =
      s.digest (t.jcs proof_config) ++ s.digest (t.jcs document)
