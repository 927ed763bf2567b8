-- ===== src/Vendor/Samples.antt =====
-- Concrete primitives: base58 as the bytes themselves, a checksum for SHA-256, signatures that repeat
-- a checksum, and JSON written as the text of its leaves.
use swiyu_rs.Prelude.{
  ℕ, ◌+◌, ◌%◌, List, [], ◌∷◌, ◌++◌, ok, replicate, length-replicate, All, All-replicate, arith,
}
use swiyu_rs.Prelude.Bytes.{IsByte}
use swiyu_rs.Prelude.Text.{Text, text_eq}
use swiyu_rs.Json.Plain.{Tree, Items, Members, plain_json}
use swiyu_rs.Vendor.Plain.{as_bytes, as_bytes-ok}
use swiyu_rs.Vendor.Crypto.{Bs58, Sha256, Ed25519, P256, JsonText}

abbrev sum : List ℕ → ℕ
sum [] = 0
sum (x ∷ xs) = x + sum xs

unfoldable mutual
  pub leaves : Tree → Text
  leaves (Tree.str s) = s
  leaves (Tree.arr ts) = item_leaves ts
  leaves (Tree.obj ms) = member_leaves ms
  leaves t = []

  pub item_leaves : Items → Text
  item_leaves Items.nil = []
  item_leaves (Items.cons t ts) = leaves t ++ item_leaves ts

  pub member_leaves : Members → Text
  member_leaves Members.done = []
  member_leaves (Members.entry k t ms) = k ++ leaves t ++ member_leaves ms

instance abbrev pub sample_base58 : Bs58
sample_base58 = record { encode = λ b. b; decode = as_bytes; decode-encode = as_bytes-ok }

instance abbrev pub sample_sha256 : Sha256
sample_sha256 = record {
  digest = λ b. replicate 32 (sum b % 256);
  multihash = λ b. b'Q' ∷ (b'a' + sum b % 26) ∷ [];
  length-digest = λ b. length-replicate 32 (sum b % 256);
}

-- The signature of a message, by any key.
abbrev pub sample_signature : List ℕ → List ℕ
sample_signature m = replicate 64 (sum m % 256)

pub sample_signature-IsByte : (m : List ℕ) → All IsByte (sample_signature m)
sample_signature-IsByte m = All-replicate IsByte 64 (sum m % 256) (omega arith)

instance abbrev pub sample_ed25519 : Ed25519
sample_ed25519 = record {
  VerifyingKey = List ℕ;
  from_bytes = ok;
  verify = λ vk message signature. text_eq (sample_signature message) signature;
}

instance abbrev pub sample_p256 : P256
sample_p256 = record {
  VerifyingKey = List ℕ;
  from_sec1_bytes = ok;
  verify = λ vk message signature. text_eq (sample_signature message) signature;
}

instance abbrev pub sample_json_text : JsonText plain_json
sample_json_text = record {
  to_string = λ v. ok (leaves v);
  from_str = λ s. ok (Tree.str s);
  jcs = leaves;
}
