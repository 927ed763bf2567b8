-- ===== src/Tool/PopCreateRuns.antt =====
-- A proof of possession that the tool makes at a concrete store and log.
use swiyu_rs.Prelude.{
  ℕ, ◌+◌, ◌≡◌, ◌≢◌, refl, none, some, List, [], ◌∷◌, Result, ok, err, replicate, All-replicate,
  arith, ◌<◌, false, if◌then◌else◌,
}
use swiyu_rs.Prelude.Text.{Text, text, text_eq, text_eq_refl, Lacks}
use swiyu_rs.Json.Plain.{Tree, Members, plain_json}
use swiyu_rs.Vendor.Plain.{plain_base64}
use swiyu_rs.Vendor.Samples.{
  sample_base58, sample_sha256, sample_ed25519, sample_p256, sample_json_text, sample_signature,
  sample_signature-IsByte,
}
use swiyu_rs.Did.Identifier.{to_text}
use swiyu_rs.DidDoc.Multibase.{ed25519_verifying_key_to_multikey}
use swiyu_rs.DidLog.ProofLemmas.{did_key_url}
use swiyu_rs.DidLog.Chain.{verify_log_sound}
use swiyu_rs.DidLog.Samples.{issuer, genesis, second, accepted}
use swiyu_rs.KeyStore.Entry.{
  KeyFormats, KeyRole, authorized, EntryDir, load_eddsa, key_text, resolve_version, key_file,
  key_role_file_stem,
}
use swiyu_rs.KeyStore.Dir.{find}
use swiyu_rs.Prelude.Digits.{pad4}
use swiyu_rs.KeyStore.Store.{Blake3, Handle, Store, lookup_by_hash}
use swiyu_rs.Tool.Resolve.{resolve_entry}
use swiyu_rs.Tool.PopCommand.{verify_pop-cmd_create_pop}
use swiyu_rs.Prelude.Decimal.{decimal}
use swiyu_rs.Prelude.{or_else}
use swiyu_rs.DidLog.Chain.{last_announced}
use swiyu_rs.Tool.PopVerify.{PopError, kid_malformed}
use swiyu_rs.Tool.PopCheck.{PopArgs, verify_pop}
use swiyu_rs.Tool.PopCreate.{Signing, pop_header, pop_payload, cmd_create_pop}
use swiyu_rs.Tool.PopAccepted.{Written, as_signing_key}
use swiyu_rs.Tool.Update.{multikey_of}
use swiyu_rs.Tool.Updated.{Works}

abbrev unpem : Text → Result Text Text
unpem [] = err (text "empty")
unpem (c ∷ s) = ok s

instance abbrev text_formats : KeyFormats
text_formats = record {
  Ed25519Key = Text;
  Ed25519PublicKey = Text;
  P256Key = Text;
  P256VerifyingKey = Text;
  ed25519_public = λ k. k;
  p256_public = λ k. k;
  ed25519_private_pem = λ k. b'e' ∷ k;
  ed25519_public_pem = λ k. b'E' ∷ k;
  p256_private_pem = λ k. b'p' ∷ k;
  p256_public_pem = λ k. b'P' ∷ k;
  parse_ed25519 = unpem;
  parse_p256 = unpem;
  parse_ed25519-private_pem = λ k. refl;
  parse_p256-private_pem = λ k. refl;
}

instance abbrev text_hash : Blake3
text_hash = record { hex = λ s. replicate 64 b'a'; length-hex = λ s. refl }

instance abbrev text_signing : Signing
text_signing = record {
  ed25519_bytes = λ k. k;
  ed25519_sign = λ k. sample_signature;
  p256_sign = λ k. sample_signature;
}

abbrev the_key : Text
the_key = replicate 32 b'k'

the_key-Works : Works (as_signing_key the_key)
the_key-Works = record {
  verifying_key = the_key;
  public-IsByte = All-replicate (λ b. b < 256) 32 b'k' (omega arith);
  length-public = refl;
  from_bytes-public = refl;
  signer-IsByte = sample_signature-IsByte;
  length-signer = λ m. refl;
  verify-signer = λ m. text_eq_refl (sample_signature m);
}

abbrev kid : Text
kid = did_key_url (multikey_of (as_signing_key the_key))

abbrev header : Tree
header = pop_header (text "EdDSA") kid

abbrev payload : Tree
payload = pop_payload (to_text issuer) 100 (100 + 100) (text "n")

-- JSON as one letter: a header has an `alg` first.
abbrev letter : Tree → List ℕ
letter (Tree.obj (Members.entry k v ms)) = if text_eq k (text "alg") then text "h" else text "p"
letter v = text "v"

abbrev read : List ℕ → Result Text Tree
read bytes = if text_eq bytes (text "h") then ok header else ok payload

header-Written : Written read letter header
header-Written = record {
  written-IsByte = (omega arith, tt);
  read_back = refl;
  no_dot = (omega arith, tt);
}

payload-Written : Written read letter payload
unfolding to_text
payload-Written = record {
  written-IsByte = (omega arith, tt);
  read_back = refl;
  no_dot = (omega arith, tt);
}

-- An entry with one snapshot
abbrev dir : EntryDir
dir = record {
  did_txt = some (to_text issuer);
  snapshots = (text "0001", (text "authorized-private.pem", b'e' ∷ the_key) ∷ []) ∷ [];
}

abbrev entry : Handle
entry = record { hash = text "aaaaaaaaaaaa"; did = to_text issuer }

abbrev shown : ℕ → ℕ → Text
shown b0 b1 = b0 ∷ b1 ∷ []

abbrev no_keys : Text → Result PopError (KeyRole → Result PopError (List ℕ))
no_keys did = err (kid_malformed did)

abbrev args : PopArgs
args = record { nonce = some (text "n"); allow_expired = false }

loaded : load_eddsa entry.hash dir authorized (some 1) ≡ ok the_key
unfolding load_eddsa key_text resolve_version find pad4 key_file key_role_file_stem decimal
loaded = refl

multikey-Lacks : Lacks b'#' (multikey_of (as_signing_key the_key))
unfolding ed25519_verifying_key_to_multikey
multikey-Lacks =
    (omega arith, (omega arith, (omega arith, All-replicate (λ d. d ≢ b'#') 32 b'k' (omega arith))))

abbrev store : Store
store = (text "aaaaaaaaaaaa", dir) ∷ []

found : resolve_entry store (text "aaaaaaaaaaaa") ≡ ok entry
unfolding resolve_entry find lookup_by_hash to_text
found = refl

verify_pop-cmd_create_pop_example :
    (jwt : Text) × (cmd_create_pop letter store []
        (record {
          did = text "aaaaaaaaaaaa";
          role = authorized;
          nonce = some (text "n");
          ttl = 100;
          version = some 1;
          out = none;
          force = false;
        })
        (text "g")
        100
      ≡ ok (jwt, []))
    × (verify_pop read shown (some (ok (genesis ∷ second ∷ []))) no_keys args 150 jwt
        ≡ ok (record {
          iss = to_text issuer;
          iat = 100;
          exp = 100 + 100;
          nonce = text "n";
          is_expired = false;
        }))
unfolding ed25519_verifying_key_to_multikey last_announced or_else find
verify_pop-cmd_create_pop_example =
    verify_pop-cmd_create_pop read letter shown no_keys store [] (text "aaaaaaaaaaaa")
      (some (text "n")) (text "g") entry dir (some 1) the_key the_key-Works genesis (second ∷ [])
      issuer 0 args 100 100 150 found refl loaded refl
      (verify_log_sound (genesis ∷ second ∷ []) issuer (omega arith) accepted) refl multikey-Lacks
      header-Written payload-Written (All-replicate (λ d. d ≢ b'.') 64 6 (omega arith)) refl
      (omega arith) (omega arith) (omega arith) (omega arith)
