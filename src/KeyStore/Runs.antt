-- ===== src/KeyStore/Runs.antt =====
-- The theorems at a concrete store.
use swiyu_rs.Prelude.{
  ◌≡◌, ◌≢◌, refl, true, none, some, [], ◌∷◌, Result, ok, err, All, arith, ℕ, ◌+◌, ◌%◌, ◌⊎◌, false,
  replicate, length-replicate, if◌then◌else◌,
}
use swiyu_rs.Prelude.Text.{Text, text, text_eq}
use swiyu_rs.Prelude.Trim.{trim, trim_start, trim_end}
use swiyu_rs.KeyStore.Dir.{find, put}
use swiyu_rs.KeyStore.Entry.{
  KeyFormats, already_exists, mismatch, authorized, authentication, assertion, EntryDir, StagedKeys,
  latest_version, newest, newer, version_of_name, key_text, load_eddsa, load_ecdsa, add_version,
  write_keys,
}
use swiyu_rs.KeyStore.Store.{Blake3, Handle, Store, did_to_hash, first_dir, commit, lookup, exists}
use swiyu_rs.KeyStore.Snapshots.{add_version-latest, add_version-overflow}
use swiyu_rs.KeyStore.Reachable.{
  Reachable, created, committed, IsWhole, Reachable-IsWhole, lookup-Reachable, commit-lookup,
}

-- Keys as texts, their PEM the key behind one letter, and a hash of one digit, that of the
-- first character.
abbrev unpem : Text → Result Text Text
unpem [] = err (text "empty")
unpem (c ∷ s) = ok s

instance abbrev sample_formats : KeyFormats
sample_formats = record {
  Ed25519Key = Text;
  Ed25519PublicKey = Text;
  P256Key = Text;
  P256VerifyingKey = Text;
  ed25519_public = λ k. k;
  p256_public = λ k. k;
  ed25519_private_pem = λ k. b'e' ∷ k;
  ed25519_public_pem = λ k. b'E' ∷ k;
  p256_private_pem = λ k. b'p' ∷ k;
  p256_public_pem = λ k. b'P' ∷ k;
  parse_ed25519 = unpem;
  parse_p256 = unpem;
  parse_ed25519-private_pem = λ k. refl;
  parse_p256-private_pem = λ k. refl;
}

abbrev digit : Text → ℕ
digit [] = b'0'
digit (c ∷ s) = b'a' + c % 6

instance abbrev sample_blake3 : Blake3
sample_blake3 = record {
  hex = λ s. replicate 64 (digit s);
  length-hex = λ s. length-replicate 64 (digit s);
}

abbrev staged : StagedKeys
staged = record {
  authorized_signing = text "a";
  authentication_signing = text "b";
  assertion_signing = text "c";
}

abbrev renewed : StagedKeys
renewed = record {
  authorized_signing = text "d";
  authentication_signing = text "e";
  assertion_signing = text "f";
}

-- One DID with its keys
abbrev did : Text
did = text "d"

abbrev hash : Text
hash = replicate 12 b'e'

abbrev handle : Handle
handle = record { hash = hash; did = did }

abbrev store : Store
store = (hash, first_dir staged did) ∷ []

commit-store : commit [] staged did ≡ ok (store, handle)
unfolding commit did_to_hash find put
commit-store = refl

store-Reachable : Reachable store
store-Reachable = committed staged did created commit-store

trim-did : trim did ≡ did
unfolding trim trim_start trim_end
trim-did = refl

did_apart : did_to_hash did ≢ did_to_hash (text "e")
unfolding did_to_hash
did_apart h = ground arith

latest_store : latest_version did (first_dir staged did) ≡ ok 1
unfolding latest_version newest newer version_of_name
latest_store = refl

add_version-latest_example :
    (new : EntryDir) × (add_version did (first_dir staged did) renewed ≡ ok (new, 2))
    × (latest_version did new ≡ ok 2)
    × (key_text did new authorized none true ≡ ok (text "ed"))
    × (key_text did new authorized (some 1) true
        ≡ key_text did (first_dir staged did) authorized (some 1) true)
add_version-latest_example =
    add_version-latest did (first_dir staged did) renewed 1 1 authorized true latest_store
      (omega arith)

-- An entry of 9999 versions, of which the last is left
abbrev full_dir : EntryDir
full_dir = record { did_txt = some did; snapshots = (text "9999", write_keys [] staged) ∷ [] }

latest_full : latest_version did full_dir ≡ ok 9999
unfolding latest_version newest newer version_of_name
latest_full = refl

add_version-overflow_example :
    (new : EntryDir) × (add_version did full_dir renewed ≡ ok (new, 10000))
    × (latest_version did new ≡ ok 9999)
    × (key_text did new authorized none true ≡ key_text did full_dir authorized (some 9999) true)
add_version-overflow_example = add_version-overflow did full_dir renewed authorized true latest_full

Reachable-IsWhole_example : All IsWhole store
Reachable-IsWhole_example = Reachable-IsWhole store store-Reachable

-- Another DID of the same hash
abbrev colliding : Text
colliding = text "j"

lookup-colliding : lookup store colliding ≡ err (mismatch hash)
unfolding lookup did_to_hash find trim trim_start trim_end
lookup-colliding = refl

lookup-Reachable_example :
    ((exists store colliding ≡ false) × (lookup store colliding ≡ ok none))
    ⊎ ((dir : EntryDir) × (owner : Text) × (kept : StagedKeys) × (find store (did_to_hash colliding)
          ≡ some dir)
        × (dir.did_txt ≡ some owner)
        × (did_to_hash owner ≡ did_to_hash colliding)
        × (lookup store colliding ≡ (
            if text_eq (trim owner) colliding
            then ok (some (record { hash = did_to_hash colliding; did = colliding }))
            else err (mismatch (did_to_hash colliding))))
        × (load_eddsa (did_to_hash colliding) dir authorized none ≡ ok kept.authorized_signing)
        × (load_ecdsa (did_to_hash colliding) dir authentication none
            ≡ ok kept.authentication_signing)
        × (load_ecdsa (did_to_hash colliding) dir assertion none ≡ ok kept.assertion_signing))
lookup-Reachable_example = lookup-Reachable store colliding store-Reachable

commit-lookup_example :
    (dir : EntryDir) × (find store hash ≡ some dir)
    × (lookup store did ≡ ok (some handle))
    × (load_eddsa hash dir authorized none ≡ ok (text "a"))
    × (load_ecdsa hash dir authentication none ≡ ok (text "b"))
    × (load_ecdsa hash dir assertion none ≡ ok (text "c"))
    × (commit store renewed did ≡ err (already_exists (did_to_hash did)))
    × (lookup store (text "e") ≡ lookup [] (text "e"))
commit-lookup_example =
    commit-lookup [] store handle staged renewed did (text "e") trim-did did_apart commit-store
