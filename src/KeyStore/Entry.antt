-- ===== src/KeyStore/Entry.antt =====
-- `KeyStoreEntry`: the numbered snapshots of a DID's keys.
use swiyu_rs.Prelude.{
  ℕ, ◌+◌, ◌≡◌, Bool, true, false, ◌&&◌, Option, none, some, List, [], ◌∷◌, ◌++◌, Result, ok, err,
  ◌>>=◌, ok_or, map_err, length, leb, ◌==◌, if◌then◌else◌,
}
use swiyu_rs.Prelude.Text.{Text, text}
use swiyu_rs.Prelude.Digits.{all_digits, number_from, pad4}
use swiyu_rs.KeyStore.Dir.{Dir, find, put}

-- The keys of ed25519-dalek and p256, and their PEM files: a private key reads back from its PEM.
pub record KeyFormats : Type 1 where
  pub Ed25519Key : Type 0
  pub Ed25519PublicKey : Type 0
  pub P256Key : Type 0
  pub P256VerifyingKey : Type 0
  pub ed25519_public : Ed25519Key → Ed25519PublicKey
  pub p256_public : P256Key → P256VerifyingKey
  pub ed25519_private_pem : Ed25519Key → Text
  pub ed25519_public_pem : Ed25519PublicKey → Text
  pub p256_private_pem : P256Key → Text
  pub p256_public_pem : P256VerifyingKey → Text
  pub parse_ed25519 : Text → Result Text Ed25519Key
  pub parse_p256 : Text → Result Text P256Key
  pub parse_ed25519-private_pem : (k : Ed25519Key) → parse_ed25519 (ed25519_private_pem k) ≡ ok k
  pub parse_p256-private_pem : (k : P256Key) → parse_p256 (p256_private_pem k) ≡ ok k

pub data KeyStoreError : Type 0 where
  io already_exists not_found mismatch crypto : Text → KeyStoreError

pub data KeyRole : Type 0 where
  authorized authentication assertion : KeyRole

unfoldable pub key_role_file_stem : KeyRole → Text
key_role_file_stem authorized = text "authorized"
key_role_file_stem authentication = text "authentication"
key_role_file_stem assertion = text "assertion"

-- The name of a key's file in its snapshot, of `key_path`
unfoldable pub key_file : KeyRole → Bool → Text
unfolding key_role_file_stem
key_file role private =
    let visibility = if private then text "private" else text "public" in
    key_role_file_stem role ++ b'-' ∷ (visibility ++ text ".pem")

-- An entry's directory: `did.txt` and the snapshots by their names.
pub record EntryDir : Type 0 where
  pub did_txt : Option Text
  pub snapshots : Dir (Dir Text)

-- `s.len() == 4 && s.chars().all(|c| c.is_ascii_digit())`, and the number then
unfoldable pub version_of_name : Text → Option ℕ
version_of_name s = if (length s == 4) && all_digits s then some (number_from 0 s) else none

-- `max` of what is there
unfoldable pub newer : Option ℕ → Option ℕ → Option ℕ
newer none o = o
newer (some n) none = some n
newer (some n) (some m) = if leb n m then some m else some n

unfoldable pub newest {ℓ} : {A : Type ℓ} → Dir A → Option ℕ
unfolding version_of_name newer
newest [] = none
newest ((name, a) ∷ d) = newer (version_of_name name) (newest d)

unfoldable pub latest_version : Text → EntryDir → Result KeyStoreError ℕ
unfolding newest
latest_version hash dir = ok_or (newest dir.snapshots) (not_found hash)

-- `sort_unstable`, of what is sorted behind the number
unfoldable pub insert_sorted : ℕ → List ℕ → List ℕ
insert_sorted n [] = n ∷ []
insert_sorted n (m ∷ ms) = let rest = insert_sorted n ms in if leb n m then n ∷ m ∷ ms else m ∷ rest

abbrev insert_version : Option ℕ → List ℕ → List ℕ
insert_version none vs = vs
insert_version (some n) vs = insert_sorted n vs

unfoldable pub sorted_versions {ℓ} : {A : Type ℓ} → Dir A → List ℕ
unfolding version_of_name insert_sorted
sorted_versions [] = []
sorted_versions ((name, a) ∷ d) = insert_version (version_of_name name) (sorted_versions d)

abbrev some_versions : Text → List ℕ → Result KeyStoreError (List ℕ)
some_versions hash [] = err (not_found hash)
some_versions hash (v ∷ vs) = ok (v ∷ vs)

unfoldable pub all_versions : Text → EntryDir → Result KeyStoreError (List ℕ)
unfolding sorted_versions
all_versions hash dir = some_versions hash (sorted_versions dir.snapshots)

unfoldable pub resolve_version : Text → EntryDir → Option ℕ → Result KeyStoreError ℕ
resolve_version hash dir (some v) = ok v
resolve_version hash dir none = latest_version hash dir

-- The file at `key_path`, with `NotFound` where it does not exist
unfoldable pub key_text : Text → EntryDir → KeyRole → Option ℕ → Bool → Result KeyStoreError Text
unfolding key_file resolve_version
key_text hash dir role version private = do
  v ← resolve_version hash dir version
  snapshot ← ok_or (find dir.snapshots (pad4 v)) (not_found hash)
  ok_or (find snapshot (key_file role private)) (not_found hash)

-- `public_key_pem`, which `export_public_key` writes out
unfoldable pub public_key_pem : Text → EntryDir → KeyRole → Option ℕ → Result KeyStoreError Text
unfolding key_text
public_key_pem hash dir role version = key_text hash dir role version false

-- What `export_private_key` writes out
unfoldable pub private_key_pem : Text → EntryDir → KeyRole → Option ℕ → Result KeyStoreError Text
unfolding key_text
private_key_pem hash dir role version = key_text hash dir role version true

module _ ⦃f : KeyFormats⦄ where
  unfoldable pub load_eddsa :
      Text → EntryDir → KeyRole → Option ℕ → Result KeyStoreError f.Ed25519Key
  unfolding key_text
  load_eddsa hash dir role version = do
    pem ← key_text hash dir role version true
    map_err crypto (f.parse_ed25519 pem)

  unfoldable pub load_ecdsa : Text → EntryDir → KeyRole → Option ℕ → Result KeyStoreError f.P256Key
  unfolding key_text
  load_ecdsa hash dir role version = do
    pem ← key_text hash dir role version true
    map_err crypto (f.parse_p256 pem)

  -- The verifying keys are those of the signing keys, as `from_parts` derives them.
  pub record StagedKeys : Type 0 where
    pub authorized_signing : f.Ed25519Key
    pub authentication_signing : f.P256Key
    pub assertion_signing : f.P256Key

  -- The six files of a snapshot
  unfoldable pub write_keys : Dir Text → StagedKeys → Dir Text
  write_keys d staged =
      let d =
        put d (text "authorized-private.pem") (f.ed25519_private_pem staged.authorized_signing) in
      let d =
        put d (text "authorized-public.pem")
          (f.ed25519_public_pem (f.ed25519_public staged.authorized_signing)) in
      let d =
        put d (text "authentication-private.pem")
          (f.p256_private_pem staged.authentication_signing) in
      let d =
        put d (text "authentication-public.pem")
          (f.p256_public_pem (f.p256_public staged.authentication_signing)) in
      let d = put d (text "assertion-private.pem") (f.p256_private_pem staged.assertion_signing) in
      put d (text "assertion-public.pem")
        (f.p256_public_pem (f.p256_public staged.assertion_signing))

  -- `create_dir_all`: the directory that is there, or an empty one
  abbrev pub opened : Option (Dir Text) → Dir Text
  opened none = []
  opened (some d) = d

  unfoldable pub add_version : Text → EntryDir → StagedKeys → Result KeyStoreError (EntryDir × ℕ)
  unfolding write_keys latest_version
  add_version hash dir staged = do
    latest ← latest_version hash dir
    let next = latest + 1
    let snapshot = write_keys (opened (find dir.snapshots (pad4 next))) staged
    ok (record dir { snapshots = put dir.snapshots (pad4 next) snapshot }, next)
