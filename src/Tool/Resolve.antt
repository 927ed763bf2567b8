-- ===== src/Tool/Resolve.antt =====
-- swiyu-didtool/src/cmd/mod.rs: the DID or the entry of the key store that a target names.
use swiyu_rs.Prelude.{
  ℕ, Bool, true, ◌&&◌, ◌||◌, Option, [], ◌∷◌, Result, ok, ◌>>=◌, ok_or, map_err, length, leb, ◌==◌,
  if◌then◌else◌,
}
use swiyu_rs.Prelude.Text.{Text}
use swiyu_rs.Did.Identifier.{Did, DidError, to_text}
use swiyu_rs.Did.Parse.{from_text}
use swiyu_rs.KeyStore.Entry.{KeyStoreError}
use swiyu_rs.KeyStore.Store.{Store, Handle, Blake3, lookup, lookup_by_hash}

pub data RegistryArgsError : Type 0 where
  partner_id_missing registry_url_missing : (hint : Text) → RegistryArgsError

unfoldable pub require_registry_credentials :
    (partner_id registry_url : Option Text) → Text → Result RegistryArgsError (Text × Text)
require_registry_credentials partner_id registry_url hint = do
  partner ← ok_or partner_id (partner_id_missing hint)
  url ← ok_or registry_url (registry_url_missing hint)
  ok (partner, url)

pub data ResolveError : Type 0 where
  not_found : Text → ResolveError
  did_error : DidError → ResolveError
  key_store : KeyStoreError → ResolveError

-- `char::is_ascii_hexdigit`
abbrev is_hex_digit : ℕ → Bool
is_hex_digit c =
    (leb b'0' c && leb c b'9') || (leb b'a' c && leb c b'f') || (leb b'A' c && leb c b'F')

unfoldable pub all_hex : Text → Bool
all_hex [] = true
all_hex (c ∷ s) = is_hex_digit c && all_hex s

-- A text of hexadecimal digits has as many bytes as characters.
unfoldable pub is_hash : Text → Bool
unfolding all_hex
is_hash s = (length s == 12) && all_hex s

unfoldable pub entry_by_hash : Store → Text → Result ResolveError Handle
entry_by_hash store target = do
  entry ← map_err key_store (lookup_by_hash store target)
  ok_or entry (not_found target)

unfoldable pub did_of_hash : Store → Text → Result ResolveError Did
unfolding entry_by_hash
did_of_hash store target = do
  entry ← entry_by_hash store target
  map_err did_error (from_text entry.did)

unfoldable pub resolve_did : Store → Text → Result ResolveError Did
unfolding is_hash did_of_hash
resolve_did store target =
    if is_hash target then did_of_hash store target else map_err did_error (from_text target)

module _ ⦃h : Blake3⦄ where
  unfoldable pub entry_by_did : Store → Text → Result ResolveError Handle
  entry_by_did store target = do
    did ← map_err did_error (from_text target)
    entry ← map_err key_store (lookup store (to_text did))
    ok_or entry (not_found target)

  unfoldable pub resolve_entry : Store → Text → Result ResolveError Handle
  unfolding is_hash entry_by_hash entry_by_did
  resolve_entry store target =
      if is_hash target then entry_by_hash store target else entry_by_did store target
