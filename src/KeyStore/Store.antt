-- ===== src/KeyStore/Store.antt =====
-- `KeyStore`: the entries of all DIDs, by the hash of the DID.
use swiyu_rs.Prelude.{
  ◌≡◌, Bool, true, false, Option, none, some, List, [], ◌∷◌, Result, ok, err, ◌>>=◌, ok_or, take,
  length, ltb, ◌==◌, if◌then◌else◌, guard,
}
use mathlib.Core.Option
use swiyu_rs.Prelude.Text.{Text, text, text_eq}
use swiyu_rs.Prelude.Trim.{trim}
use swiyu_rs.KeyStore.Dir.{Dir, find, put, erase}
use swiyu_rs.KeyStore.Entry.{
  KeyFormats, KeyStoreError, io, already_exists, not_found, mismatch, EntryDir, StagedKeys,
  write_keys,
}

-- `blake3::hash(…).to_hex()`: 64 digits
pub record Blake3 : Type 0 where
  pub hex : Text → Text
  pub length-hex : (s : Text) → length (hex s) ≡ 64

-- `KeyStoreEntry`; the hash names its directory.
pub record Handle : Type 0 where
  pub hash : Text
  pub did : Text

abbrev pub Store : Type 0
Store = Dir EntryDir

-- What `did.txt` holds, or the error of reading it
abbrev pub stored_did : EntryDir → Result KeyStoreError Text
stored_did dir = ok_or dir.did_txt (io (text "did.txt"))

-- `sort_by(|a, b| a.hash.cmp(&b.hash))`, of what is sorted behind the entry
abbrev text_le : Text → Text → Bool
text_le [] t = true
text_le (c ∷ s) [] = false
text_le (c ∷ s) (d ∷ t) = let rest = text_le s t in if c == d then rest else ltb c d

unfoldable pub insert_by_hash : Handle → List Handle → List Handle
insert_by_hash h [] = h ∷ []
insert_by_hash h (i ∷ is) =
    let rest = insert_by_hash h is in if text_le h.hash i.hash then h ∷ i ∷ is else i ∷ rest

abbrev list_one : Text → Option Text → List Handle → List Handle
list_one hash none rest = rest
list_one hash (some did) rest = insert_by_hash (record { hash = hash; did = did }) rest

unfoldable pub list_entries : Store → List Handle
unfolding insert_by_hash trim
list_entries [] = []
list_entries ((hash, dir) ∷ store) =
    list_one hash (Option.map trim dir.did_txt) (list_entries store)

abbrev found_by_hash : Text → Option EntryDir → Result KeyStoreError (Option Handle)
found_by_hash hash none = ok none
found_by_hash hash (some dir) = do
  stored ← stored_did dir
  ok (some (record { hash = hash; did = trim stored }))

unfoldable pub lookup_by_hash : Store → Text → Result KeyStoreError (Option Handle)
unfolding trim
lookup_by_hash store hash = found_by_hash hash (find store hash)

abbrev is_there : Option EntryDir → Bool
is_there none = false
is_there (some dir) = true

abbrev found_for : Text → Text → Option EntryDir → Result KeyStoreError (Option Handle)
found_for hash did none = ok none
found_for hash did (some dir) = do
  stored ← stored_did dir
  _ ← guard (text_eq (trim stored) did) (mismatch hash)
  ok (some (record { hash = hash; did = did }))

abbrev without : Store → Text → Option EntryDir → Result KeyStoreError Store
without store hash none = err (not_found hash)
without store hash (some dir) = ok (erase store hash)

module _ ⦃h : Blake3⦄ where
  unfoldable pub did_to_hash : Text → Text
  did_to_hash did = take 12 (h.hex did)

  unfoldable pub exists : Store → Text → Bool
  exists store did = is_there (find store (did_to_hash did))

  unfoldable pub lookup : Store → Text → Result KeyStoreError (Option Handle)
  unfolding trim
  lookup store did = found_for (did_to_hash did) did (find store (did_to_hash did))

  unfoldable pub remove : Store → Text → Result KeyStoreError Store
  remove store did = without store (did_to_hash did) (find store (did_to_hash did))

module _ ⦃f : KeyFormats⦄ where
  -- The directory of a first snapshot
  abbrev pub first_dir : StagedKeys → Text → EntryDir
  first_dir staged did = record {
    did_txt = some did;
    snapshots = (text "0001", write_keys [] staged) ∷ [];
  }

  abbrev with_first :
      Store → StagedKeys → Text → Text → Option EntryDir → Result KeyStoreError (Store × Handle)
  with_first store staged did hash (some dir) = err (already_exists hash)
  with_first store staged did hash none =
      ok (put store hash (first_dir staged did), record { hash = hash; did = did })

module _ ⦃h : Blake3⦄ ⦃f : KeyFormats⦄ where
  unfoldable pub commit : Store → StagedKeys → Text → Result KeyStoreError (Store × Handle)
  commit store staged did =
      with_first store staged did (did_to_hash did) (find store (did_to_hash did))
