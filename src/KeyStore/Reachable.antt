-- ===== src/KeyStore/Reachable.antt =====
-- The stores that the operations make, and what holds in all of them.
use swiyu_rs.Prelude.{
  ℕ, ◌+◌, ◌≤◌, ◌^◌, ◌≡◌, ◌≢◌, refl, false, none, some, [], ok, err, ltb, arith, sym, ◌∙◌,
  Bool-cases, Option-cases, inl, inr, All, ◌⊎◌, if◌then◌else◌,
}
use swiyu_rs.Prelude.Text.{Text, text_eq, text_eq_iff, text_eq_refl}
use swiyu_rs.Prelude.Decimal.{decimal}
use swiyu_rs.Prelude.Digits.{pad4}
use swiyu_rs.Prelude.Trim.{trim}
use swiyu_rs.KeyStore.Dir.{find, put, erase, find-put, find-erase, All-put, All-erase, All-find}
use swiyu_rs.KeyStore.Entry.{
  KeyFormats, already_exists, mismatch, key_text, resolve_version, EntryDir, StagedKeys,
  latest_version, newest, newer, version_of_name, add_version, load_eddsa, load_ecdsa, authorized,
  authentication, assertion,
}
use swiyu_rs.KeyStore.Store.{
  Blake3, Handle, Store, did_to_hash, first_dir, commit, lookup, remove, exists,
}
use swiyu_rs.KeyStore.Snapshots.{
  HoldsKeys, HoldsKeys-found, HoldsKeys-with_snapshot, load-HoldsKeys, with_snapshot,
  add_version-eq, latest_version-with_snapshot, latest_version-overflow, key_text-with_snapshot,
}

module _ ⦃h : Blake3⦄ ⦃f : KeyFormats⦄ where
  -- A store as the operations change it: a key set for a new DID, a new version of an entry, and the
  -- removal of an entry.
  pub data Reachable : Store → Type 0 where
    created : Reachable []
    committed :
        {store new : Store} {handle : Handle} (staged : StagedKeys) (did : Text)
        → Reachable store
        → commit store staged did ≡ ok (new, handle)
        → Reachable new
    added :
        {store : Store} {dir new : EntryDir} {n : ℕ} (staged : StagedKeys) (hash : Text)
        → Reachable store
        → find store hash ≡ some dir
        → add_version hash dir staged ≡ ok (new, n)
        → Reachable (put store hash new)
    removed :
        {store new : Store} (did : Text)
        → Reachable store
        → remove store did ≡ ok new
        → Reachable new

  -- An entry is named by the hash of the DID that it is for, and its latest version holds a key set.
  pub record IsWhole (entry : Text × EntryDir) : Type 0 where
    pub did : Text
    pub did_eq : entry.1.did_txt ≡ some did
    pub hash_eq : entry.0 ≡ did_to_hash did
    pub version : ℕ
    pub latest_eq : latest_version entry.0 entry.1 ≡ ok version
    pub first_le : 1 ≤ version
    pub staged : StagedKeys
    pub held : HoldsKeys entry.0 entry.1 version staged

  first_dir-latest :
      (hash : Text) (staged : StagedKeys) (did : Text)
      → latest_version hash (first_dir staged did) ≡ ok 1
  unfolding latest_version newest newer version_of_name
  first_dir-latest hash staged did = refl

  first_dir-HoldsKeys :
      (hash : Text) (staged : StagedKeys) (did : Text)
      → HoldsKeys hash (first_dir staged did) 1 staged
  unfolding find pad4 decimal
  first_dir-HoldsKeys hash staged did = HoldsKeys-found hash (first_dir staged did) 1 staged [] refl

  first_dir-IsWhole :
      (staged : StagedKeys) (did : Text) → IsWhole (did_to_hash did, first_dir staged did)
  first_dir-IsWhole staged did = record {
    did = did;
    did_eq = refl;
    hash_eq = refl;
    version = 1;
    latest_eq = first_dir-latest (did_to_hash did) staged did;
    first_le = omega arith;
    staged = staged;
    held = first_dir-HoldsKeys (did_to_hash did) staged did;
  }

  commit-eq-ok :
      (store : Store) (staged : StagedKeys) (did : Text) {new : Store} {handle : Handle}
      → commit store staged did ≡ ok (new, handle)
      → (find store (did_to_hash did) ≡ none)
        × (new ≡ put store (did_to_hash did) (first_dir staged did))
        × (handle ≡ record { hash = did_to_hash did; did = did })
  unfolding commit
  commit-eq-ok store staged did e = elim (Option-cases (find store (did_to_hash did))) [
    | inl missing ↦ (missing, ground arith, ground arith)
    | inr (dir, found) ↦ absurd (ground arith)
  ]

  with_snapshot-IsWhole :
      (hash : Text) (dir : EntryDir) (staged : StagedKeys) (n : ℕ)
      → latest_version hash dir ≡ ok n
      → IsWhole (hash, dir)
      → IsWhole (hash, with_snapshot dir (n + 1) staged)
  with_snapshot-IsWhole hash dir staged n at whole = elim (Bool-cases (ltb n 9999)) [
    | inl small ↦ record {
      did = whole.did;
      did_eq = whole.did_eq;
      hash_eq = whole.hash_eq;
      version = n + 1;
      latest_eq = latest_version-with_snapshot hash dir staged n at (ground arith);
      first_le = omega arith;
      staged = staged;
      held = HoldsKeys-with_snapshot hash dir staged (n + 1);
    }
    | inr big ↦
        let long : 10 ^ 4 ≤ n + 1 = ground arith in
        let same : whole.version ≡ n = ground (arith, at, whole.latest_eq) in
        record {
          did = whole.did;
          did_eq = whole.did_eq;
          hash_eq = whole.hash_eq;
          version = n;
          latest_eq = latest_version-overflow hash dir staged n at long;
          first_le = omega arith;
          staged = whole.staged;
          held = λ role private.
              key_text-with_snapshot hash dir staged (n + 1) n role private (λ x. omega arith)
              ∙ (rw same at (whole.held role private));
        }
  ]

  -- `add_version` puts its snapshot in the directory.
  add_version-eq-ok :
      (hash : Text) (dir : EntryDir) (staged : StagedKeys) (at : ℕ) {new : EntryDir} {n : ℕ}
      → latest_version hash dir ≡ ok at
      → add_version hash dir staged ≡ ok (new, n)
      → new ≡ with_snapshot dir (at + 1) staged
  add_version-eq-ok hash dir staged at latest e =
      ground (arith, add_version-eq hash dir staged at latest)

  remove-eq-ok :
      (store : Store) (did : Text) {new : Store}
      → remove store did ≡ ok new
      → new ≡ erase store (did_to_hash did)
  unfolding remove
  remove-eq-ok store did e = elim (Option-cases (find store (did_to_hash did))) [
    | inl missing ↦ absurd (ground arith)
    | inr (dir, found) ↦ ground arith
  ]

  -- Every entry of a store that the operations made from the empty one is named by the hash of the DID
  -- in its `did.txt`, and its latest version, which is 1 or more, holds a whole key set.
  pub Reachable-IsWhole : (store : Store) → Reachable store → All IsWhole store
  Reachable-IsWhole _ created = tt
  Reachable-IsWhole _ (committed {store = store} staged did reached e) =
      let (missing, new_eq, handle_eq) = commit-eq-ok store staged did e in
      rw new_eq (
        All-put IsWhole store (did_to_hash did) (first_dir staged did)
          (Reachable-IsWhole store reached) (first_dir-IsWhole staged did))
  Reachable-IsWhole _ (added {store = store} {dir = dir} staged hash reached found e) =
      let all = Reachable-IsWhole store reached in
      let whole = All-find IsWhole store hash all found in
      let new_eq = add_version-eq-ok hash dir staged whole.version whole.latest_eq e in
      rw new_eq (
        All-put IsWhole store hash (with_snapshot dir (whole.version + 1) staged) all
          (with_snapshot-IsWhole hash dir staged whole.version whole.latest_eq whole))
  Reachable-IsWhole _ (removed {store = store} did reached e) =
      rw (remove-eq-ok store did e)
        (All-erase IsWhole store (did_to_hash did) (Reachable-IsWhole store reached))

  -- In such a store, a DID has no entry, and none is looked up, or its hash has the entry of a DID of
  -- that hash, all three keys of whose latest version load; the lookup gives the entry where the text of
  -- that DID without the white space around it is the DID, and fails with a mismatch where it is not, as
  -- when two DIDs have one hash.
  pub lookup-Reachable :
      (store : Store) (did : Text)
      → Reachable store
      → ((exists store did ≡ false) × (lookup store did ≡ ok none))
        ⊎ ((dir : EntryDir) × (owner : Text) × (staged : StagedKeys) × (find store (did_to_hash did)
              ≡ some dir)
            × (dir.did_txt ≡ some owner)
            × (did_to_hash owner ≡ did_to_hash did)
            × (lookup store did ≡ (
                if text_eq (trim owner) did
                then ok (some (record { hash = did_to_hash did; did = did }))
                else err (mismatch (did_to_hash did))))
            × (load_eddsa (did_to_hash did) dir authorized none ≡ ok staged.authorized_signing)
            × (load_ecdsa (did_to_hash did) dir authentication none
                ≡ ok staged.authentication_signing)
            × (load_ecdsa (did_to_hash did) dir assertion none ≡ ok staged.assertion_signing))
  unfolding exists lookup load_eddsa load_ecdsa key_text resolve_version
  lookup-Reachable store did reached = elim (Option-cases (find store (did_to_hash did))) [
    | inl missing ↦ inl (simp missing, simp missing)
    | inr (dir, found) ↦
        let whole =
          All-find IsWhole store (did_to_hash did) (Reachable-IsWhole store reached) found in
        let loaded = load-HoldsKeys (did_to_hash did) dir whole.version whole.staged whole.held in
        inr (
          dir,
          whole.did,
          whole.staged,
          found,
          whole.did_eq,
          sym whole.hash_eq,
          elim (Bool-cases (text_eq (trim whole.did) did)) [
            | inl same ↦ simp (found, whole.did_eq, same)
            | inr other ↦ simp (found, whole.did_eq, other)
          ],
          simp (whole.latest_eq, loaded.0),
          simp (whole.latest_eq, loaded.1),
          simp (whole.latest_eq, loaded.2),
        )
  ]

  -- A key set committed for a DID without white space around it is found for it, with the keys loaded
  -- from its latest version; a second one is refused; and what is looked up for a DID of another hash
  -- is what it was.
  pub commit-lookup :
      (store new : Store) (handle : Handle) (staged again : StagedKeys) (did other : Text)
      → trim did ≡ did
      → did_to_hash did ≢ did_to_hash other
      → commit store staged did ≡ ok (new, handle)
      → (dir : EntryDir) × (find new handle.hash ≡ some dir)
        × (lookup new did ≡ ok (some handle))
        × (load_eddsa handle.hash dir authorized none ≡ ok staged.authorized_signing)
        × (load_ecdsa handle.hash dir authentication none ≡ ok staged.authentication_signing)
        × (load_ecdsa handle.hash dir assertion none ≡ ok staged.assertion_signing)
        × (commit new again did ≡ err (already_exists (did_to_hash did)))
        × (lookup new other ≡ lookup store other)
  unfolding commit lookup load_eddsa load_ecdsa key_text resolve_version
  commit-lookup store new handle staged again did other plain apart e =
      let (missing, new_eq, handle_eq) = commit-eq-ok store staged did e in
      let hash = did_to_hash did in
      let dir = first_dir staged did in
      let latest = first_dir-latest hash staged did in
      let found : find (put store hash dir) hash ≡ some dir =
        simp (find-put store hash hash dir, text_eq_refl hash) in
      let loaded = load-HoldsKeys hash dir 1 staged (first_dir-HoldsKeys hash staged did) in
      let elsewhere : text_eq hash (did_to_hash other) ≡ false =
        ground (arith, text_eq_iff hash (did_to_hash other)) in
      rw (new_eq, handle_eq)
        (
          dir,
          found,
          simp (found, plain, text_eq_refl did),
          simp (latest, loaded.0),
          simp (latest, loaded.1),
          simp (latest, loaded.2),
          simp found,
          simp (find-put store hash (did_to_hash other) dir, elsewhere),
        )

  -- The removal of an entry leaves none for the DID, and what is looked up for a DID of another hash is
  -- what it was.
  pub remove-lookup :
      (store new : Store) (did other : Text)
      → did_to_hash did ≢ did_to_hash other
      → remove store did ≡ ok new
      → (exists new did ≡ false)
        × (lookup new did ≡ ok none)
        × (lookup new other ≡ lookup store other)
  unfolding exists lookup
  remove-lookup store new did other apart e =
      let hash = did_to_hash did in
      let elsewhere : text_eq hash (did_to_hash other) ≡ false =
        ground (arith, text_eq_iff hash (did_to_hash other)) in
      rw (remove-eq-ok store did e) (
        simp (find-erase store hash hash, text_eq_refl hash),
        simp (find-erase store hash hash, text_eq_refl hash),
        simp (find-erase store hash (did_to_hash other), elsewhere),
      )
