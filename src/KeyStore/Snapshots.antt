-- ===== src/KeyStore/Snapshots.antt =====
-- A new snapshot: it is the latest one, its keys are the staged ones, and the older snapshots stay.
use swiyu_rs.Prelude.{
  ℕ, ◌+◌, ◌<◌, ◌≤◌, ◌^◌, ◌≡◌, ◌≢◌, refl, Bool, true, false, none, some, [], ◌∷◌, ok, length, ◌==◌,
  if◌then◌else◌, arith, ap, sym, ◌∙◌, Bool-cases, Option-cases, inl, inr, ok_or-eq-ok,
}
use swiyu_rs.Prelude.Text.{Text, text_eq, text_eq_iff, text_eq_sound, text_eq_refl}
use swiyu_rs.Prelude.Digits.{
  number_from, pad4, number_from-pad4, all_digits-pad4, length-pad4, length-pad4_gt,
}
use swiyu_rs.KeyStore.Dir.{Dir, find, put, find-put}
use swiyu_rs.KeyStore.Entry.{
  KeyFormats, KeyRole, authorized, authentication, assertion, EntryDir, StagedKeys, version_of_name,
  newer, newest, latest_version, key_file, key_role_file_stem, key_text, resolve_version,
  load_eddsa, load_ecdsa, write_keys, opened, add_version,
}

pub version_of_name-pad4 : (n : ℕ) → n < 10 ^ 4 → version_of_name (pad4 n) ≡ some n
unfolding version_of_name
version_of_name-pad4 n h = simp (length-pad4 n h, all_digits-pad4 n, number_from-pad4 n)

pub version_of_name-long : (n : ℕ) → 10 ^ 4 ≤ n → version_of_name (pad4 n) ≡ none
unfolding version_of_name
version_of_name-long n h =
    let other : (length (pad4 n) == 4) ≡ false = ground (arith, length-pad4_gt n h) in simp other

pub text_eq-pad4 : (n m : ℕ) → n ≢ m → text_eq (pad4 n) (pad4 m) ≡ false
text_eq-pad4 n m h = elim (Bool-cases (text_eq (pad4 n) (pad4 m))) [
  | inl e ↦
      let same = ap (number_from 0) (text_eq_sound (pad4 n) (pad4 m) e) in
      absurd (h (sym (number_from-pad4 n) ∙ same ∙ number_from-pad4 m))
  | inr e ↦ e
]

module _ {ℓ} {A : Type ℓ} where
  -- The maximum of what is there and one more.
  newest-put :
      (d : Dir A) (name : Text) (v : A)
      → newest (put d name v) ≡ newer (version_of_name name) (newest d)
  unfolding newest put newer
  newest-put [] name v = elim (Option-cases (version_of_name name)) [
    | inl e ↦ rw e refl
    | inr (n, e) ↦ rw e refl
  ]
  newest-put ((m, a) ∷ d) name v = ground (arith, text_eq_iff m name, newest-put d name v)

module _ ⦃f : KeyFormats⦄ where
  -- The PEM file of a key.
  abbrev pub pem_of : StagedKeys → KeyRole → Bool → Text
  pem_of staged authorized true = f.ed25519_private_pem staged.authorized_signing
  pem_of staged authorized false = f.ed25519_public_pem (f.ed25519_public staged.authorized_signing)
  pem_of staged authentication true = f.p256_private_pem staged.authentication_signing
  pem_of staged authentication false =
      f.p256_public_pem (f.p256_public staged.authentication_signing)
  pem_of staged assertion true = f.p256_private_pem staged.assertion_signing
  pem_of staged assertion false = f.p256_public_pem (f.p256_public staged.assertion_signing)

  -- The snapshot of version `n` holds all the keys.
  abbrev pub HoldsKeys : Text → EntryDir → ℕ → StagedKeys → Type 0
  HoldsKeys hash dir n staged =
      (role : KeyRole) (private : Bool)
      → key_text hash dir role (some n) private ≡ ok (pem_of staged role private)

  pub find-write_keys :
      (d : Dir Text) (staged : StagedKeys) (role : KeyRole) (private : Bool)
      → find (write_keys d staged) (key_file role private) ≡ some (pem_of staged role private)
  unfolding write_keys key_file key_role_file_stem
  find-write_keys d staged authorized true = simp find-put
  find-write_keys d staged authorized false = simp find-put
  find-write_keys d staged authentication true = simp find-put
  find-write_keys d staged authentication false = simp find-put
  find-write_keys d staged assertion true = simp find-put
  find-write_keys d staged assertion false = simp find-put

  pub HoldsKeys-found :
      (hash : Text) (dir : EntryDir) (n : ℕ) (staged : StagedKeys) (d : Dir Text)
      → find dir.snapshots (pad4 n) ≡ some (write_keys d staged)
      → HoldsKeys hash dir n staged
  unfolding key_text resolve_version
  HoldsKeys-found hash dir n staged d h role private =
      simp (h, find-write_keys d staged role private)

  -- Keys that are held are loaded.
  pub load-HoldsKeys :
      (hash : Text) (dir : EntryDir) (n : ℕ) (staged : StagedKeys)
      → HoldsKeys hash dir n staged
      → (load_eddsa hash dir authorized (some n) ≡ ok staged.authorized_signing)
        × (load_ecdsa hash dir authentication (some n) ≡ ok staged.authentication_signing)
        × (load_ecdsa hash dir assertion (some n) ≡ ok staged.assertion_signing)
  unfolding load_eddsa load_ecdsa
  load-HoldsKeys hash dir n staged h = (
    simp (h authorized true, f.parse_ed25519-private_pem),
    simp (h authentication true, f.parse_p256-private_pem),
    simp (h assertion true, f.parse_p256-private_pem),
  )

  newest-eq-some :
      (hash : Text) (dir : EntryDir) {n : ℕ}
      → latest_version hash dir ≡ ok n
      → newest dir.snapshots ≡ some n
  unfolding latest_version
  newest-eq-some hash dir h = ok_or-eq-ok (newest dir.snapshots) _ h

  -- The directory that a new snapshot of version `n` makes.
  abbrev pub with_snapshot : EntryDir → ℕ → StagedKeys → EntryDir
  with_snapshot dir n staged = record dir {
    snapshots =
        put dir.snapshots (pad4 n) (write_keys (opened (find dir.snapshots (pad4 n))) staged);
  }

  pub add_version-eq :
      (hash : Text) (dir : EntryDir) (staged : StagedKeys) (n : ℕ)
      → latest_version hash dir ≡ ok n
      → add_version hash dir staged ≡ ok (with_snapshot dir (n + 1) staged, n + 1)
  unfolding add_version
  add_version-eq hash dir staged n h = simp h

  pub latest_version-with_snapshot :
      (hash : Text) (dir : EntryDir) (staged : StagedKeys) (n : ℕ)
      → latest_version hash dir ≡ ok n
      → n + 1 < 10 ^ 4
      → latest_version hash (with_snapshot dir (n + 1) staged) ≡ ok (n + 1)
  unfolding latest_version newer
  latest_version-with_snapshot hash dir staged n h fits =
      rw
        (
          newest-put dir.snapshots (pad4 (n + 1))
              (write_keys (opened (find dir.snapshots (pad4 (n + 1)))) staged),
          version_of_name-pad4 (n + 1) fits,
          newest-eq-some hash dir h,
        )
        (ground arith)

  pub latest_version-overflow :
      (hash : Text) (dir : EntryDir) (staged : StagedKeys) (n : ℕ)
      → latest_version hash dir ≡ ok n
      → 10 ^ 4 ≤ n + 1
      → latest_version hash (with_snapshot dir (n + 1) staged) ≡ ok n
  unfolding latest_version newer
  latest_version-overflow hash dir staged n h long =
      rw
        (
          newest-put dir.snapshots (pad4 (n + 1))
              (write_keys (opened (find dir.snapshots (pad4 (n + 1)))) staged),
          version_of_name-long (n + 1) long,
        )
        h

  pub HoldsKeys-with_snapshot :
      (hash : Text) (dir : EntryDir) (staged : StagedKeys) (n : ℕ)
      → HoldsKeys hash (with_snapshot dir n staged) n staged
  HoldsKeys-with_snapshot hash dir staged n =
      HoldsKeys-found hash (with_snapshot dir n staged) n staged
        (opened (find dir.snapshots (pad4 n))) (simp (find-put, text_eq_refl (pad4 n)))

  pub key_text-with_snapshot :
      (hash : Text) (dir : EntryDir) (staged : StagedKeys) (n m : ℕ) (role : KeyRole)
      (private : Bool)
      → n ≢ m
      → key_text hash (with_snapshot dir n staged) role (some m) private
        ≡ key_text hash dir role (some m) private
  unfolding key_text resolve_version
  key_text-with_snapshot hash dir staged n m role private other =
      simp (find-put, text_eq-pad4 n m other)

  -- Below version 9999, a new snapshot is one more than the latest one and the latest one then, it
  -- holds the staged keys, and every other version holds what it held.
  pub add_version-latest :
      (hash : Text) (dir : EntryDir) (staged : StagedKeys) (n m : ℕ) (role : KeyRole)
      (private : Bool)
      → latest_version hash dir ≡ ok n
      → n < 9999
      → (new : EntryDir) × (add_version hash dir staged ≡ ok (new, n + 1))
        × (latest_version hash new ≡ ok (n + 1))
        × (key_text hash new role none private ≡ ok (pem_of staged role private))
        × (key_text hash new role (some m) private ≡ (
            if m == n + 1
            then ok (pem_of staged role private)
            else key_text hash dir role (some m) private))
  unfolding key_text resolve_version
  add_version-latest hash dir staged n m role private h fits =
      let latest = latest_version-with_snapshot hash dir staged n h (omega arith) in
      let held = HoldsKeys-with_snapshot hash dir staged (n + 1) role private in
      (
        with_snapshot dir (n + 1) staged,
        add_version-eq hash dir staged n h,
        latest,
        rw latest held,
        elim (Bool-cases (m == n + 1)) [
          | inl e ↦ let same : m ≡ n + 1 = ground arith in rw (e, same) held
          | inr e ↦
              let other : n + 1 ≢ m = λ x. ground arith in
              rw e (key_text-with_snapshot hash dir staged (n + 1) m role private other)
        ],
      )

  -- Behind version 9999, the snapshot that is made is numbered 10000, and the latest version stays
  -- 9999, whose keys stay what they were: the staged keys are not the latest ones.
  pub add_version-overflow :
      (hash : Text) (dir : EntryDir) (staged : StagedKeys) (role : KeyRole) (private : Bool)
      → latest_version hash dir ≡ ok 9999
      → (new : EntryDir) × (add_version hash dir staged ≡ ok (new, 10000))
        × (latest_version hash new ≡ ok 9999)
        × (key_text hash new role none private ≡ key_text hash dir role (some 9999) private)
  unfolding key_text resolve_version
  add_version-overflow hash dir staged role private h =
      let latest = latest_version-overflow hash dir staged 9999 h (omega arith) in
      (
        with_snapshot dir 10000 staged,
        add_version-eq hash dir staged 9999 h,
        latest,
        rw latest
            (key_text-with_snapshot hash dir staged 10000 9999 role private (λ x. omega arith)),
      )
