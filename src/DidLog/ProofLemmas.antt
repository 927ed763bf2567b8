-- ===== src/DidLog/ProofLemmas.antt =====
-- What the parts of a proof's check find in the texts and the bytes that they accept.
use swiyu_rs.Prelude.{zero, ℕ, suc, ◌≡◌, true, ◌&&◌, some, List, [], ◌∷◌, ◌++◌}
use swiyu_rs.Prelude.{ok, guard, map_err, ◌==◌, length, get_elem?}
use swiyu_rs.Prelude.{
  Ensures, returns, fails, Ensures-ok, Ensures-bind, map_err-eq-ok, guard-eq-ok, arith,
}
use swiyu_rs.Prelude.{Bool-cases, Option-cases, inl, inr, ap, Ensures-weaken}
use mathlib.Core.Option.{some-injective}
use swiyu_rs.Prelude.Text.{Text, text, text_eq, text_eq_sound, strip_prefix, strip_prefix_sound}
use swiyu_rs.Prelude.Text.{
  split_once, split_once_sound, Lacks, strip_prefix-append, split_once-append, text_eq_refl,
}
use swiyu_rs.Vendor.Crypto.{Bs58}
use swiyu_rs.DidDoc.Error.{error_text}
use swiyu_rs.DidDoc.Multibase.{PublicKeyMultibase, multibase_from_text}
use swiyu_rs.DidLog.Proof.{
  parse_did_key_vm, contains_key, ed25519_key_of, decode_ed25519_multikey, decode_multibase_z,
}

-- `did:key:<mk>#<mk>`
abbrev pub did_key_url : Text → Text
did_key_url mk = text "did:key:" ++ mk ++ b'#' ∷ mk

pub parse_did_key_vm_sound :
    (vm : Text) {mk : Text} → parse_did_key_vm vm ≡ some mk → (vm ≡ did_key_url mk) × Lacks b'#' mk
unfolding parse_did_key_vm
parse_did_key_vm_sound vm {mk} h = elim (Option-cases (strip_prefix (text "did:key:") vm)) [
  | inl e ↦ absurd (ground arith)
  | inr (rest, e) ↦ elim (Option-cases (split_once b'#' rest)) [
    | inl f ↦ absurd (ground arith)
    | inr ((mk1, mk2), f) ↦ elim (Bool-cases (text_eq mk1 mk2)) [
      | inl g ↦
          let whole = strip_prefix_sound (text "did:key:") vm rest e in
          let (parts, lacks) = split_once_sound b'#' rest f in
          let same = text_eq_sound mk1 mk2 g in
          let found : mk1 ≡ mk = some-injective _ _ (ground arith) in
          (rw (whole, parts, ← same, found), rw (← found) lacks)
      | inr g ↦ absurd (ground arith)
    ]
  ]
]

pub contains_key_sound :
    (keys : List Text) (mk : Text)
    → contains_key keys mk ≡ true
    → (k : ℕ) × (get_elem? keys k ≡ some mk)
unfolding contains_key
contains_key_sound [] mk h = absurd (cc)
contains_key_sound (key ∷ keys) mk h = elim (Bool-cases (text_eq key mk)) [
  | inl e ↦ (0, ap some (text_eq_sound key mk e))
  | inr e ↦ let (k, f) = contains_key_sound keys mk (ground arith) in (suc k, f)
]

pub parse_did_key_vm-did_key_url :
    (mk : Text) → Lacks b'#' mk → parse_did_key_vm (did_key_url mk) ≡ some mk
unfolding parse_did_key_vm
parse_did_key_vm-did_key_url mk h = simp (
  strip_prefix-append (text "did:key:") (mk ++ b'#' ∷ mk),
  split_once-append b'#' mk mk h,
  text_eq_refl mk,
)

pub contains_key_complete :
    (keys : List Text) (k : ℕ) (mk : Text)
    → get_elem? keys k ≡ some mk
    → contains_key keys mk ≡ true
unfolding contains_key
contains_key_complete [] k mk h = absurd (ground arith)
contains_key_complete (key ∷ keys) zero mk h =
    let same : key ≡ mk = some-injective _ _ h in simp (same, text_eq_refl mk)
contains_key_complete (key ∷ keys) (suc k) mk h = ground (arith, contains_key_complete keys k mk h)

ed25519_key_of_sound :
    (bytes : List ℕ)
    → Ensures (λ key. (bytes ≡ 0xed ∷ 0x01 ∷ key) × (length key ≡ 32)) (ed25519_key_of bytes)
unfolding ed25519_key_of
ed25519_key_of_sound [] = fails
ed25519_key_of_sound (x ∷ []) = fails
ed25519_key_of_sound (b0 ∷ b1 ∷ key) =
    Ensures-bind (guard (length (b0 ∷ b1 ∷ key) == 34) _) _ (λ _ e.
      Ensures-bind (guard ((b0 == 0xed) && (b1 == 0x01)) _) _ (λ _ f.
        let size = guard-eq-ok (length (b0 ∷ b1 ∷ key) == 34) _ e in
        let codec = guard-eq-ok ((b0 == 0xed) && (b1 == 0x01)) _ f in
        let first : b0 ≡ 0xed = ground arith in
        let second : b1 ≡ 0x01 = ground arith in returns (rw (first, second), ground arith)))

module _ ⦃b : Bs58⦄ where
  multibase_from_text_sound :
      (s : Text)
      → Ensures
          (λ (mb : PublicKeyMultibase).
            (enc : Text) × (s ≡ b'z' ∷ enc) × (b.decode enc ≡ ok mb.key))
          (multibase_from_text s)
  unfolding multibase_from_text
  multibase_from_text_sound [] = fails
  multibase_from_text_sound (c ∷ rest) = elim (Bool-cases (c == b'z')) [
    | inl e ↦
        let same : c ≡ b'z' = ground arith in
        rw e (
          Ensures-bind (map_err _ (b.decode rest)) _
            (λ key f. returns (rest, rw same, map_err-eq-ok _ (b.decode rest) f)))
    | inr e ↦ rw e fails
  ]

  pub decode_multibase_z_sound :
      (s : Text) {bytes : List ℕ}
      → decode_multibase_z s ≡ ok bytes
      → (enc : Text) × (s ≡ b'z' ∷ enc) × (b.decode enc ≡ ok bytes)
  unfolding decode_multibase_z
  decode_multibase_z_sound s {bytes} h = elim (Option-cases (strip_prefix (text "z") s)) [
    | inl e ↦ absurd (ground arith)
    | inr (enc, e) ↦ (
      enc,
      strip_prefix_sound _ s enc e,
      map_err-eq-ok (λ e. text "base58 decode failed: " ++ e) (b.decode enc) (ground arith),
    )
  ]

  pub decode_ed25519_multikey_sound :
      (s : Text) {key : List ℕ}
      → decode_ed25519_multikey s ≡ ok key
      → (enc : Text) × (s ≡ b'z' ∷ enc)
        × (b.decode enc ≡ ok (0xed ∷ 0x01 ∷ key))
        × (length key ≡ 32)
  unfolding decode_ed25519_multikey
  decode_ed25519_multikey_sound s {key} h =
      Ensures-ok
        {P = λ key.
          (enc : Text) × (s ≡ b'z' ∷ enc)
          × (b.decode enc ≡ ok (0xed ∷ 0x01 ∷ key))
          × (length key ≡ 32)}
        (Ensures-bind (map_err error_text (multibase_from_text s)) _ (λ mb e.
          let (enc, whole, decoded) =
            Ensures-ok (multibase_from_text_sound s)
              (map_err-eq-ok error_text (multibase_from_text s) e) in
          Ensures-weaken (ed25519_key_of_sound mb.key)
            (λ k found. (enc, whole, rw (← found.0) decoded, found.1))))
        h

  pub decode_multibase_z_complete :
      (enc : Text) {bytes : List ℕ}
      → b.decode enc ≡ ok bytes
      → decode_multibase_z (b'z' ∷ enc) ≡ ok bytes
  unfolding decode_multibase_z strip_prefix
  decode_multibase_z_complete enc h = simp h

  pub decode_ed25519_multikey_complete :
      (enc : Text) {key : List ℕ}
      → b.decode enc ≡ ok (0xed ∷ 0x01 ∷ key)
      → length key ≡ 32
      → decode_ed25519_multikey (b'z' ∷ enc) ≡ ok key
  unfolding decode_ed25519_multikey multibase_from_text
  decode_ed25519_multikey_complete enc h size = simp (h, size)
