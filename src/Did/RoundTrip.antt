-- ===== src/Did/RoundTrip.antt =====
-- Identifiers and their text, both ways.
use swiyu_rs.Prelude.{◌≡◌, ◌≢◌, refl, sym, ap, ◌∙◌, true, Option, none, some, List, [], ◌∷◌, ◌++◌}
use swiyu_rs.Prelude.{ok, guard, Option-cases, inl, inr}
use swiyu_rs.Prelude.{append-nil, Ensures, returns, fails, Ensures-bind, Ensures-ok, guard-eq-ok}
use swiyu_rs.Prelude.Text.{Text, Lacks, strip_prefix, split_once, splitn}
use swiyu_rs.Prelude.Text.{strip_prefix_sound, split_once-append, split_once_sound}
use swiyu_rs.Prelude.Text.{split_once-none, Lacks-split_once}
use swiyu_rs.Did.Identifier.{Method, tdw, web_vh, prefix, Did, is_valid_domain, path_is_valid}
use swiyu_rs.Did.Identifier.{invalid_domain, invalid_path, path_suffix, to_text}
use swiyu_rs.Did.Parse.{split_method, scid_of, domain_of, from_parts, from_text, next}

abbrev pub ScidIsPlain : Option Text → Type 0
ScidIsPlain none = Unit
ScidIsPlain (some s) = (s ≢ []) × Lacks b':' s

-- What the text of an identifier can carry: an identifier with no colon that is not empty, where there
-- is one, a valid domain with no colon, and a valid path, where there is one.
pub record IsWellFormed (d : Did) : Type 0 where
  pub scid_plain : ScidIsPlain d.scid
  pub domain_plain : Lacks b':' d.domain
  pub domain_valid : is_valid_domain d.domain ≡ true
  pub path_valid : path_is_valid d.path ≡ true

split_method-prefix : (m : Method) (r : Text) → split_method (prefix m ++ r) ≡ ok (m, r)
unfolding split_method strip_prefix
split_method-prefix tdw r = refl
split_method-prefix web_vh r = refl

split_method-Ensures : (s : Text) → Ensures (λ p. s ≡ prefix p.0 ++ p.1) (split_method s)
split_method-Ensures s = elim (Option-cases (strip_prefix (prefix tdw) s)) [
  | inr (r, e) ↦
      unfold split_method in rw (e, split_method) (returns (strip_prefix_sound (prefix tdw) s r e))
  | inl e ↦ elim (Option-cases (strip_prefix (prefix web_vh) s)) [
    | inr (r, f) ↦
        unfold split_method in
        rw (e, f, split_method) (returns (strip_prefix_sound (prefix web_vh) s r f))
    | inl f ↦ unfold split_method in rw (e, f, split_method) fails
  ]
]

abbrev path_parts : Option Text → List Text
path_parts none = []
path_parts (some p) = p ∷ []

next-path_parts : (path : Option Text) → next (path_parts path) ≡ path
next-path_parts none = refl
next-path_parts (some p) = refl

-- The parts of what stands behind the prefix.
splitn-three :
    (a d : Text) (path : Option Text)
    → Lacks b':' a
    → Lacks b':' d
    → splitn 3 b':' (a ++ b':' ∷ (d ++ path_suffix path)) ≡ a ∷ d ∷ path_parts path
unfolding splitn
splitn-three a d none ha hd =
    let bare : d ++ [] ≡ d = append-nil d in
    rw bare (rw (split_once-append b':' a d ha, splitn) (rw (split_once-none b':' d hd, splitn)))
splitn-three a d (some p) ha hd =
    rw (split_once-append b':' a (d ++ b':' ∷ p) ha, splitn)
      (rw (split_once-append b':' d p hd, splitn))

scid_of-filled : (s : Text) → s ≢ [] → scid_of s ≡ some s
scid_of-filled [] h = absurd (h refl)
scid_of-filled (c ∷ s) h = refl

domain_of-valid : (d : Text) → is_valid_domain d ≡ true → domain_of d ≡ ok d
unfolding is_valid_domain
domain_of-valid [] h = cc
domain_of-valid (c ∷ d) h = refl

from_parts-three :
    (m : Method) (s d : Text) (path : Option Text)
    → s ≢ []
    → is_valid_domain d ≡ true
    → path_is_valid path ≡ true
    → from_parts m (s ∷ d ∷ path_parts path)
      ≡ ok (record { method = m; scid = some s; domain = d; path = path })
unfolding from_parts
from_parts-three m s d path hs hd hp =
    rw (domain_of-valid d hd, hd, next-path_parts path, hp, scid_of-filled s hs)

pub from_text-printed :
    (m : Method) (s d : Text) (path : Option Text)
    → IsWellFormed (record { method = m; scid = some s; domain = d; path = path })
    → from_text (prefix m ++ (s ++ b':' ∷ (d ++ path_suffix path)))
      ≡ ok (record { method = m; scid = some s; domain = d; path = path })
unfolding from_text
from_text-printed m s d path w =
    rw (split_method-prefix m _, from_text)
      (rw (splitn-three s d path w.scid_plain.1 w.domain_plain)
        (from_parts-three m s d path w.scid_plain.0 w.domain_valid w.path_valid))

from_text-with_scid :
    (m : Method) (scid : Option Text) (d : Text) (path : Option Text)
    → IsWellFormed (record { method = m; scid = scid; domain = d; path = path })
    → scid ≢ none
    → from_text (to_text (record { method = m; scid = scid; domain = d; path = path }))
      ≡ ok (record { method = m; scid = scid; domain = d; path = path })
unfolding to_text
from_text-with_scid m none d path w h = absurd (h refl)
from_text-with_scid m (some s) d path w h = from_text-printed m s d path w

-- Parsing the text of a well-formed identifier that has its SCID gives the identifier back.
pub from_text-to_text : (d : Did) → IsWellFormed d → d.scid ≢ none → from_text (to_text d) ≡ ok d
from_text-to_text d = from_text-with_scid d.method d.scid d.domain d.path

-- The text with nothing where the SCID is missing: `Display` writes a placeholder there.
abbrev pub raw_scid : Option Text → Text
raw_scid none = []
raw_scid (some s) = s

abbrev pub raw_text : Did → Text
raw_text d = prefix d.method ++ (raw_scid d.scid ++ b':' ∷ (d.domain ++ path_suffix d.path))

filled-ne-nil : (d : Text) {e : Text} → domain_of d ≡ ok e → d ≡ e
filled-ne-nil [] h = cc
filled-ne-nil (c ∷ d) h = cc

scid_of-IsPlain : (s : Text) → Lacks b':' s → ScidIsPlain (scid_of s)
scid_of-IsPlain [] h = tt
scid_of-IsPlain (c ∷ s) h = (λ e. cc, h)

raw_scid-scid_of : (s : Text) → raw_scid (scid_of s) ≡ s
raw_scid-scid_of [] = refl
raw_scid-scid_of (c ∷ s) = refl

-- What the parts of `rest` parse to spells `rest` again.
from_parts-Ensures :
    (m : Method) (s d : Text) (path : Option Text) (rest : Text)
    → rest ≡ s ++ b':' ∷ (d ++ path_suffix path)
    → Lacks b':' s
    → Lacks b':' d
    → Ensures
        (λ r. IsWellFormed r × (prefix m ++ rest ≡ raw_text r))
        (from_parts m (s ∷ d ∷ path_parts path))
unfolding from_parts
from_parts-Ensures m s d path rest whole hs hd = Ensures-bind (domain_of d) _ λ domain filled.
    Ensures-bind (guard (is_valid_domain domain) invalid_domain) _ λ _ valid.
      Ensures-bind (guard (path_is_valid (next (path_parts path))) invalid_path) _ λ _ fine.
        returns
          {a = record {
            method = m;
            scid = scid_of s;
            domain = domain;
            path = next (path_parts path);
          }}
          (
            record {
              scid_plain = scid_of-IsPlain s hs;
              domain_plain = rw (← filled-ne-nil d filled) hd;
              domain_valid = guard-eq-ok (is_valid_domain domain) invalid_domain valid;
              path_valid = guard-eq-ok (path_is_valid (next (path_parts path))) invalid_path fine;
            },
            rw (whole, raw_scid-scid_of s, ← filled-ne-nil d filled, next-path_parts path),
          )

from_splitn-Ensures :
    (m : Method) (rest : Text)
    → Ensures
        (λ r. IsWellFormed r × (prefix m ++ rest ≡ raw_text r))
        (from_parts m (splitn 3 b':' rest))
from_splitn-Ensures m rest = elim (Option-cases (split_once b':' rest)) [
  | inl e ↦ unfold splitn in rw (e, splitn) (unfold from_parts in fails)
  | inr ((s, tail), e) ↦
      let (whole, hs) = split_once_sound b':' rest e in
      elim (Option-cases (split_once b':' tail)) [
        | inl f ↦
            unfold splitn in
            rw (e, splitn)
              (rw (f, splitn)
                (from_parts-Ensures m s tail none rest
                  (whole ∙ ap (λ t. s ++ b':' ∷ t) (sym (append-nil tail))) hs
                  (Lacks-split_once b':' tail f)))
        | inr ((d, p), f) ↦
            let (inner, hd) = split_once_sound b':' tail f in
            unfold splitn in
            rw (e, splitn)
              (rw (f, splitn)
                (from_parts-Ensures m s d (some p) rest (whole ∙ ap (λ t. s ++ b':' ∷ t) inner) hs
                  hd))
      ]
]

from_text-Ensures : (s : Text) → Ensures (λ d. IsWellFormed d × (s ≡ raw_text d)) (from_text s)
unfolding from_text
from_text-Ensures s =
    Ensures-bind (split_method s) _
      λ p split. rw (Ensures-ok (split_method-Ensures s) split) (from_splitn-Ensures p.0 p.1)

-- Whatever parses is well formed, and its text is the input, with nothing in place of a missing SCID.
pub from_text_sound : (s : Text) (d : Did) → from_text s ≡ ok d → IsWellFormed d × (s ≡ raw_text d)
from_text_sound s d h = Ensures-ok (from_text-Ensures s) h

raw_text-with_scid :
    (m : Method) (scid : Option Text) (d : Text) (path : Option Text)
    → scid ≢ none
    → to_text (record { method = m; scid = scid; domain = d; path = path })
      ≡ raw_text (record { method = m; scid = scid; domain = d; path = path })
unfolding to_text
raw_text-with_scid m none d path h = absurd (h refl)
raw_text-with_scid m (some s) d path h = refl

-- An identifier that was parsed and has its SCID prints as the text that it was parsed from.
pub to_text-from_text : (s : Text) (d : Did) → from_text s ≡ ok d → d.scid ≢ none → to_text d ≡ s
to_text-from_text s d h scid =
    raw_text-with_scid d.method d.scid d.domain d.path scid ∙ sym (from_text_sound s d h).1
