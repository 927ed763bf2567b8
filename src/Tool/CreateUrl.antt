-- ===== src/Tool/CreateUrl.antt =====
-- The URL of a DID's log, as `create` reads it.
use swiyu_rs.Prelude.{
  ℕ, ◌≡◌, ◌≢◌, refl, ap, sym, ◌∙◌, false, Option, none, some, List, [], ◌∷◌, ◌++◌, ok, All,
  All-append, arith, ◌==◌, Bool-cases, Option-cases, inl, inr,
}
use swiyu_rs.Prelude.{append_assoc}
use swiyu_rs.Prelude.Text.{
  Text, text, text_eq, text_eq_sound, is_empty, strip_prefix, strip_prefix-append, split,
  split_once-append, split_once-none, replace, replace_from, Lacks,
}
use swiyu_rs.Prelude.Splits.{split-nonempty, split-append}
use swiyu_rs.Did.Identifier.{Did}
use swiyu_rs.Did.Url.{log_url, log_url-segments}
use swiyu_rs.Tool.Create.{non_empty, without_file, join, did_path, url_to_did_components}

join-head :
    (sep c : ℕ) (x : Text) (xs : List Text) → join sep ((c ∷ x) ∷ xs) ≡ c ∷ join sep (x ∷ xs)
unfolding join
join-head sep c x [] = refl
join-head sep c x (y ∷ ys) = refl

join-split : (sep : ℕ) (s : Text) → join sep (split sep s) ≡ s
unfolding split join
join-split sep [] = refl
join-split sep (c ∷ s) =
    let (x, xs, e) = split-nonempty sep s in
    let behind : join sep (x ∷ xs) ≡ s = rw (← e) (join-split sep s) in
    elim (Bool-cases (c == sep)) [
      | inl h ↦ let same : sep ≡ c = ground arith in rw (h, e, behind, same) refl
      | inr h ↦ rw (h, e, join-head sep c x xs, behind) refl
    ]

replace_from-Lacks : (c : ℕ) (from to s : Text) → Lacks c s → replace_from (c ∷ from) to 0 s ≡ s
unfolding replace_from strip_prefix
replace_from-Lacks c from to [] h = refl
replace_from-Lacks c from to (d ∷ s) (hd, h) = ground (arith, replace_from-Lacks c from to s h)

non_empty-All : (ss : List Text) → All (λ s. s ≢ []) ss → non_empty ss ≡ ss
unfolding non_empty
non_empty-All [] h = refl
non_empty-All ([] ∷ ss) (h, hs) = absurd (h refl)
non_empty-All ((c ∷ s) ∷ ss) (h, hs) = simp (non_empty-All ss hs)

without_file-append : (ss : List Text) → without_file (ss ++ text "did.jsonl" ∷ []) ≡ ss
unfolding without_file
without_file-append [] = refl
without_file-append (s ∷ []) = refl
without_file-append (s ∷ r ∷ ss) = ap (λ rest. s ∷ rest) (without_file-append (r ∷ ss))

-- A path whose parts a URL can have: no slash and no empty part, and not the name of the root
abbrev pub IsUrlPath : Option Text → Type 0
IsUrlPath none = Unit
IsUrlPath (some p) = Lacks b'/' p × All (λ s. s ≢ []) (split b':' p) × (p ≢ text ".well-known")

did_path-join :
    (x : Text) (xs : List Text)
    → join b':' (x ∷ xs) ≢ text ".well-known"
    → did_path (x ∷ xs) ≡ some (join b':' (x ∷ xs))
unfolding did_path
did_path-join x [] other = elim (Bool-cases (text_eq x (text ".well-known"))) [
  | inl h ↦ absurd (other (text_eq_sound x (text ".well-known") h))
  | inr h ↦ rw h refl
]
did_path-join x (y ∷ ys) other = refl

did_path-split : (p : Text) → p ≢ text ".well-known" → did_path (split b':' p) ≡ some p
did_path-split p other =
    let (x, xs, e) = split-nonempty b':' p in
    let joined : join b':' (x ∷ xs) ≡ p = rw (← e) (join-split b':' p) in
    rw (e, did_path-join x xs (rw joined other)) (ap some joined)

is_empty-false : (s : Text) → s ≢ [] → is_empty s ≡ false
is_empty-false [] h = absurd (h refl)
is_empty-false (c ∷ s) h = refl

components :
    (host segments : Text)
    → host ≢ []
    → Lacks b':' host
    → Lacks b'/' host
    → url_to_did_components (text "https://" ++ host ++ b'/' ∷ segments)
      ≡ ok (host, did_path (without_file (non_empty (split b'/' segments))))
unfolding url_to_did_components
components host segments some_host no_colon no_slash = simp (
  strip_prefix-append (text "https://") (host ++ b'/' ∷ segments),
  split_once-append b'/' host segments no_slash,
  is_empty-false host some_host,
  split_once-none b':' host no_colon,
)

url_to_did_components-root :
    (d : Did)
    → d.domain ≢ []
    → replace d.domain (text "%3A") (text ":") ≡ d.domain
    → Lacks b':' d.domain
    → Lacks b'/' d.domain
    → d.path ≡ none
    → url_to_did_components (log_url d) ≡ ok (d.domain, none)
unfolding log_url split non_empty without_file did_path
url_to_did_components-root d some_domain host no_colon no_slash e =
    rw (e, host) (components d.domain (text ".well-known/did.jsonl") some_domain no_colon no_slash)

url_to_did_components-path :
    (d : Did) (p : Text)
    → d.domain ≢ []
    → replace d.domain (text "%3A") (text ":") ≡ d.domain
    → Lacks b':' d.domain
    → Lacks b'/' d.domain
    → d.path ≡ some p
    → IsUrlPath (some p)
    → url_to_did_components (log_url d) ≡ ok (d.domain, some p)
url_to_did_components-path d p some_domain host no_colon no_slash e (p_no_slash, parts, other) =
    let (middle, at, same) = log_url-segments d p e p_no_slash in
    let file : split b'/' (text "did.jsonl") ≡ text "did.jsonl" ∷ [] = unfold split in refl in
    let segments : split b'/' (middle ++ b'/' ∷ text "did.jsonl")
        ≡ split b':' p ++ text "did.jsonl" ∷ [] =
      rw (split-append b'/' middle (text "did.jsonl"), same, file) refl in
    let kept = non_empty-All (split b':' p ++ text "did.jsonl" ∷ []) (
      All-append (λ s. s ≢ []) (split b':' p) (text "did.jsonl" ∷ []) parts
        (λ h. ground arith, tt)) in
    let path_eq : did_path
          (without_file (non_empty (split b'/' (middle ++ b'/' ∷ text "did.jsonl"))))
        ≡ some p =
      rw (segments, kept, without_file-append (split b':' p)) (did_path-split p other) in
    let url_eq : log_url d
        ≡ text "https://" ++ d.domain ++ b'/' ∷ (middle ++ b'/' ∷ text "did.jsonl") =
      (rw host at at) ∙ simp append_assoc in
    ap url_to_did_components url_eq
    ∙ components d.domain (middle ++ b'/' ∷ text "did.jsonl") some_domain no_colon no_slash
    ∙ ap (λ o. ok (d.domain, o)) path_eq

-- The address of a DID's log gives back the DID's domain and path: for a domain that is not empty and
-- has no percent sign, colon and slash, and for a path that has no slash and no empty part, and that is
-- not `.well-known`.
pub url_to_did_components-log_url :
    (d : Did)
    → d.domain ≢ []
    → Lacks b'%' d.domain
    → Lacks b':' d.domain
    → Lacks b'/' d.domain
    → IsUrlPath d.path
    → url_to_did_components (log_url d) ≡ ok (d.domain, d.path)
unfolding replace
url_to_did_components-log_url d some_domain no_percent no_colon no_slash plain =
    let host = replace_from-Lacks b'%' (text "3A") (text ":") d.domain no_percent in
    elim (Option-cases d.path) [
      | inl e ↦
          url_to_did_components-root d some_domain host no_colon no_slash e
          ∙ ap (λ o. ok (d.domain, o)) (sym e)
      | inr (p, e) ↦
          url_to_did_components-path d p some_domain host no_colon no_slash e (rw e at plain)
          ∙ ap (λ o. ok (d.domain, o)) (sym e)
    ]
