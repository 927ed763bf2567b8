-- ===== src/Did/Url.antt =====
-- URLs made from an identifier: where its log is served, and its text as one path segment.
use swiyu_rs.Prelude.{ℕ, ◌+◌, ◌*◌, ◌-◌, ◌≡◌, ◌≢◌, refl, ap, ◌∙◌, none, some, [], ◌∷◌, ◌++◌, arith}
use swiyu_rs.Prelude.{◌==◌, leb, if◌then◌else◌, All, All-append}
use swiyu_rs.Prelude.Text.{Text, text, replace, replace_from, strip_prefix, split, Lacks}
use swiyu_rs.Did.Identifier.{Did, to_text}

unfoldable pub log_url : Did → Text
log_url d =
    let host = replace d.domain (text "%3A") (text ":") in
    elim d.path [
      | some p ↦
          text "https://"
          ++ host
          ++ text "/"
          ++ replace p (text ":") (text "/")
          ++ text "/did.jsonl"
      | none ↦ text "https://" ++ host ++ text "/.well-known/did.jsonl"
    ]

-- One round of `percent_encode_path_segment`.
unfoldable pub encode_char : ℕ → Text
encode_char c =
    if c == b':'
    then text "%3A"
    else if c == b'/'
    then text "%2F"
    else if c == b'?'
    then text "%3F"
    else if c == b'#'
    then text "%23"
    else if c == b'%'
    then text "%25"
    else if c == b' '
    then text "%20"
    else c ∷ []

unfoldable pub percent_encode_path_segment : Text → Text
unfolding encode_char
percent_encode_path_segment [] = []
percent_encode_path_segment (c ∷ s) = encode_char c ++ percent_encode_path_segment s

unfoldable pub url_path_segment : Did → Text
unfolding percent_encode_path_segment to_text
url_path_segment d = percent_encode_path_segment (to_text d)

-- A character that can stand in a path segment of a URL.
abbrev pub IsSegmentChar : ℕ → Type 0
IsSegmentChar c = (c ≢ b':') × (c ≢ b'/') × (c ≢ b'?') × (c ≢ b'#') × (c ≢ b' ')

-- The value of an upper-case hexadecimal digit.
abbrev pub hex_value : ℕ → ℕ
hex_value c = if leb c b'9' then c - b'0' else c - b'A' + 10

-- Percent-decoding as the URL standard describes it, against which the encoding is stated.
unfoldable pub percent_decode : Text → Text
percent_decode [] = []
percent_decode (c ∷ []) = c ∷ []
percent_decode (c ∷ h ∷ []) = c ∷ h ∷ []
percent_decode (c ∷ h ∷ l ∷ s) =
    let plain = c ∷ percent_decode (h ∷ l ∷ s) in
    let coded = (hex_value h * 16 + hex_value l) ∷ percent_decode s in
    if c == b'%' then coded else plain

decode_plain : (c : ℕ) (s : Text) → c ≢ b'%' → percent_decode (c ∷ s) ≡ c ∷ percent_decode s
unfolding percent_decode
decode_plain c [] h = refl
decode_plain c (d ∷ []) h = refl
decode_plain c (d ∷ e ∷ s) h = ground arith

decode-encode_char : (c : ℕ) (s : Text) → percent_decode (encode_char c ++ s) ≡ c ∷ percent_decode s
unfolding encode_char percent_decode
decode-encode_char c s = ground (arith, decode_plain c s)

-- Percent-decoding undoes the encoding of every text.
pub percent_decode-encode : (s : Text) → percent_decode (percent_encode_path_segment s) ≡ s
unfolding percent_encode_path_segment
percent_decode-encode [] = unfold percent_decode in refl
percent_decode-encode (c ∷ s) =
    decode-encode_char c (percent_encode_path_segment s) ∙ ap (λ t. c ∷ t) (percent_decode-encode s)

encode_char-IsSegmentChar : (c : ℕ) → All IsSegmentChar (encode_char c)
unfolding encode_char
encode_char-IsSegmentChar c = ground arith

encoded-IsSegmentChar : (s : Text) → All IsSegmentChar (percent_encode_path_segment s)
unfolding percent_encode_path_segment
encoded-IsSegmentChar [] = tt
encoded-IsSegmentChar (c ∷ s) =
    All-append IsSegmentChar (encode_char c) (percent_encode_path_segment s)
      (encode_char-IsSegmentChar c) (encoded-IsSegmentChar s)

-- The path segment of an identifier holds no character that would end or split the segment, and
-- decodes to the identifier's text.
pub url_path_segment_lem :
    (d : Did)
    → All IsSegmentChar (url_path_segment d) × (percent_decode (url_path_segment d) ≡ to_text d)
unfolding url_path_segment
url_path_segment_lem d = (encoded-IsSegmentChar (to_text d), percent_decode-encode (to_text d))

replace_from_char :
    (c d x : ℕ) (s : Text)
    → replace_from (c ∷ []) (d ∷ []) 0 (x ∷ s)
      ≡ (if c == x then d else x) ∷ replace_from (c ∷ []) (d ∷ []) 0 s
unfolding replace_from strip_prefix
replace_from_char c d x s = ground arith

split-replace_from :
    (c d : ℕ) (s : Text) → Lacks d s → split d (replace_from (c ∷ []) (d ∷ []) 0 s) ≡ split c s
unfolding split
split-replace_from c d [] h = unfold replace_from in refl
split-replace_from c d (x ∷ s) (hx, h) =
    rw replace_from_char (ground (arith, split-replace_from c d s h))

-- The address of the log has the segments of the path, in their order, between the host and the
-- file's name, if the path has no slash of its own.
pub log_url-segments :
    (d : Did) (p : Text)
    → d.path ≡ some p
    → Lacks b'/' p
    → (middle : Text) × (log_url d
        ≡ text "https://"
          ++ replace d.domain (text "%3A") (text ":")
          ++ text "/"
          ++ middle
          ++ text "/did.jsonl")
      × (split b'/' middle ≡ split b':' p)
unfolding log_url
log_url-segments d p e h = (
  replace p (text ":") (text "/"),
  rw (e, log_url),
  unfold replace in split-replace_from b':' b'/' p h,
)
