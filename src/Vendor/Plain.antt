-- ===== src/Vendor/Plain.antt =====
-- Concrete codecs: base64 as the bytes themselves, and zlib as bytes behind one header byte.
use swiyu_rs.Prelude.{ℕ, ◌%◌, ◌≡◌, refl, List, [], ◌∷◌, Result, ok, err, All, ltb, ◌&&◌, Bool, true}
use swiyu_rs.Prelude.{if◌then◌else◌, arith, map}
use swiyu_rs.Prelude.Text.{Text, text}
use swiyu_rs.Prelude.Bytes.{IsByte}
use swiyu_rs.Vendor.Encoding.{Base64, Zlib}

abbrev pub are_bytes : List ℕ → Bool
are_bytes [] = true
are_bytes (b ∷ bs) = ltb b 256 && are_bytes bs

pub are_bytes-All : (bs : List ℕ) → are_bytes bs ≡ true → All IsByte bs
are_bytes-All [] h = tt
are_bytes-All (b ∷ bs) h = (ground arith, are_bytes-All bs (ground arith))

All-are_bytes : (bs : List ℕ) → All IsByte bs → are_bytes bs ≡ true
All-are_bytes [] h = refl
All-are_bytes (b ∷ bs) (hb, h) = ground (arith, All-are_bytes bs h)

abbrev pub as_bytes : Text → Result Text (List ℕ)
as_bytes s = if are_bytes s then ok s else err (text "Invalid symbol")

pub as_bytes-ok : (b : List ℕ) → All IsByte b → as_bytes b ≡ ok b
as_bytes-ok b h = rw (All-are_bytes b h)

pub as_bytes-IsByte : (s b : List ℕ) → as_bytes s ≡ ok b → All IsByte b
as_bytes-IsByte s b h = ground (arith, are_bytes-All s)

instance abbrev pub plain_base64 : Base64
plain_base64 = record {
  encode = λ b. b;
  decode = as_bytes;
  decode-encode = as_bytes-ok;
  decode-IsByte = as_bytes-IsByte;
}

-- Bytes behind the header; what is no byte is cut down to one.
abbrev pack : List ℕ → List ℕ
pack b = 120 ∷ map (λ x. x % 256) b

abbrev unpack : List ℕ → Result Text (List ℕ)
unpack [] = err (text "corrupt deflate stream")
unpack (h ∷ b) = as_bytes b

map-IsByte : (b : List ℕ) → All IsByte (map (λ x. x % 256) b)
map-IsByte [] = tt
map-IsByte (x ∷ b) = (omega arith, map-IsByte b)

map-bytes : (b : List ℕ) → All IsByte b → map (λ x. x % 256) b ≡ b
map-bytes [] h = refl
map-bytes (x ∷ b) (hx, h) = let e : x % 256 ≡ x = omega arith in rw (e, map-bytes b h)

pub pack-IsByte : (b : List ℕ) → All IsByte (pack b)
pack-IsByte b = (omega arith, map-IsByte b)

pub unpack-pack : (b : List ℕ) → All IsByte b → unpack (pack b) ≡ ok b
unpack-pack b h = rw (map-bytes b h) (as_bytes-ok b h)

pub unpack-IsByte : (z b : List ℕ) → unpack z ≡ ok b → All IsByte b
unpack-IsByte [] b h = cc
unpack-IsByte (x ∷ z) b h = as_bytes-IsByte z b h

instance abbrev pub plain_zlib : Zlib
plain_zlib = record {
  compress = pack;
  decompress = unpack;
  compress-IsByte = pack-IsByte;
  decompress-compress = unpack-pack;
  decompress-IsByte = unpack-IsByte;
}
