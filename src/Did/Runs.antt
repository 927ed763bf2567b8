-- ===== src/Did/Runs.antt =====
-- Concrete runs, and the theorems at concrete inputs.
use swiyu_rs.Prelude.{◌≡◌, refl, some, ok, err, arith}
use swiyu_rs.Prelude.Text.{text, replace, strip_prefix, split_once, split}
use swiyu_rs.Did.Identifier.{Did, tdw, missing_prefix, missing_domain, invalid_path, to_text}
use swiyu_rs.Did.Identifier.{try_new_tdw, is_valid_domain, is_valid_path}
use swiyu_rs.Did.Parse.{from_text, from_parts}
use swiyu_rs.Did.RoundTrip.{IsWellFormed, from_text-to_text, to_text-from_text}
use swiyu_rs.Did.Port.{did_of_parts, from_text-did_of_parts}
use swiyu_rs.Did.Url.{log_url}

abbrev issuer : Did
issuer = record {
  method = tdw;
  scid = some (text "abc123");
  domain = text "example.com%3A3000";
  path = some (text "dids:issuer");
}

issuer-IsWellFormed : IsWellFormed issuer
unfolding is_valid_domain is_valid_path split
issuer-IsWellFormed = record {
  scid_plain = (λ e. cc, omega arith);
  domain_plain = omega arith;
  domain_valid = refl;
  path_valid = refl;
}

issuer-text : to_text issuer ≡ text "did:tdw:abc123:example.com%3A3000:dids:issuer"
unfolding to_text
issuer-text = refl

parse_issuer : from_text (text "did:tdw:abc123:example.com%3A3000:dids:issuer") ≡ ok issuer
unfolding from_text from_parts strip_prefix split_once is_valid_domain is_valid_path split
parse_issuer = refl

parse_errors :
    (from_text (text "did:key:abc") ≡ err missing_prefix)
    × (from_text (text "did:webvh:abc:") ≡ err missing_domain)
    × (from_text (text "did:tdw:abc:example.com:a::b") ≡ err invalid_path)
unfolding from_text from_parts strip_prefix split_once is_valid_domain is_valid_path split
parse_errors = (refl, refl, refl)

issuer_log : log_url issuer ≡ text "https://example.com:3000/dids/issuer/did.jsonl"
unfolding log_url replace
issuer_log = refl

from_text-to_text_example : from_text (to_text issuer) ≡ ok issuer
from_text-to_text_example = from_text-to_text issuer issuer-IsWellFormed (λ e. cc)

to_text-from_text_example : to_text issuer ≡ text "did:tdw:abc123:example.com%3A3000:dids:issuer"
to_text-from_text_example = to_text-from_text _ issuer parse_issuer (λ e. cc)

-- A host with a port
from_text-did_of_parts_example :
    (try_new_tdw (some (text "abc")) (text "example.com:3000") (some (text "a"))
      ≡ ok (did_of_parts tdw (text "abc") (text "example.com:3000") (some (text "a"))))
    × (from_text
          (to_text (did_of_parts tdw (text "abc") (text "example.com:3000") (some (text "a"))))
        ≡ ok (did_of_parts tdw (text "abc") (text "example.com") (some (text "3000:a"))))
unfolding is_valid_domain is_valid_path split
from_text-did_of_parts_example =
    from_text-did_of_parts tdw (text "abc") (text "example.com") (text "3000") (some (text "a"))
      (λ h. ground arith) (omega arith) refl (omega arith) (λ h. ground arith) (omega arith)
      (omega arith) refl
