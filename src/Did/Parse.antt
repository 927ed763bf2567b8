-- ===== src/Did/Parse.antt =====
-- `FromStr for DID`
use swiyu_rs.Prelude.{Option, none, some, List, [], ◌∷◌, Result, ok, err, ◌>>=◌, ◌>>◌}
use swiyu_rs.Prelude.{guard, if◌then◌else◌}
use swiyu_rs.Prelude.Text.{Text, strip_prefix, splitn, is_empty}
use swiyu_rs.Did.Identifier.{
  Method, tdw, web_vh, prefix, Did, DidError, missing_prefix, missing_scid,
}
use swiyu_rs.Did.Identifier.{
  missing_domain, invalid_domain, invalid_path, is_valid_domain, path_is_valid,
}

-- The method, and what stands behind its prefix.
unfoldable pub split_method : Text → Result DidError (Method × Text)
unfolding prefix
split_method s = elim (strip_prefix (prefix tdw) s) [
  | some r ↦ ok (tdw, r)
  | none ↦ elim (strip_prefix (prefix web_vh) s) [
    | some r ↦ ok (web_vh, r)
    | none ↦ err missing_prefix
  ]
]

abbrev pub scid_of : Text → Option Text
scid_of s = if is_empty s then none else some s

-- `parts.next().filter(|s| !s.is_empty()).ok_or(MissingDomain)?`
abbrev pub domain_of : Text → Result DidError Text
domain_of s = if is_empty s then err missing_domain else ok s

-- `parts.next()`
abbrev pub next : List Text → Option Text
next [] = none
next (p ∷ _) = some p

-- The parts that `splitn(3, ':')` gives: identifier, domain and path.
unfoldable pub from_parts : Method → List Text → Result DidError Did
from_parts method [] = err missing_scid
from_parts method (s ∷ []) = err missing_domain
from_parts method (s ∷ d ∷ rest) = do
  domain ← domain_of d
  guard (is_valid_domain domain) invalid_domain
  let path = next rest
  guard (path_is_valid path) invalid_path
  ok (record { method = method; scid = scid_of s; domain = domain; path = path })

unfoldable pub from_text : Text → Result DidError Did
unfolding split_method splitn
from_text s = do (method, rest) ← split_method s; from_parts method (splitn 3 b':' rest)
