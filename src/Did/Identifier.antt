-- ===== src/Did/Identifier.antt =====
-- `DID`, its validation and its text.
use swiyu_rs.Prelude.{Bool, true, not, ◌&&◌, Option, none, some, List, [], ◌∷◌, ◌++◌, Result, ok}
use swiyu_rs.Prelude.{◌>>◌, guard}
use swiyu_rs.Prelude.Text.{Text, text, split, is_empty}

pub data Method : Type 0 where
  tdw web_vh : Method

unfoldable pub prefix : Method → Text
prefix tdw = text "did:tdw:"
prefix web_vh = text "did:webvh:"

pub record Did : Type 0 where
  pub method : Method
  pub scid : Option Text
  pub domain : Text
  pub path : Option Text

pub data DidError : Type 0 where
  missing_prefix missing_scid missing_domain invalid_domain invalid_path : DidError

-- `Display for DIDError`
unfoldable pub did_error_text : DidError → Text
did_error_text missing_prefix = text "DID must start with 'did:tdw:' or 'did:webvh:'"
did_error_text missing_scid = text "DID is missing the SCID component"
did_error_text missing_domain = text "DID is missing the domain component"
did_error_text invalid_domain = text "domain must be a '.'-separated sequence of non-empty segments"
did_error_text invalid_path = text "path must be a ':'-separated list of non-empty segments"

-- `split(c).all(|seg| !seg.is_empty())`
abbrev pub all_filled : List Text → Bool
all_filled [] = true
all_filled (p ∷ ps) = not (is_empty p) && all_filled ps

unfoldable pub is_valid_domain : Text → Bool
is_valid_domain domain = not (is_empty domain) && all_filled (split b'.' domain)

unfoldable pub is_valid_path : Text → Bool
is_valid_path path = not (is_empty path) && all_filled (split b':' path)

-- A path is tested only where there is one.
abbrev pub path_is_valid : Option Text → Bool
path_is_valid none = true
path_is_valid (some p) = is_valid_path p

unfoldable pub validate_and_build : Method → Option Text → Text → Option Text → Result DidError Did
validate_and_build method scid domain path = do
  guard (is_valid_domain domain) invalid_domain
  guard (path_is_valid path) invalid_path
  ok (record { method = method; scid = scid; domain = domain; path = path })

unfoldable pub try_new_tdw : Option Text → Text → Option Text → Result DidError Did
try_new_tdw = validate_and_build tdw

unfoldable pub try_new_webvh : Option Text → Text → Option Text → Result DidError Did
try_new_webvh = validate_and_build web_vh

-- `unwrap_or("{SCID}")`
abbrev pub scid_text : Option Text → Text
scid_text none = text "{SCID}"
scid_text (some s) = s

abbrev pub path_suffix : Option Text → Text
path_suffix none = []
path_suffix (some p) = b':' ∷ p

-- `Display`
unfoldable pub to_text : Did → Text
unfolding prefix
to_text d = prefix d.method ++ (scid_text d.scid ++ b':' ∷ (d.domain ++ path_suffix d.path))
