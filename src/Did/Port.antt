-- ===== src/Did/Port.antt =====
-- A domain with a port: the constructors accept it, and its text parses to another identifier.
use swiyu_rs.Prelude.{
  ℕ, ◌≡◌, ◌≢◌, refl, true, Option, none, some, List, [], ◌∷◌, ◌++◌, ok, arith, Bool-cases, inl, inr,
  ◌==◌, append_assoc, append-nil, Result,
}
use swiyu_rs.Prelude.Text.{Text, split, push_head, Lacks}
use swiyu_rs.Prelude.Splits.{split-Lacks, split-part, split-nonempty}
use swiyu_rs.Did.Identifier.{
  Method, DidError, tdw, web_vh, Did, is_valid_domain, is_valid_path, path_is_valid, all_filled,
  validate_and_build, try_new_tdw, try_new_webvh, path_suffix, to_text,
}
use swiyu_rs.Did.Parse.{from_text}
use swiyu_rs.Did.RoundTrip.{from_text-printed}

-- The last part goes on with `rest`.
unfoldable grow : Text → List Text → List Text
grow rest [] = []
grow rest (p ∷ []) = (p ++ rest) ∷ []
grow rest (p ∷ q ∷ ps) = p ∷ grow rest (q ∷ ps)

grow-head :
    (rest : Text) (c : ℕ) (p : Text) (ps : List Text)
    → push_head c (grow rest (p ∷ ps)) ≡ grow rest ((c ∷ p) ∷ ps)
unfolding grow
grow-head rest c p [] = refl
grow-head rest c p (q ∷ ps) = refl

split-grow :
    (sep : ℕ) (s rest : Text) → Lacks sep rest → split sep (s ++ rest) ≡ grow rest (split sep s)
unfolding split grow
split-grow sep [] rest h = split-Lacks sep rest h
split-grow sep (c ∷ s) rest h =
    let (x, xs, e) = split-nonempty sep s in
    elim (Bool-cases (c == sep)) [
      | inl f ↦ rw (f, split-grow sep s rest h, e) refl
      | inr f ↦ rw (f, split-grow sep s rest h, e) (grow-head rest c x xs)
    ]

all_filled-grow :
    (rest : Text) (ps : List Text) → all_filled ps ≡ true → all_filled (grow rest ps) ≡ true
unfolding grow
all_filled-grow rest [] h = h
all_filled-grow rest ([] ∷ []) h = cc
all_filled-grow rest ((c ∷ p) ∷ []) h = refl
all_filled-grow rest ([] ∷ q ∷ ps) h = cc
all_filled-grow rest ((c ∷ p) ∷ q ∷ ps) h = all_filled-grow rest (q ∷ ps) h

is_valid_domain-append :
    (host rest : Text)
    → Lacks b'.' rest
    → is_valid_domain host ≡ true
    → is_valid_domain (host ++ rest) ≡ true
unfolding is_valid_domain
is_valid_domain-append [] rest plain h = cc
is_valid_domain-append (c ∷ host) rest plain h =
    rw (split-grow b'.' (c ∷ host) rest plain) (all_filled-grow rest (split b'.' (c ∷ host)) h)

-- A port in front of a path is a path.
port-path :
    (port : Text) (path : Option Text)
    → port ≢ []
    → Lacks b':' port
    → path_is_valid path ≡ true
    → is_valid_path (port ++ path_suffix path) ≡ true
unfolding is_valid_path
port-path [] path filled plain h = absurd (filled refl)
port-path (c ∷ port) none filled plain h =
    rw (append-nil port, split-Lacks b':' (c ∷ port) plain) refl
port-path (c ∷ port) (some p) filled plain h =
    rw (split-part b':' (c ∷ port) p plain) (ground arith)

-- The identifier that the parts make
abbrev pub did_of_parts : Method → Text → Text → Option Text → Did
did_of_parts m s domain path = record { method = m; scid = some s; domain = domain; path = path }

-- The constructor of a method
abbrev pub constructor_of : Method → Option Text → Text → Option Text → Result DidError Did
constructor_of tdw = try_new_tdw
constructor_of web_vh = try_new_webvh

constructor_of-valid :
    (m : Method) (scid : Option Text) (domain : Text) (path : Option Text)
    → is_valid_domain domain ≡ true
    → path_is_valid path ≡ true
    → constructor_of m scid domain path
      ≡ ok (record { method = m; scid = scid; domain = domain; path = path })
unfolding try_new_tdw try_new_webvh validate_and_build
constructor_of-valid tdw scid domain path valid fine = simp (valid, fine)
constructor_of-valid web_vh scid domain path valid fine = simp (valid, fine)

-- For an SCID and a host that a text can carry, a port without a dot and a colon, and a valid path or
-- none, both constructors accept the host with a colon and the port behind it for the domain, and the
-- text of that identifier parses to another one: of the host alone, with the port in front of the path.
pub from_text-did_of_parts :
    (m : Method) (s host port : Text) (path : Option Text)
    → s ≢ []
    → Lacks b':' s
    → is_valid_domain host ≡ true
    → Lacks b':' host
    → port ≢ []
    → Lacks b'.' port
    → Lacks b':' port
    → path_is_valid path ≡ true
    → (constructor_of m (some s) (host ++ b':' ∷ port) path
        ≡ ok (did_of_parts m s (host ++ b':' ∷ port) path))
      × (from_text (to_text (did_of_parts m s (host ++ b':' ∷ port) path))
          ≡ ok (did_of_parts m s host (some (port ++ path_suffix path))))
unfolding to_text
from_text-did_of_parts m s host port path s_filled s_plain valid host_plain filled no_dot no_colon
      fine =
    let parsed = from_text-printed m s host (some (port ++ path_suffix path)) (record {
      scid_plain = (s_filled, s_plain);
      domain_plain = host_plain;
      domain_valid = valid;
      path_valid = port-path port path filled no_colon fine;
    }) in
    (
      constructor_of-valid m (some s) (host ++ b':' ∷ port) path
          (is_valid_domain-append host (b':' ∷ port) (omega arith, no_dot) valid) fine,
      rw (append_assoc host (b':' ∷ port) (path_suffix path)) parsed,
    )
