-- ===== src/Renewals/Identifiers.antt =====
-- `normalize_identifiers` of certmon/renewals.py. `is_ip` stands for `ipaddress.ip_address` and
-- `idna` for the IDNA encoding in lower case, which fails on a text that is no name.
pub mod Accepted
use certmon.Prelude.{
  String, Bool, true, false, not, ◌==◌, ◌&&◌, ◌||◌, Option, none, some, List, [], ◌∷◌, ◌++◌,
  if◌then◌else◌, contains, strip, rstrip_dots, has_part, ends_with, after_prefix,
}
use Prim.Native.String
use certmon.Outcome.{Result, ok, err, identifier_error}

pub record Names : Type 0 where
  pub is_ip : String → Bool
  pub idna : String → Option String

-- `(raw or "").strip().rstrip(".")`
unfoldable pub clean : Option String → String
unfolding strip rstrip_dots
clean none = ""
clean (some raw) = rstrip_dots (strip raw)

-- no dot, a name below `.local`, or `localhost` itself
unfoldable pub is_private_name : String → Bool
unfolding has_part ends_with
is_private_name name = not (has_part "." name) || (ends_with name ".local" || name == "localhost")

abbrev pub with_wildcard : Bool → String → String
with_wildcard wildcard name = if wildcard then String.◌++◌ "*." name else name

module _ (n : Names) (public_acme : Bool) where
  unfoldable pub canonical_name : String → Bool → Option String → Result String
  unfolding is_private_name
  canonical_name value wildcard none = err (identifier_error value)
  canonical_name value wildcard (some ascii) =
      if public_acme && is_private_name ascii
      then err (identifier_error value)
      else ok (with_wildcard wildcard ascii)

  -- the canonical form of a value that is not empty; an IP address loses a leading `*.`
  unfoldable pub canonical : String → Bool → String → Result String
  unfolding canonical_name
  canonical value wildcard name =
      if n.is_ip name
      then (if public_acme
          then err (identifier_error "Public ACME does not accept IP identifiers")
          else ok name)
      else canonical_name value wildcard (n.idna name)

  unfoldable pub canonical_split : String → Option String → Result String
  unfolding canonical
  canonical_split value none = canonical value false value
  canonical_split value (some name) = canonical value true name

  unfoldable pub canonical_value : String → Result String
  unfolding canonical_split after_prefix
  canonical_value value = canonical_split value (after_prefix "*." value)

  abbrev pub add_new : List String → String → List String
  add_new normalized name = if contains name normalized then normalized else normalized ++ name ∷ []

  -- the loop; `seen` holds what `normalized` holds
  unfoldable pub normalize_from : List String → List (Option String) → Result (List String)
  unfolding clean canonical_value
  normalize_from normalized [] = ok normalized
  normalize_from normalized (raw ∷ values) =
      if clean raw == ""
      then normalize_from normalized values
      else elim (canonical_value (clean raw)) [
        | err e ↦ err e
        | ok name ↦ normalize_from (add_new normalized name) values
      ]

unfoldable pub require_some : Result (List String) → Result (List String)
require_some (ok []) = err (identifier_error "At least one certificate identifier is required")
require_some (ok (x ∷ xs)) = ok (x ∷ xs)
require_some (err e) = err e

unfoldable pub normalize_identifiers : Names → List (Option String) → Bool → Result (List String)
unfolding normalize_from require_some
normalize_identifiers n values public_acme = require_some (normalize_from n public_acme [] values)
