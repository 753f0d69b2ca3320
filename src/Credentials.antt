-- ===== src/Credentials.antt =====
-- certmon/credentials.py: the order in which a device's credentials are tried.
use certmon.Prelude.{
  String, Bool, true, false, ◌≡◌, refl, ◌==◌, eq_iff, ◌&&◌, ◌||◌, arith, Option, none, some, List,
  [], ◌∷◌, ◌++◌, if◌then◌else◌, delete, Bool-cases, inl, inr,
}

-- a stored pair, whose parts may be missing
pub record Given : Type 0 where
  pub username : Option String
  pub password : Option String

pub record Credential : Type 0 where
  pub username : String
  pub password : String

abbrev pub factory_default : Given
factory_default = record { username = some "admin"; password = some "extron" }

abbrev pub same_credential : Credential → Credential → Bool
same_credential a b = a.username == b.username && a.password == b.password

abbrev pub has_credential : Credential → List Credential → Bool
has_credential c [] = false
has_credential c (d ∷ ds) = same_credential c d || has_credential c ds

-- `x or d` for a text
abbrev pub text_or : String → Option String → String
text_or d none = d
text_or d (some t) = if t == "" then d else t

-- the candidate of one value of the loop, which skips a missing or an empty password
unfoldable pub candidate : Option Given → Option Credential
candidate none = none
candidate (some g) =
    if text_or "" g.password == ""
    then none
    else some (record { username = text_or "admin" g.username; password = text_or "" g.password })

unfoldable pub add_candidate : Option Credential → List Credential → List Credential
add_candidate none result = result
add_candidate (some c) result = if has_credential c result then result else result ++ c ∷ []

unfoldable pub add_all : List (Option Given) → List Credential → List Credential
unfolding candidate add_candidate
add_all [] result = result
add_all (v ∷ vs) result = add_all vs (add_candidate (candidate v) result)

unfoldable pub ordered_credentials : Option Given → Option Given → List Credential
unfolding add_all
ordered_credentials individual shared = add_all (individual ∷ shared ∷ some factory_default ∷ []) []

abbrev pub name_of : Option String → String
name_of none = "admin"
name_of (some name) = if name == "" then "admin" else name

-- what a stored pair is worth: nothing without a password
abbrev pub pair_of : Option String → Option String → List Credential
pair_of username none = []
pair_of username (some password) =
    if password == "" then [] else record { username = name_of username; password = password } ∷ []

abbrev pub pairs_of : Option Given → List Credential
pairs_of none = []
pairs_of (some g) = pair_of g.username g.password

-- each credential of a list at its first place
abbrev pub first_of_each : List Credential → List Credential
first_of_each [] = []
first_of_each (c ∷ cs) = c ∷ delete (λ d. same_credential d c) (first_of_each cs)

same_credential_congr :
    (a b c : Credential) → same_credential b a ≡ true → same_credential c a ≡ same_credential c b
same_credential_congr a b c h = ground (
  arith,
  h,
  eq_iff b.username a.username,
  eq_iff b.password a.password,
  eq_iff c.username a.username,
  eq_iff c.username b.username,
  eq_iff c.password a.password,
  eq_iff c.password b.password,
)

abbrev list_of : Option Credential → List Credential
list_of none = []
list_of (some c) = c ∷ []

candidate_fields :
    (username password : Option String)
    → pair_of username password
      ≡ list_of (candidate (some (record { username = username; password = password })))
unfolding candidate
candidate_fields username none = refl
candidate_fields none (some p) = elim (Bool-cases (p == "")) [
  | inl e ↦ rw e refl
  | inr e ↦ rw (e, e) refl
]
candidate_fields (some u) (some p) = elim (Bool-cases (p == "")) [
  | inl e ↦ rw e refl
  | inr e ↦ rw (e, e) refl
]

pairs_of-candidate : (v : Option Given) → pairs_of v ≡ list_of (candidate v)
unfolding candidate
pairs_of-candidate none = refl
pairs_of-candidate (some g) = candidate_fields g.username g.password

add_three :
    (a b : Option Credential) (c : Credential)
    → add_candidate (some c) (add_candidate b (add_candidate a []))
      ≡ first_of_each (list_of a ++ (list_of b ++ c ∷ []))
unfolding add_candidate delete
add_three none none c = refl
add_three none (some b) c = ground arith
add_three (some a) none c = ground arith
add_three (some a) (some b) c = elim (Bool-cases (same_credential b a)) [
  | inl e ↦ let k = same_credential_congr a b c e in rw e (ground (arith, k))
  | inr e ↦ rw e (ground arith)
]

-- The credentials to try are, in this order, the pair of the device, the pair of the group and the
-- factory's pair `admin` and `extron`: a pair without a password is left out, a missing name is
-- `admin`, and a pair that stands before is not tried again.
pub ordered_credentials-first_of_each :
    (individual shared : Option Given)
    → ordered_credentials individual shared
      ≡ first_of_each (
          pairs_of individual
          ++ (pairs_of shared ++ record { username = "admin"; password = "extron" } ∷ []))
unfolding ordered_credentials
ordered_credentials-first_of_each individual shared =
    rw (pairs_of-candidate individual, pairs_of-candidate shared)
      (add_three (candidate individual) (candidate shared) _)
