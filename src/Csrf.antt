-- ===== src/Csrf.antt =====
-- certmon/csrf.py. `mac` stands for the HMAC of a key and a message, in hexadecimal, and `hashing` for
-- the hash of a session token; the method and the header of the request are arguments.
use certmon.Prelude.{
  String, Bool, true, false, not, ◌≡◌, refl, ◌==◌, eq_iff, ◌&&◌, ◌||◌, arith, is_none, Option, none,
  some, List, [], ◌∷◌, if◌then◌else◌, contains, all, ltb, codes,
}
use certmon.Outcome.{Result, ok, err, csrf_error, runtime_error}
use certmon.Auth.{Hashing, hash_session_token}

abbrev pub mutating_methods : List String
mutating_methods = "POST" ∷ "PUT" ∷ "PATCH" ∷ "DELETE" ∷ []

-- `hmac.compare_digest` takes ASCII texts only
abbrev pub is_ascii : String → Bool
is_ascii s = all (λ c. ltb c 128) (codes s)

module _ (hashing : Hashing) (mac : String → String → String) (secret : String) where
  unfoldable pub csrf_token_for_session : Option String → Option String
  unfolding hash_session_token
  csrf_token_for_session none = none
  csrf_token_for_session (some token) =
      if token == "" then none else some (mac secret (hash_session_token hashing token))

  unfoldable pub compare_tokens : Option String → Option String → Result Bool
  compare_tokens none provided = err csrf_error
  compare_tokens (some expected) none = err csrf_error
  compare_tokens (some expected) (some provided) =
      if expected == "" || provided == ""
      then err csrf_error
      else if not (is_ascii provided && is_ascii expected)
      then err runtime_error
      else if provided == expected
      then ok true
      else err csrf_error

  unfoldable pub validate_csrf : String → Option String → Option String → Result Bool
  unfolding csrf_token_for_session compare_tokens
  validate_csrf method provided session_token =
      if contains method mutating_methods
      then compare_tokens (csrf_token_for_session session_token) provided
      else ok true

  compare_tokens-equal :
      (expected provided : Option String)
      → compare_tokens expected provided ≡ ok true
      → provided ≡ expected
  unfolding compare_tokens
  compare_tokens-equal none provided e = ground (arith, e)
  compare_tokens-equal (some expected) none e = ground (arith, e)
  compare_tokens-equal (some expected) (some provided) e =
      ground (arith, e, eq_iff provided expected)

  compare_tokens-present :
      (expected provided : Option String)
      → compare_tokens expected provided ≡ ok true
      → is_none expected ≡ false
  unfolding compare_tokens
  compare_tokens-present none provided e = ground (arith, e)
  compare_tokens-present (some expected) provided e = refl

  -- A request that changes state passes only with the token of its own session in the header: the
  -- session has a token, and the header is the MAC of that token's hash.
  pub validate_csrf-token :
      (method : String) (provided session_token : Option String)
      → contains method mutating_methods ≡ true
      → validate_csrf method provided session_token ≡ ok true
      → (provided ≡ csrf_token_for_session session_token)
        × (is_none (csrf_token_for_session session_token) ≡ false)
  unfolding validate_csrf
  validate_csrf-token method provided session_token mutating e =
      let checked : compare_tokens (csrf_token_for_session session_token) provided ≡ ok true =
        rw mutating at e in
      (compare_tokens-equal _ provided checked, compare_tokens-present _ provided checked)
