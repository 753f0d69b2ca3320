-- ===== src/Auth.antt =====
-- certmon/auth.py: accounts, passwords and sessions. Random ids, salts and tokens are arguments,
-- and so is the clock. `pbkdf2` and `sha256` stand for hashlib's functions.
mod Password
pub mod Accounts
pub mod Sessions
pub use Password.{Hashing}
unfoldable pub use Password.{hash_password, verify_password, hash_session_token}
use Prim.Native.String.{count as char_count}
use certmon.Prelude.{
  ℕ, ◌+◌, ◌*◌, String, Bool, true, false, not, Option, none, some, List, [], ◌∷◌, ◌++◌, ◌==◌,
  if◌then◌else◌, contains, is_none, strip, ltb, leb, ◌||◌, ◌&&◌,
}
use certmon.Outcome.{
  Error, Result, Action, ok, err, integrity_error, auth_error, auth_not_found, value_error,
  raise_if, gets, lift, or_raise, pure, raise, ◌>>=◌, ◌>>◌,
}
use certmon.Db.{User, Session, Database, Query}
use certmon.Db.Users
use certmon.Db.Users.{get_user, get_user_by_username, users_exist}
use certmon.Db.Sessions.{create_session, get_session, touch_session, delete_session}

-- `SUPPORTED_ROLES`
abbrev pub supported_roles : List String
supported_roles = "admin" ∷ "operator" ∷ "ca_admin" ∷ "security_admin" ∷ "viewer" ∷ []

-- an argument that should be a list, a tuple or a set of roles
pub data Roles : Type 0 where
  listed : List String → Roles
  not_a_list : Roles

-- `username or ""`
abbrev pub text_or_empty : Option String → String
text_or_empty none = ""
text_or_empty (some s) = s

unfoldable pub validated_username : Option String → Result String
unfolding strip
validated_username username =
    let name = strip (text_or_empty username) in
    if name == "" then err (auth_error "Username is required") else ok name

unfoldable pub validate_password : Option String → Result Unit
validate_password none = err (auth_error "Password must be at least 8 characters")
validate_password (some password) =
    if ltb (char_count password) 8
    then err (auth_error "Password must be at least 8 characters")
    else ok tt

-- the loop of `_validated_roles`
unfoldable pub normalize_roles : List String → List String → Result (List String)
normalize_roles normalized [] = ok normalized
normalize_roles normalized (role ∷ roles) =
    let rest =
      normalize_roles (if contains role normalized then normalized else normalized ++ role ∷ [])
        roles in
    if contains role supported_roles then rest else err (auth_error "Unsupported role")

unfoldable pub validated_roles : Roles → Result (List String)
unfolding normalize_roles
validated_roles not_a_list = err (auth_error "At least one role is required")
validated_roles (listed []) = err (auth_error "At least one role is required")
validated_roles (listed (role ∷ roles)) = normalize_roles [] (role ∷ roles)

-- the handlers round a call of the database
abbrev as_auth_error : Error → Error
as_auth_error integrity_error = auth_error "Username already exists"
as_auth_error (value_error message) = auth_error message
as_auth_error e = e

abbrev pub handled : {A : Type 0} → Result A × Database → Result A × Database
handled (ok a, db) = (ok a, db)
handled (err e, db) = (err (as_auth_error e), db)

-- the `AuthNotFoundError` of a call that updated no row
abbrev pub or_not_found : Bool → Query Unit
or_not_found updated = raise_if (not updated) auth_not_found

unfoldable pub unconfirmed : Option String → Option String → Bool
unconfirmed password confirmation =
    is_none confirmation || not (text_or_empty password == text_or_empty confirmation)

unfoldable pub required_user : String → Query User
unfolding get_user
required_user user_id = do or_raise (← gets (get_user user_id)) auth_not_found

unfoldable pub first_admin_required : Database → Bool
unfolding users_exist
first_admin_required db = not (users_exist db)

module _ (h : Hashing) where
  unfoldable pub create_first_admin :
      ℕ → String → List ℕ → Option String → Option String → Option String → Query (Option User)
  unfolding validated_username validate_password users_exist
  create_first_admin now user_id salt username password confirmation = do
    name ← lift (validated_username username)
    lift (validate_password password)
    raise_if (unconfirmed password confirmation) (auth_error "Password confirmation does not match")
    raise_if (← gets users_exist) (auth_error "First admin already exists")
    (λ db. handled (
        Users.create_user now user_id name (hash_password h salt (text_or_empty password))
          supported_roles db))
    gets (get_user user_id)

  unfoldable pub create_user :
      ℕ → String → List ℕ → Option String → Option String → Roles → Query (Option User)
  unfolding validated_username validate_password validated_roles
  create_user now user_id salt username password roles = do
    name ← lift (validated_username username)
    lift (validate_password password)
    normalized ← lift (validated_roles roles)
    (λ db. handled (
        Users.create_user now user_id name (hash_password h salt (text_or_empty password))
          normalized db))
    gets (get_user user_id)

  unfoldable pub reset_user_password : String → List ℕ → Option String → Query (Option User)
  unfolding required_user validate_password
  reset_user_password user_id salt password = do
    required_user user_id
    lift (validate_password password)
    updated ←
        Users.set_user_password_hash user_id (hash_password h salt (text_or_empty password)) true
    or_not_found updated
    gets (get_user user_id)

abbrev pub same_texts : List String → List String → Bool
same_texts [] [] = true
same_texts (a ∷ l) (b ∷ r) = a == b && same_texts l r
same_texts _ _ = false

-- an argument that is `None` keeps the old value
abbrev pub new_username : Option String → User → Result String
new_username none user = ok user.username
new_username (some name) user = validated_username (some name)

abbrev pub new_roles : Option Roles → User → Result (List String)
new_roles none user = ok user.roles
new_roles (some roles) user = validated_roles roles

unfoldable pub update_user : String → Option String → Option Roles → Query (Option User)
unfolding required_user validated_username validated_roles
update_user user_id username roles = do
  user ← required_user user_id
  name ← lift (new_username username user)
  granted ← lift (new_roles roles user)
  updated ← (λ db. handled (
      Users.update_user_identity_and_roles user_id name granted
        (not (same_texts granted user.roles)) true db))
  or_not_found updated
  gets (get_user user_id)

unfoldable pub set_user_enabled : ℕ → String → Bool → Query (Option User)
unfolding required_user
set_user_enabled now user_id enabled = do
  required_user user_id
  updated ←
      (λ db. handled (Users.set_user_disabled now user_id (not enabled) (not enabled) true db))
  or_not_found updated
  gets (get_user user_id)

abbrev is_disabled : User → Bool
is_disabled u = not (is_none u.disabled_at)

-- microseconds in an hour
abbrev pub hour : ℕ
hour = 3600 * 1000000

module _ (h : Hashing) where
  authenticate_found : String → Option User → Result (Option User)
  authenticate_found password none = ok none
  authenticate_found password (some user) =
      if is_disabled user then ok none else elim (verify_password h password user.password_hash) [
        | ok true ↦ ok (some user)
        | ok false ↦ ok none
        | err e ↦ err e
      ]

  unfoldable pub authenticate : Option String → Option String → Query (Option User)
  unfolding authenticate_found strip get_user_by_username
  authenticate username password db = (
    authenticate_found (text_or_empty password)
        (get_user_by_username (strip (text_or_empty username)) db),
    db,
  )

  -- the token is handed to the client, and its hash is stored
  unfoldable pub start_session : ℕ → ℕ → String → User → Query (String × ℕ)
  start_session now session_hours token user = do
    create_session now (hash_session_token h token) user.id (now + session_hours * hour)
    pure (token, now + session_hours * hour)

  -- the user of a session that was found and has not expired
  unfoldable pub live_user : ℕ → String → Option User → Query (Option User)
  live_user now token_hash none = do delete_session token_hash; pure none
  live_user now token_hash (some user) =
      if is_disabled user
      then (do delete_session token_hash; pure none)
      else (do touch_session now token_hash; pure (some user))

  unfoldable pub session_user : ℕ → String → Option Session → Query (Option User)
  unfolding live_user
  session_user now token_hash none = pure none
  session_user now token_hash (some session) =
      if leb session.expires_at now
      then (do delete_session token_hash; pure none)
      else (do live_user now token_hash (← gets (get_user session.user_id)))

  unfoldable pub user_for_token : ℕ → Option String → Query (Option User)
  unfolding session_user
  user_for_token now none = pure none
  user_for_token now (some token) = if token == "" then pure none else (do
    session_user now (hash_session_token h token)
        (← gets (get_session (hash_session_token h token))))

  unfoldable pub end_session : Option String → Query Unit
  end_session none = pure tt
  end_session (some token) =
      if token == "" then pure tt else delete_session (hash_session_token h token)
