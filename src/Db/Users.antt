-- ===== src/Db/Users.antt =====
-- The table `users` of certmon/db.py.
pub mod Unique
pub mod Admins
use certmon.Prelude.{
  ℕ, String, Bool, true, false, not, ◌&&◌, Option, none, some, List, [], ◌∷◌, ◌++◌, ◌==◌,
  if◌then◌else◌, contains, is_none, same_name, find, count, update, delete, leb, eqb,
}
use certmon.Outcome.{
  Result, ok, err, integrity_error, value_error, pure, raise, raise_if, gets, modify, transaction,
  ◌>>=◌, ◌>>◌,
}
use certmon.Db.{User, Session, Database, Query}

abbrev pub has_id : String → User → Bool
has_id user_id u = u.id == user_id

abbrev pub has_name : String → User → Bool
has_name username u = same_name u.username username

abbrev pub is_enabled_admin : User → Bool
is_enabled_admin u = is_none u.disabled_at && contains "admin" u.roles

-- `_count_enabled_admins`
abbrev pub count_enabled_admins : Database → ℕ
count_enabled_admins db = count is_enabled_admin db.users

-- `get_user`
unfoldable pub get_user : String → Database → Option User
get_user user_id db = find (has_id user_id) db.users

-- `get_user_by_username`
unfoldable pub get_user_by_username : String → Database → Option User
get_user_by_username username db = find (has_name username) db.users

abbrev pub exists : (User → Bool) → Database → Bool
exists p db = not (is_none (find p db.users))

unfoldable pub users_exist : Database → Bool
users_exist db = not (is_none (find (λ _. true) db.users))

abbrev pub new_user : ℕ → String → String → String → List String → User
new_user now user_id username password_hash roles = record {
  id = user_id;
  username = username;
  password_hash = password_hash;
  roles = roles;
  created_at = now;
  disabled_at = none;
}

-- The insert fails on a name that differs only by case, and on a known id.
unfoldable pub create_user : ℕ → String → String → String → List String → Query Unit
unfolding transaction
create_user now user_id username password_hash roles = transaction (do
  raise_if (← gets (exists (has_name username))) integrity_error
  raise_if (← gets (exists (has_id user_id))) integrity_error
  modify (λ db. record db {
    users = db.users ++ new_user now user_id username password_hash roles ∷ [];
  }))

abbrev pub revoke : String → Database → Database
revoke user_id db = record db {
  sessions = delete (λ (s : Session). s.user_id == user_id) db.sessions;
}

abbrev pub set_users : (User → Bool) → (User → User) → Database → Database
set_users p f db = record db { users = update p f db.users }

-- an UPDATE by id, what follows it if one row changed, and whether it did
unfoldable pub finish_update : String → (User → User) → Bool → Query Bool
finish_update user_id f revoke_sessions db =
    if eqb (count (has_id user_id) db.users) 1
    then (
      ok true,
      if revoke_sessions
          then revoke user_id (set_users (has_id user_id) f db)
          else set_users (has_id user_id) f db,
    )
    else (ok false, set_users (has_id user_id) f db)

-- the guard of the final administrator, for a write that takes the role or the access away
unfoldable pub drops_final_admin : Bool → User → Bool → Database → Bool
drops_final_admin protect current taken db =
    protect && (is_enabled_admin current && (taken && leb (count_enabled_admins db) 1))

unfoldable pub update_found : String → String → List String → Bool → Bool → Option User → Query Bool
unfolding finish_update
update_found user_id username roles revoke_sessions protect none = pure false
update_found user_id username roles revoke_sessions protect (some current) = do
  raise_if (← gets (drops_final_admin protect current (not (contains "admin" roles))))
      (value_error "Cannot remove the final enabled administrator")
  raise_if (← gets (exists (λ u. has_name username u && not (has_id user_id u)))) integrity_error
  finish_update user_id (λ u. record u { username = username; roles = roles }) revoke_sessions

unfoldable pub update_user_identity_and_roles :
    String → String → List String → Bool → Bool → Query Bool
unfolding transaction update_found get_user
update_user_identity_and_roles user_id username roles revoke_sessions protect =
    transaction
      (do update_found user_id username roles revoke_sessions protect (← gets (get_user user_id)))

unfoldable pub disable_found : ℕ → String → Bool → Bool → Bool → Option User → Query Bool
unfolding finish_update
disable_found now user_id disabled revoke_sessions protect none = pure false
disable_found now user_id disabled revoke_sessions protect (some current) = do
  raise_if (← gets (drops_final_admin protect current disabled))
      (value_error "Cannot disable the final enabled administrator")
  finish_update user_id (λ u. record u { disabled_at = if disabled then some now else none })
      revoke_sessions

unfoldable pub set_user_disabled : ℕ → String → Bool → Bool → Bool → Query Bool
unfolding transaction disable_found get_user
set_user_disabled now user_id disabled revoke_sessions protect =
    transaction
      (do disable_found now user_id disabled revoke_sessions protect (← gets (get_user user_id)))

unfoldable pub set_user_password_hash : String → String → Bool → Query Bool
unfolding transaction finish_update
set_user_password_hash user_id password_hash revoke_sessions =
    transaction
      (finish_update user_id (λ u. record u { password_hash = password_hash }) revoke_sessions)
