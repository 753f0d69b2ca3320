-- ===== src/Tests/AccountRuns.antt =====
-- Roles, accounts and sessions.
use certmon.Prelude.{
  ℕ, ◌<◌, ◌≡◌, ◌≢◌, refl, ◌==◌, eq_iff, arith, String, Bool, true, false, none, some, List, [], ◌∷◌,
  ◌≤◌, sym, ap, ◌∙◌, count, find, same_name, same_name_iff, lower, strip, Bool-cases, inl, inr,
}
use mathlib.Core.List.{foldr}
use certmon.Outcome.{ok, err, authorization_error}
use certmon.Permissions.{
  deploy_certificate, authorize, permissions_for_roles, manage_users, role_permissions, granted_in,
}
use certmon.Permissions.Roles.{granted_by, authorize-permissions_for_roles, sensitive_gates}
use certmon.Db.{User}
use certmon.Db.Users
use certmon.Db.Users.{has_id, has_name, count_enabled_admins, get_user}
use certmon.Db.Users.Unique.{IsValid}
use certmon.Db.Sessions.{get_session, touch_session}
use certmon.Auth.{
  Roles, listed, update_user, set_user_enabled, reset_user_password, user_for_token, end_session,
  start_session, validated_roles, hash_session_token, hash_password,
}
use certmon.Auth.Accounts.{Request, enable, update, serve, serve-admins}
use certmon.Auth.Sessions.{
  Admits, user_for_token-Admits, user_for_token-end_session, user_for_token-start_session,
  reset_user_password-revokes, set_user_enabled-revokes, update_user-revokes,
}
use certmon.Tests.Data.{plain, ada, bob, office}

authorize-permissions_for_roles_example :
    authorize deploy_certificate none (some (permissions_for_roles ("viewer" ∷ "ca_admin" ∷ [])))
    ≡ err authorization_error
unfolding granted_by role_permissions granted_in
authorize-permissions_for_roles_example =
    authorize-permissions_for_roles deploy_certificate ("viewer" ∷ "ca_admin" ∷ [])

sensitive_gates_example :
    authorize manage_users none (some (permissions_for_roles ("operator" ∷ "admin" ∷ []))) ≡ ok true
sensitive_gates_example = (sensitive_gates ("operator" ∷ "admin" ∷ [])).0

unique_ids_office : (id : String) → count (has_id id) office.users ≤ 1
unfolding count
unique_ids_office id = ground (arith, eq_iff "u1" id, eq_iff "u2" id, eq_iff "u1" "u2")

not_both : (name : String) → same_name "Ada" name ≡ true → same_name "bob" name ≡ false
not_both name h = elim (Bool-cases (same_name "bob" name)) [
  | inl k ↦ absurd (
      unfold lower in
      omega (
        arith,
        ap (foldr (λ c n. c) 0)
            ((same_name_iff "Ada" name).0 h ∙ sym ((same_name_iff "bob" name).0 k)),
      ))
  | inr k ↦ k
]

unique_names_office : (name : String) → count (has_name name) office.users ≤ 1
unfolding count
unique_names_office name = ground (arith, not_both name)

office-IsValid : IsValid office.users
office-IsValid = record { unique_ids = unique_ids_office; unique_names = unique_names_office }

-- Two writes that would leave no administrator, and a second administrator in between.
abbrev handover : List Request
handover =
    enable 7 "u1" false
    ∷ update "u2" none (some (listed ("admin" ∷ [])))
    ∷ enable 8 "u1" false
    ∷ enable 9 "u2" false
    ∷ []

handover_run :
    (serve plain handover office).users
    ≡ record ada { disabled_at = some 8 } ∷ record bob { roles = "admin" ∷ [] } ∷ []
unfolding serve set_user_enabled Users.set_user_disabled update_user
    Users.update_user_identity_and_roles validated_roles Users.drops_final_admin find count
    same_name certmon.Prelude.update
handover_run = refl

serve-admins_example :
    IsValid (serve plain handover office).users
    × (0 < count_enabled_admins (serve plain handover office))
unfolding count
serve-admins_example = serve-admins plain handover office office-IsValid (omega arith)

bob_enters : (user_for_token plain 50 (some "secret") office).0 ≡ ok (some bob)
unfolding user_for_token hash_session_token get_session get_user touch_session find
bob_enters = refl

user_for_token-Admits_example :
    (t : String) × (some "secret" ≡ some t) × Admits office 50 (hash_session_token plain t) bob
user_for_token-Admits_example = user_for_token-Admits plain 50 office bob (some "secret") bob_enters

user_for_token-end_session_example :
    (user_for_token plain 50 (some "secret") (end_session plain (some "secret") office).1).0
    ≡ ok none
user_for_token-end_session_example = user_for_token-end_session plain 50 (some "secret") office

user_for_token-start_session_example :
    (user_for_token plain 99 (some "fresh") (start_session plain 50 12 "fresh" ada office).1).0
    ≡ ok (some ada)
unfolding get_session hash_session_token get_user find
user_for_token-start_session_example =
    user_for_token-start_session plain 50 99 12 "fresh" ada office refl refl refl refl (omega arith)

abbrev rehashed : User
rehashed = record bob { password_hash = hash_password plain [] "long enough" }

reset_run : (reset_user_password plain "u2" [] (some "long enough") office).0 ≡ ok (some rehashed)
unfolding reset_user_password find Users.set_user_password_hash count certmon.Prelude.update
reset_run = refl

ada_enters :
    (user_for_token plain 50
      (some "key")
      (reset_user_password plain "u2" [] (some "long enough") office).1).0
    ≡ ok (some ada)
unfolding reset_user_password user_for_token get_session find Users.set_user_password_hash count
    certmon.Prelude.delete hash_session_token certmon.Prelude.update touch_session
ada_enters = refl

reset_user_password-revokes_example : ada.id ≢ "u2"
reset_user_password-revokes_example =
    reset_user_password-revokes plain office "u2" [] (some "long enough") (some rehashed) 50
      (some "key") ada reset_run ada_enters

disable_run :
    (set_user_enabled 7 "u2" false office).0 ≡ ok (some (record bob { disabled_at = some 7 }))
unfolding set_user_enabled find Users.set_user_disabled Users.drops_final_admin count
    certmon.Prelude.update
disable_run = refl

ada_enters_disabled :
    (user_for_token plain 50 (some "key") (set_user_enabled 7 "u2" false office).1).0
    ≡ ok (some ada)
unfolding set_user_enabled user_for_token get_session find Users.set_user_disabled
    Users.drops_final_admin count certmon.Prelude.delete hash_session_token certmon.Prelude.update
    touch_session
ada_enters_disabled = refl

set_user_enabled-revokes_example : ada.id ≢ "u2"
set_user_enabled-revokes_example =
    set_user_enabled-revokes plain office "u2" 7 (some (record bob { disabled_at = some 7 })) 50
      (some "key") ada disable_run ada_enters_disabled

abbrev operator : Roles
operator = listed ("operator" ∷ [])

promoted_run :
    (update_user "u2" (some "Robert") (some operator) office).0
    ≡ ok (some (record bob { username = "Robert"; roles = "operator" ∷ [] }))
unfolding update_user find Users.update_user_identity_and_roles Users.drops_final_admin same_name
    count certmon.Prelude.update
promoted_run = refl

ada_enters_promoted :
    (user_for_token plain 50
      (some "key")
      (update_user "u2" (some "Robert") (some operator) office).1).0
    ≡ ok (some ada)
unfolding update_user user_for_token get_session find Users.update_user_identity_and_roles
    Users.drops_final_admin same_name count certmon.Prelude.delete hash_session_token
    certmon.Prelude.update touch_session
ada_enters_promoted = refl

update_user-revokes_example : ada.id ≢ "u2"
unfolding get_user find validated_roles
update_user-revokes_example =
    update_user-revokes plain office "u2" (some "Robert") operator ("operator" ∷ []) bob
      (some (record bob { username = "Robert"; roles = "operator" ∷ [] })) 50 (some "key") ada refl
      refl refl promoted_run ada_enters_promoted
