-- ===== src/Permissions/Roles.antt =====
-- What the roles of an account grant together.
use certmon.Prelude.{
  Bool, true, false, String, ◌≡◌, refl, none, some, List, [], ◌∷◌, ◌++◌, ◌==◌, ◌||◌, ◌∙◌, ap,
  eq_iff, contains, arith, if◌then◌else◌, Bool-cases, inl, inr,
}
use certmon.Outcome.{Result, ok, err, authorization_error}
use certmon.Permissions.{
  Permission, manage_users, manage_audit, download_private_key, granted_in, role_permissions,
  permissions_for_roles, authorize,
}

-- some role of the list grants the permission by itself
unfoldable pub granted_by : Permission → List String → Bool
granted_by p [] = false
granted_by p (role ∷ roles) = granted_in p (role_permissions role) || granted_by p roles

granted_in-append :
    (p : Permission) (xs ys : List Permission)
    → granted_in p (xs ++ ys) ≡ (granted_in p xs || granted_in p ys)
unfolding granted_in
granted_in-append p [] ys = refl
granted_in-append p (x ∷ xs) ys = ground (arith, granted_in-append p xs ys)

granted_in-permissions_for_roles :
    (p : Permission) (roles : List String)
    → granted_in p (permissions_for_roles roles) ≡ granted_by p roles
unfolding permissions_for_roles granted_by granted_in
granted_in-permissions_for_roles p [] = refl
granted_in-permissions_for_roles p (role ∷ roles) = ground (
  arith,
  granted_in-append p (role_permissions role) (permissions_for_roles roles),
  granted_in-permissions_for_roles p roles,
)

-- Roles combine their permissions: a request under the permissions of several roles passes the
-- gate exactly when one of the roles grants the permission by itself, and is refused otherwise.
pub authorize-permissions_for_roles :
    (p : Permission) (roles : List String)
    → authorize p none (some (permissions_for_roles roles))
      ≡ (if granted_by p roles then ok true else err authorization_error)
unfolding authorize
authorize-permissions_for_roles p roles = ground (arith, granted_in-permissions_for_roles p roles)

module _ (role : String) where
  role_grants_users : granted_in manage_users (role_permissions role) ≡ (role == "admin")
  unfolding role_permissions granted_in
  role_grants_users = elim (Bool-cases (role == "admin")) [
    | inl e ↦ rw ((eq_iff role "admin").0 e) refl
    | inr e ↦ ground arith
  ]

  role_grants_cleanup : granted_in manage_audit (role_permissions role) ≡ (role == "admin")
  unfolding role_permissions granted_in
  role_grants_cleanup = elim (Bool-cases (role == "admin")) [
    | inl e ↦ rw ((eq_iff role "admin").0 e) refl
    | inr e ↦ ground arith
  ]

  role_grants_keys :
      granted_in download_private_key (role_permissions role)
      ≡ (role == "admin" || role == "security_admin")
  unfolding role_permissions granted_in
  role_grants_keys = elim (Bool-cases (role == "admin")) [
    | inl e ↦ rw ((eq_iff role "admin").0 e) refl
    | inr e ↦ elim (Bool-cases (role == "security_admin")) [
      | inl f ↦ rw ((eq_iff role "security_admin").0 f) refl
      | inr f ↦ ground arith
    ]
  ]

granted_by-users : (roles : List String) → granted_by manage_users roles ≡ contains "admin" roles
unfolding granted_by
granted_by-users [] = refl
granted_by-users (role ∷ roles) = ground (
  arith,
  role_grants_users role,
  granted_by-users roles,
  eq_iff role "admin",
  eq_iff "admin" role,
)

granted_by-cleanup : (roles : List String) → granted_by manage_audit roles ≡ contains "admin" roles
unfolding granted_by
granted_by-cleanup [] = refl
granted_by-cleanup (role ∷ roles) = ground (
  arith,
  role_grants_cleanup role,
  granted_by-cleanup roles,
  eq_iff role "admin",
  eq_iff "admin" role,
)

granted_by-keys :
    (roles : List String)
    → granted_by download_private_key roles
      ≡ (contains "admin" roles || contains "security_admin" roles)
unfolding granted_by
granted_by-keys [] = refl
granted_by-keys (role ∷ roles) = ground (
  arith,
  role_grants_keys role,
  granted_by-keys roles,
  eq_iff role "admin",
  eq_iff "admin" role,
  eq_iff role "security_admin",
  eq_iff "security_admin" role,
)

abbrev pub gate : Bool → Result Bool
gate passed = if passed then ok true else err authorization_error

-- For every list of roles: the gates of user management and of deleting audit history pass exactly
-- when the list has `admin`, and the gate of private-key export exactly when it has `admin` or
-- `security_admin`; otherwise they raise the authorization error.
pub sensitive_gates :
    (roles : List String)
    → let granted = permissions_for_roles roles in
      (authorize manage_users none (some granted) ≡ gate (contains "admin" roles))
      × (authorize manage_audit none (some granted) ≡ gate (contains "admin" roles))
      × (authorize download_private_key none (some granted)
          ≡ gate (contains "admin" roles || contains "security_admin" roles))
sensitive_gates roles = (
  authorize-permissions_for_roles manage_users roles ∙ ap gate (granted_by-users roles),
  authorize-permissions_for_roles manage_audit roles ∙ ap gate (granted_by-cleanup roles),
  authorize-permissions_for_roles download_private_key roles ∙ ap gate (granted_by-keys roles),
)
