-- ===== src/Permissions.antt =====
-- certmon/permissions.py: the permissions, what each role grants, and the gate `authorize`.
-- The context variable `_current_permissions` is the argument `current`.
pub mod Roles
use certmon.Prelude.{
  Bool, true, false, String, Option, none, some, List, [], ◌∷◌, ◌++◌, ℕ, ◌==◌, ◌||◌, eqb,
  if◌then◌else◌,
}
use certmon.Outcome.{Result, ok, err, authorization_error}

pub data Permission : Type 0 where
  issue_certificate deploy_certificate download_public_certificate : Permission
  download_private_key manage_dns_credentials manage_local_ca : Permission
  manage_server_backup manage_users view_audit manage_audit : Permission

abbrev pub index : Permission → ℕ
index issue_certificate = 0
index deploy_certificate = 1
index download_public_certificate = 2
index download_private_key = 3
index manage_dns_credentials = 4
index manage_local_ca = 5
index manage_server_backup = 6
index manage_users = 7
index view_audit = 8
index manage_audit = 9

-- `permission in effective`
unfoldable pub granted_in : Permission → List Permission → Bool
granted_in p [] = false
granted_in p (q ∷ qs) = eqb (index p) (index q) || granted_in p qs

-- `LOCAL_PERMISSIONS`
abbrev pub local_permissions : List Permission
local_permissions =
    issue_certificate ∷ deploy_certificate ∷ download_public_certificate ∷ download_private_key
    ∷ manage_dns_credentials ∷ manage_local_ca ∷ manage_server_backup ∷ manage_users ∷ view_audit
    ∷ manage_audit ∷ []

-- `ROLE_PERMISSIONS.get(role, frozenset())`
unfoldable pub role_permissions : String → List Permission
role_permissions role =
    if role == "viewer"
    then download_public_certificate ∷ []
    else if role == "operator"
    then issue_certificate ∷ deploy_certificate ∷ download_public_certificate ∷ []
    else if role == "ca_admin"
    then issue_certificate ∷ download_public_certificate ∷ manage_local_ca ∷ []
    else if role == "security_admin"
    then (download_public_certificate ∷ download_private_key ∷ manage_dns_credentials
        ∷ manage_server_backup ∷ view_audit ∷ [])
    else if role == "admin"
    then local_permissions
    else []

-- a set as the list of its members; a member may stand in it twice
unfoldable pub permissions_for_roles : List String → List Permission
permissions_for_roles [] = []
permissions_for_roles (role ∷ roles) = role_permissions role ++ permissions_for_roles roles

-- the choice of `effective`: an explicit grant, else the current one, else everything
unfoldable pub effective : Option (List Permission) → Option (List Permission) → List Permission
effective (some granted) current = granted
effective none (some current) = current
effective none none = local_permissions

unfoldable pub authorize :
    Permission → Option (List Permission) → Option (List Permission) → Result Bool
unfolding effective granted_in
authorize permission granted current =
    if granted_in permission (effective granted current) then ok true else err authorization_error
