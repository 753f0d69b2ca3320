-- ===== src/Db/Users/Admins.antt =====
-- What every write to the table `users` keeps: ids and names stay unique, and an enabled
-- administrator remains.
use certmon.Prelude.{
  ℕ, ◌<◌, String, Bool, true, false, not, ◌&&◌, ◌≡◌, refl, Option, none, some, List, [], ◌∷◌, arith,
  if◌then◌else◌, contains, find, update, Bool-cases, Option-cases, inl, inr, count-append,
  count-update_same,
}
use certmon.Outcome.{transaction, settle}
use certmon.Db.{User, Database}
use certmon.Db.Users.{
  has_id, has_name, is_enabled_admin, count_enabled_admins, get_user, new_user, create_user,
  finish_update, update_found, disable_found, update_user_identity_and_roles, set_user_disabled,
  set_user_password_hash, drops_final_admin,
}
use certmon.Db.Users.Unique.{
  IsValid, append-IsValid, update-IsValid, update_same-IsValid, admins_after,
}

-- `after` has unique keys, and an enabled administrator if `before` had one.
pub record Keeps (before after : Database) : Type 0 where
  pub valid : IsValid after.users
  pub admins : 0 < count_enabled_admins before → 0 < count_enabled_admins after

pub Keeps_same : (db : Database) → IsValid db.users → Keeps db db
Keeps_same db v = record { valid = v; admins = λ h. h }

module _ (now : ℕ) (user_id username password_hash : String) (roles : List String)
    (db : Database) where
  pub create_user-Keeps :
      IsValid db.users → Keeps db (create_user now user_id username password_hash roles db).1
  unfolding create_user transaction
  create_user-Keeps v = elim (Option-cases (find (has_name username) db.users)) [
    | inr (a, e) ↦ rw e (Keeps_same db v)
    | inl e ↦ elim (Option-cases (find (has_id user_id) db.users)) [
      | inr (b, f) ↦ rw (e, f) (Keeps_same db v)
      | inl f ↦
          rw (e, f)
            (record {
              valid =
                  append-IsValid db.users (new_user now user_id username password_hash roles) v e f;
              admins = λ h. omega (
                arith,
                h,
                count-append is_enabled_admin db.users
                    (new_user now user_id username password_hash roles ∷ []),
              );
            })
    ]
  ]

finish_update-users :
    (user_id : String) (f : User → User) (revoke_sessions : Bool) (db : Database)
    → (finish_update user_id f revoke_sessions db).1.users ≡ update (has_id user_id) f db.users
unfolding finish_update
finish_update-users user_id f revoke_sessions db = ground (arith, Bool-cases revoke_sessions)

settle-finish_update :
    (user_id : String) (f : User → User) (revoke_sessions : Bool) (before db : Database)
    → settle before (finish_update user_id f revoke_sessions db)
      ≡ finish_update user_id f revoke_sessions db
unfolding finish_update
settle-finish_update user_id f revoke_sessions before db = ground arith

-- An update of the row of an id, from what its guards leave.
module _ (db : Database) (user_id : String) (f : User → User) (revoke_sessions : Bool) (a : User)
    (keeps : (x : User) → (f x).id ≡ x.id) (found : get_user user_id db ≡ some a)
    (v : IsValid db.users) where
  abbrev after : Database
  after = (finish_update user_id f revoke_sessions db).1

  update_one-Keeps :
      IsValid (update (has_id user_id) f db.users)
      → (is_enabled_admin a ≡ true → is_enabled_admin (f a) ≡ false → 1 < count_enabled_admins db)
      → Keeps db after
  unfolding get_user
  update_one-Keeps valid guarded = record {
    valid = rw (finish_update-users user_id f revoke_sessions db) valid;
    admins = λ h. rw (finish_update-users user_id f revoke_sessions db) (
        ground (
          arith,
          admins_after db.users user_id f a keeps found v,
          Bool-cases (is_enabled_admin a),
        ));
  }

module _ (user_id username : String) (roles : List String) (revoke_sessions : Bool) (db : Database)
    (v : IsValid db.users) where
  abbrev lost : User → Bool
  lost a = drops_final_admin true a (not (contains "admin" roles)) db

  abbrev taken_name : User → Bool
  taken_name u = has_name username u && not (has_id user_id u)

  abbrev renamed : User → User
  renamed u = record u { username = username; roles = roles }

  update_found-Keeps :
      (o : Option User)
      → get_user user_id db ≡ o
      → Keeps db (transaction (update_found user_id username roles revoke_sessions true o) db).1
  unfolding transaction update_found
  update_found-Keeps none e = Keeps_same db v
  update_found-Keeps (some a) e = elim (Bool-cases (lost a)) [
    | inl g ↦ rw (g, lost) (Keeps_same db v)
    | inr g ↦ elim (Option-cases (find taken_name db.users)) [
      | inr (b, n) ↦ rw (g, n) (Keeps_same db v)
      | inl n ↦
          rw (g, n, settle-finish_update)
            (update_one-Keeps db user_id renamed revoke_sessions a (λ x. refl) e v
              (update-IsValid db.users user_id renamed a (λ x. refl) (unfold get_user in e) v n)
              (λ old new. unfold drops_final_admin in ground arith))
    ]
  ]

  pub update_user-Keeps :
      Keeps db (update_user_identity_and_roles user_id username roles revoke_sessions true db).1
  unfolding update_user_identity_and_roles
  update_user-Keeps = update_found-Keeps (get_user user_id db) refl

module _ (now : ℕ) (user_id : String) (disabled revoke_sessions : Bool) (db : Database)
    (v : IsValid db.users) where
  abbrev toggled : User → User
  toggled u = record u { disabled_at = if disabled then some now else none }

  disable_found-Keeps :
      (o : Option User)
      → get_user user_id db ≡ o
      → Keeps db (transaction (disable_found now user_id disabled revoke_sessions true o) db).1
  unfolding transaction disable_found
  disable_found-Keeps none e = Keeps_same db v
  disable_found-Keeps (some a) e = elim (Bool-cases (drops_final_admin true a disabled db)) [
    | inl g ↦ rw g (Keeps_same db v)
    | inr g ↦
        rw (g, settle-finish_update)
          (update_one-Keeps db user_id toggled revoke_sessions a (λ x. refl) e v
            (update_same-IsValid db.users user_id toggled (λ x. refl) (λ x. refl) v)
            (λ old new. unfold drops_final_admin in ground arith))
  ]

  pub disable_user-Keeps :
      Keeps db (set_user_disabled now user_id disabled revoke_sessions true db).1
  unfolding set_user_disabled
  disable_user-Keeps = disable_found-Keeps (get_user user_id db) refl

module _ (user_id password_hash : String) (revoke_sessions : Bool) (db : Database)
    (v : IsValid db.users) where
  abbrev rehashed : User → User
  rehashed u = record u { password_hash = password_hash }

  pub set_user_password_hash-Keeps :
      Keeps db (set_user_password_hash user_id password_hash revoke_sessions db).1
  unfolding set_user_password_hash transaction
  set_user_password_hash-Keeps =
      rw (settle-finish_update user_id rehashed revoke_sessions db db) (record {
        valid =
            rw (finish_update-users user_id rehashed revoke_sessions db)
              (update_same-IsValid db.users user_id rehashed (λ x. refl) (λ x. refl) v);
        admins = λ h. rw (finish_update-users user_id rehashed revoke_sessions db) (
            rw (count-update_same is_enabled_admin (has_id user_id) rehashed (λ x. refl) db.users)
              h);
      })
