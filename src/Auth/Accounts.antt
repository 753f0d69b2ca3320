-- ===== src/Auth/Accounts.antt =====
-- What the account operations of `AuthService` keep, one by one and over any sequence of calls.
use certmon.Prelude.{
  ℕ, ◌<◌, String, Bool, true, false, not, ◌≡◌, refl, Option, List, [], ◌∷◌, Bool-cases, inl, inr,
}
use certmon.Outcome.{Result, ok, err, gets, ◌>>◌}
use certmon.Outcome.Rules.{lift_rule, or_raise_rule, reads_rule}
use certmon.Db.{Database}
use certmon.Db.Users
use certmon.Db.Users.{get_user, users_exist, count_enabled_admins}
use certmon.Db.Users.Unique.{IsValid}
use certmon.Db.Users.Admins.{
  Keeps, Keeps_same, create_user-Keeps, update_user-Keeps, disable_user-Keeps,
  set_user_password_hash-Keeps,
}
use certmon.Auth.{
  Hashing, Roles, supported_roles, validated_username, validate_password, validated_roles, handled,
  or_not_found, required_user, create_first_admin, create_user, reset_user_password, update_user,
  set_user_enabled, hash_password, text_or_empty, new_username, new_roles, same_texts, unconfirmed,
}

handled-Keeps :
    {A : Type 0} {before : Database} (m : Result A × Database)
    → Keeps before m.1
    → Keeps before (handled m).1
handled-Keeps (ok a, db) k = k
handled-Keeps (err e, db) k = k

not_found_reads :
    (user_id : String) (updated : Bool) (db : Database)
    → ((or_not_found updated >> gets (get_user user_id)) db).1 ≡ db
not_found_reads user_id true db = refl
not_found_reads user_id false db = refl

module _ (db : Database) (v : IsValid db.users) where
  abbrev same : Keeps db db
  same = Keeps_same db v

  update_user_Keeps :
      (user_id : String) (username : Option String) (roles : Option Roles)
      → Keeps db (update_user user_id username roles db).1
  unfolding update_user required_user
  update_user_Keeps user_id username roles =
      or_raise_rule (Keeps db) db (get_user user_id db) _ _ same λ user _.
        lift_rule (Keeps db) db (new_username username user) _ same λ name _.
          lift_rule (Keeps db) db (new_roles roles user) _ same λ granted _.
            let changed = not (same_texts granted user.roles) in
            reads_rule (Keeps db)
              (handled (Users.update_user_identity_and_roles user_id name granted changed true db))
              _ (handled-Keeps _ (update_user-Keeps user_id name granted changed db v))
              (not_found_reads user_id)

  set_user_enabled_Keeps :
      (now : ℕ) (user_id : String) (enabled : Bool)
      → Keeps db (set_user_enabled now user_id enabled db).1
  unfolding set_user_enabled required_user
  set_user_enabled_Keeps now user_id enabled =
      or_raise_rule (Keeps db) db (get_user user_id db) _ _ same λ user _.
        reads_rule (Keeps db)
          (handled (Users.set_user_disabled now user_id (not enabled) (not enabled) true db)) _
          (handled-Keeps _ (disable_user-Keeps now user_id (not enabled) (not enabled) db v))
          (not_found_reads user_id)

  module _ (h : Hashing) (user_id : String) (salt : List ℕ) (password : Option String) where
    abbrev hash : String
    hash = hash_password h salt (text_or_empty password)

    reset_user_password_Keeps : Keeps db (reset_user_password h user_id salt password db).1
    unfolding reset_user_password required_user
    reset_user_password_Keeps = or_raise_rule (Keeps db) db (get_user user_id db) _ _ same λ user _.
        lift_rule (Keeps db) db (validate_password password) _ same λ _ _.
          reads_rule (Keeps db) (Users.set_user_password_hash user_id hash true db) _
            (set_user_password_hash-Keeps user_id hash true db v) (not_found_reads user_id)

    module _ (now : ℕ) (username : Option String) where
      insert_Keeps :
          (name : String) (roles : List String)
          → Keeps db (handled (Users.create_user now user_id name hash roles db)).1
      insert_Keeps name roles = handled-Keeps _ (create_user-Keeps now user_id name hash roles db v)

      create_user_Keeps :
          (roles : Roles) → Keeps db (create_user h now user_id salt username password roles db).1
      unfolding create_user
      create_user_Keeps roles =
          lift_rule (Keeps db) db (validated_username username) _ same λ name _.
            lift_rule (Keeps db) db (validate_password password) _ same λ _ _.
              lift_rule (Keeps db) db (validated_roles roles) _ same λ normalized _.
                reads_rule (Keeps db)
                  (handled (Users.create_user now user_id name hash normalized db)) _
                  (insert_Keeps name normalized) (λ _ _. refl)

      create_first_admin_Keeps :
          (confirmation : Option String)
          → Keeps db (create_first_admin h now user_id salt username password confirmation db).1
      unfolding create_first_admin
      create_first_admin_Keeps confirmation =
          lift_rule (Keeps db) db (validated_username username) _ same λ name _.
            lift_rule (Keeps db) db (validate_password password) _ same λ _ _.
              elim (Bool-cases (unconfirmed password confirmation)) [
                | inl e ↦ rw e same
                | inr e ↦ elim (Bool-cases (users_exist db)) [
                  | inl f ↦ rw (e, f) same
                  | inr f ↦
                      rw (e, f)
                        (reads_rule (Keeps db)
                          (handled (Users.create_user now user_id name hash supported_roles db)) _
                          (insert_Keeps name supported_roles) (λ _ _. refl))
                ]
              ]

-- a call of the user administration, with the id, the salt and the time that it draws
pub data Request : Type 0 where
  first_admin : ℕ → String → List ℕ → Option String → Option String → Option String → Request
  create : ℕ → String → List ℕ → Option String → Option String → Roles → Request
  update : String → Option String → Option Roles → Request
  enable : ℕ → String → Bool → Request
  reset_password : String → List ℕ → Option String → Request

module _ (h : Hashing) where
  unfoldable pub apply : Request → Database → Database
  apply (first_admin now id salt name password confirmation) db =
      (create_first_admin h now id salt name password confirmation db).1
  apply (create now id salt name password roles) db =
      (create_user h now id salt name password roles db).1
  apply (update id name roles) db = (update_user id name roles db).1
  apply (enable now id enabled) db = (set_user_enabled now id enabled db).1
  apply (reset_password id salt password) db = (reset_user_password h id salt password db).1

  unfoldable pub serve : List Request → Database → Database
  unfolding apply
  serve [] db = db
  serve (r ∷ rs) db = serve rs (apply r db)

  apply-Keeps : (r : Request) (db : Database) → IsValid db.users → Keeps db (apply r db)
  unfolding apply
  apply-Keeps (first_admin now id salt name password confirmation) db v =
      create_first_admin_Keeps db v h id salt password now name confirmation
  apply-Keeps (create now id salt name password roles) db v =
      create_user_Keeps db v h id salt password now name roles
  apply-Keeps (update id name roles) db v = update_user_Keeps db v id name roles
  apply-Keeps (enable now id enabled) db v = set_user_enabled_Keeps db v now id enabled
  apply-Keeps (reset_password id salt password) db v =
      reset_user_password_Keeps db v h id salt password

  -- From accounts with unique ids and names, an enabled administrator among them, every sequence of
  -- account requests, whether they succeed or raise, leaves unique ids, unique names up to case, and
  -- an enabled administrator.
  pub serve-admins :
      (rs : List Request) (db : Database)
      → IsValid db.users
      → 0 < count_enabled_admins db
      → IsValid (serve rs db).users × (0 < count_enabled_admins (serve rs db))
  unfolding serve
  serve-admins [] db v admins = (v, admins)
  serve-admins (r ∷ rs) db v admins =
      let k = apply-Keeps r db v in serve-admins rs (apply r db) k.valid (k.admins admins)
