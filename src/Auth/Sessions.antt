-- ===== src/Auth/Sessions.antt =====
-- Who a session token stands for, and when it stops.
use certmon.Prelude.{
  ℕ, ◌<◌, ◌+◌, ◌*◌, String, false, ◌≡◌, ◌≢◌, refl, ◌∙◌, Option, none, some, List, [], ◌∷◌, ◌==◌,
  eq_iff, eq_refl, arith, find, count, Bool-cases, inl, inr, find_passes, count-delete_self,
  find-eq-none_of_count, find-append_none, ◌++◌, not_of_count,
}
use certmon.Outcome.{ok, transaction}
use certmon.Db.{User, Session, Database}
use certmon.Db.Users
use certmon.Db.Users.{get_user, has_id}
use certmon.Db.Sessions.{
  has_token, of_user, create_session, get_session, touch_session, delete_session,
}
use certmon.Auth.{
  Hashing, hash_session_token, hour, user_for_token, session_user, live_user, start_session,
  end_session, reset_user_password, set_user_enabled, Roles, update_user, required_user,
  validated_roles, same_texts,
}

-- A session that admits its user at a time.
pub record Admits (db : Database) (now : ℕ) (token_hash : String) (u : User) : Type 0 where
  pub session : Session
  pub stored : get_session token_hash db ≡ some session
  pub unexpired : now < session.expires_at
  pub known : get_user session.user_id db ≡ some u
  pub enabled : u.disabled_at ≡ none

module _ (h : Hashing) (now : ℕ) (db : Database) (u : User) where
  session_user-Admits :
      (token_hash : String) (o : Option Session)
      → get_session token_hash db ≡ o
      → (session_user h now token_hash o db).0 ≡ ok (some u)
      → Admits db now token_hash u
  unfolding session_user live_user delete_session touch_session transaction
  session_user-Admits token_hash none e r = cc
  session_user-Admits token_hash (some s) e r = record {
    session = s;
    stored = e;
    unexpired = ground arith;
    known = ground arith;
    enabled = ground arith;
  }

  -- A request is let in as a user only by a token whose session is stored and has not expired, and
  -- only if the user of that session still exists and is not disabled.
  pub user_for_token-Admits :
      (token : Option String)
      → (user_for_token h now token db).0 ≡ ok (some u)
      → (t : String) × (token ≡ some t) × Admits db now (hash_session_token h t) u
  unfolding user_for_token
  user_for_token-Admits none r = cc
  user_for_token-Admits (some t) r = elim (Bool-cases (t == "")) [
    | inl e ↦ absurd (cc (rw e at r))
    | inr e ↦ (
      t,
      refl,
      session_user-Admits (hash_session_token h t) (get_session (hash_session_token h t) db) refl
          (rw e at r),
    )
  ]

-- After a logout the token stands for nobody.
pub user_for_token-end_session :
    (h : Hashing) (now : ℕ) (token : Option String) (db : Database)
    → (user_for_token h now token (end_session h token db).1).0 ≡ ok none
unfolding user_for_token end_session session_user get_session delete_session transaction
user_for_token-end_session h now none db = refl
user_for_token-end_session h now (some t) db = elim (Bool-cases (t == "")) [
  | inl e ↦ rw e
  | inr e ↦ rw (
    e,
    find-eq-none_of_count (has_token (hash_session_token h t)) _
        (count-delete_self (has_token (hash_session_token h t)) db.sessions),
  )
]

admitted :
    (h : Hashing) (now : ℕ) (hash : String) (s : Session) (u : User) (db : Database)
    → now < s.expires_at
    → get_user s.user_id db ≡ some u
    → u.disabled_at ≡ none
    → (session_user h now hash (some s) db).0 ≡ ok (some u)
unfolding session_user live_user touch_session delete_session transaction
admitted h now hash s u db l known enabled = ground arith

abbrev started : Hashing → ℕ → ℕ → String → User → Session
started h now hours token u = record {
  token_hash = hash_session_token h token;
  user_id = u.id;
  created_at = now;
  last_seen_at = now;
  expires_at = now + hours * hour;
}

after-start_session :
    (h : Hashing) (now hours : ℕ) (token : String) (u : User) (db : Database)
    → get_session (hash_session_token h token) db ≡ none
    → get_user u.id db ≡ some u
    → (start_session h now hours token u db).1
      ≡ record db { sessions = db.sessions ++ started h now hours token u ∷ [] }
unfolding start_session create_session transaction get_session get_user
after-start_session h now hours token u db fresh known = rw (fresh, known)

-- A session that was started lets its user in until it expires: the token is new and not empty, and
-- the user is stored and not disabled.
pub user_for_token-start_session :
    (h : Hashing) (now later hours : ℕ) (token : String) (u : User) (db : Database)
    → (token == "") ≡ false
    → get_session (hash_session_token h token) db ≡ none
    → get_user u.id db ≡ some u
    → u.disabled_at ≡ none
    → later < now + hours * hour
    → (user_for_token h later (some token) (start_session h now hours token u db).1).0 ≡ ok (some u)
unfolding user_for_token get_user
user_for_token-start_session h now later hours token u db t fresh known enabled l =
    let hash = hash_session_token h token in
    let s = started h now hours token u in
    let db' : Database = record db { sessions = db.sessions ++ s ∷ [] } in
    let stored : get_session hash db' ≡ some s =
      unfold get_session find in
      find-append_none (has_token hash) db.sessions (s ∷ []) fresh ∙ (rw (eq_refl hash)) in
    rw (t, after-start_session h now hours token u db fresh known)
      (rw stored (admitted h later hash s u db' l known enabled))

-- no session of the user is left
abbrev pub NoSessions : String → Database → Type 0
NoSessions user_id db = count (of_user user_id) db.sessions ≡ 0

-- What then stands for the user is no token at all.
NoSessions-shut_out :
    (user_id : String) (db : Database) (now : ℕ) (token_hash : String) (u : User)
    → NoSessions user_id db
    → Admits db now token_hash u
    → u.id ≢ user_id
unfolding get_session get_user
NoSessions-shut_out user_id db now token_hash u n a same = ground (
  arith,
  not_of_count (of_user user_id) (has_token token_hash) db.sessions a.session n a.stored,
  find_passes (has_id a.session.user_id) db.users u a.known,
  eq_iff u.id a.session.user_id,
  eq_iff a.session.user_id user_id,
)

NoSessions-denies :
    (h : Hashing) (user_id : String) (db : Database) (now : ℕ) (token : Option String) (u : User)
    → NoSessions user_id db
    → (user_for_token h now token db).0 ≡ ok (some u)
    → u.id ≢ user_id
NoSessions-denies h user_id db now token u n r =
    let (t, _, a) = user_for_token-Admits h now db u token r in
    NoSessions-shut_out user_id db now (hash_session_token h t) u n a

module _ (h : Hashing) (db : Database) (user_id : String) where
  reset_revokes :
      (salt : List ℕ) (password : Option String) (o : Option User)
      → (reset_user_password h user_id salt password db).0 ≡ ok o
      → NoSessions user_id (reset_user_password h user_id salt password db).1
  unfolding reset_user_password Users.set_user_password_hash transaction Users.finish_update
  reset_revokes salt password o r = ground (arith, count-delete_self (of_user user_id) db.sessions)

  -- After a successful password reset every token of the account is refused: whoever is let in by
  -- any token at any time is another user.
  pub reset_user_password-revokes :
      (salt : List ℕ) (password : Option String) (o : Option User) (now : ℕ) (token : Option String)
      (u : User)
      → (reset_user_password h user_id salt password db).0 ≡ ok o
      → (user_for_token h now token (reset_user_password h user_id salt password db).1).0
        ≡ ok (some u)
      → u.id ≢ user_id
  reset_user_password-revokes salt password o now token u r =
      NoSessions-denies h user_id _ now token u (reset_revokes salt password o r)

  disable_revokes :
      (at : ℕ) (o : Option User)
      → (set_user_enabled at user_id false db).0 ≡ ok o
      → NoSessions user_id (set_user_enabled at user_id false db).1
  unfolding set_user_enabled Users.set_user_disabled transaction Users.finish_update
      Users.disable_found
  disable_revokes at o r = ground (arith, count-delete_self (of_user user_id) db.sessions)

  -- After an account has been disabled every token of the account is refused.
  pub set_user_enabled-revokes :
      (at : ℕ) (o : Option User) (now : ℕ) (token : Option String) (u : User)
      → (set_user_enabled at user_id false db).0 ≡ ok o
      → (user_for_token h now token (set_user_enabled at user_id false db).1).0 ≡ ok (some u)
      → u.id ≢ user_id
  set_user_enabled-revokes at o now token u r =
      NoSessions-denies h user_id _ now token u (disable_revokes at o r)

  roles_revoke :
      (username : Option String) (roles : Roles) (granted : List String) (before : User)
      (o : Option User)
      → get_user user_id db ≡ some before
      → validated_roles roles ≡ ok granted
      → same_texts granted before.roles ≡ false
      → (update_user user_id username (some roles) db).0 ≡ ok o
      → NoSessions user_id (update_user user_id username (some roles) db).1
  unfolding update_user required_user Users.update_user_identity_and_roles transaction
      Users.finish_update Users.update_found
  roles_revoke username roles granted before o known valid changed r =
      ground (arith, count-delete_self (of_user user_id) db.sessions)

  -- After a successful update that changes the roles of an account, with or without a new name, every
  -- token of the account is refused.
  pub update_user-revokes :
      (username : Option String) (roles : Roles) (granted : List String) (before : User)
      (o : Option User) (now : ℕ) (token : Option String) (u : User)
      → get_user user_id db ≡ some before
      → validated_roles roles ≡ ok granted
      → same_texts granted before.roles ≡ false
      → (update_user user_id username (some roles) db).0 ≡ ok o
      → (user_for_token h now token (update_user user_id username (some roles) db).1).0
        ≡ ok (some u)
      → u.id ≢ user_id
  update_user-revokes username roles granted before o now token u known valid changed r =
      NoSessions-denies h user_id _ now token u
        (roles_revoke username roles granted before o known valid changed r)
