-- ===== src/Db/Sessions.antt =====
-- The table `sessions` of certmon/db.py.
use certmon.Prelude.{
  ℕ, String, Bool, not, Option, [], ◌∷◌, ◌++◌, ◌==◌, is_none, find, count, update, delete,
}
use certmon.Outcome.{ok, integrity_error, raise_if, gets, modify, transaction, ◌>>=◌, ◌>>◌}
use certmon.Db.{User, Session, Database, Query}

abbrev pub has_token : String → Session → Bool
has_token token_hash s = s.token_hash == token_hash

abbrev pub of_user : String → Session → Bool
of_user user_id s = s.user_id == user_id

-- The token hash is the primary key, and the user must exist.
unfoldable pub create_session : ℕ → String → String → ℕ → Query Unit
unfolding transaction
create_session now token_hash user_id expires_at = transaction (do
  raise_if (← gets (λ db. not (is_none (find (has_token token_hash) db.sessions)))) integrity_error
  raise_if (← gets (λ db. is_none (find (λ (u : User). u.id == user_id) db.users))) integrity_error
  modify (λ db. record db {
    sessions =
        db.sessions
        ++ record {
          token_hash = token_hash;
          user_id = user_id;
          created_at = now;
          last_seen_at = now;
          expires_at = expires_at;
        }
          ∷ [];
  }))

unfoldable pub get_session : String → Database → Option Session
get_session token_hash db = find (has_token token_hash) db.sessions

unfoldable pub touch_session : ℕ → String → Query Unit
unfolding transaction
touch_session now token_hash = transaction (
    modify (λ db. record db {
      sessions = update (has_token token_hash) (λ s. record s { last_seen_at = now }) db.sessions;
    }))

unfoldable pub delete_session : String → Query Unit
unfolding transaction
delete_session token_hash =
    transaction (modify (λ db. record db { sessions = delete (has_token token_hash) db.sessions }))

-- The number of sessions that are deleted is returned.
unfoldable pub delete_sessions_for_user : String → Query ℕ
unfolding transaction
delete_sessions_for_user user_id = transaction (λ db. (
  ok (count (of_user user_id) db.sessions),
  record db { sessions = delete (of_user user_id) db.sessions },
))
