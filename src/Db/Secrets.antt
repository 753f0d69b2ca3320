-- ===== src/Db/Secrets.antt =====
-- The table `secrets` of certmon/db.py.
use certmon.Prelude.{
  ℕ, String, Bool, ◌≡◌, ◌==◌, eq_iff, arith, Option, none, some, List, [], ◌∷◌, if◌then◌else◌, find,
  delete,
}
use certmon.Outcome.{modify, transaction}
use certmon.Db.{EncryptedBlob, Secret, Details, Database, Query}

abbrev pub has_secret_id : String → Secret → Bool
has_secret_id id s = s.id == id

abbrev stored_blob : Option Secret → Option EncryptedBlob
stored_blob none = none
stored_blob (some s) = some s.blob

-- `INSERT … ON CONFLICT(id) DO UPDATE`, which keeps `created_at`
unfoldable pub upsert_secret : ℕ → String → EncryptedBlob → Details → List Secret → List Secret
upsert_secret now id blob metadata [] =
    record { id = id; blob = blob; metadata = metadata; created_at = now; updated_at = now } ∷ []
upsert_secret now id blob metadata (s ∷ ss) =
    if s.id == id
    then record s { blob = blob; metadata = metadata; updated_at = now } ∷ ss
    else s ∷ upsert_secret now id blob metadata ss

unfoldable pub put_secret : ℕ → String → EncryptedBlob → Details → Query Unit
unfolding transaction upsert_secret
put_secret now secret_id blob metadata =
    transaction
      (modify (λ db. record db { secrets = upsert_secret now secret_id blob metadata db.secrets }))

unfoldable pub get_secret : String → Database → Option EncryptedBlob
get_secret secret_id db = stored_blob (find (has_secret_id secret_id) db.secrets)

unfoldable pub delete_secret : String → Query Unit
unfolding transaction
delete_secret secret_id =
    transaction (modify (λ db. record db { secrets = delete (has_secret_id secret_id) db.secrets }))

found_upsert :
    (now : ℕ) (k j : String) (b : EncryptedBlob) (m : Details) (ss : List Secret)
    → stored_blob (find (has_secret_id j) (upsert_secret now k b m ss))
      ≡ (if k == j then some b else stored_blob (find (has_secret_id j) ss))
unfolding upsert_secret find
found_upsert now k j b m [] = ground arith
found_upsert now k j b m (s ∷ ss) =
    ground (arith, eq_iff k j, eq_iff s.id k, eq_iff s.id j, found_upsert now k j b m ss)

-- the secret that was put, and every other as before
pub get_secret-put_secret :
    (now : ℕ) (k j : String) (b : EncryptedBlob) (m : Details) (db : Database)
    → get_secret j (put_secret now k b m db).1 ≡ (if k == j then some b else get_secret j db)
unfolding get_secret put_secret
get_secret-put_secret now k j b m db = found_upsert now k j b m db.secrets
