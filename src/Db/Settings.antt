-- ===== src/Db/Settings.antt =====
-- The table `settings` of certmon/db.py.
use certmon.Prelude.{
  String, ◌≡◌, Option, none, some, List, [], ◌∷◌, ◌==◌, eq_iff, arith, if◌then◌else◌,
}
use certmon.Outcome.{modify, transaction}
use certmon.Db.{Setting, Database, Query}

abbrev pub Settings : Type 0
Settings = List (String × Setting)

unfoldable pub lookup : String → Settings → Option Setting
lookup k [] = none
lookup k ((j, v) ∷ m) = if j == k then some v else lookup k m

-- `INSERT … ON CONFLICT(key) DO UPDATE`
unfoldable pub upsert : String → Setting → Settings → Settings
upsert k v [] = (k, v) ∷ []
upsert k v ((j, w) ∷ m) = if j == k then (j, v) ∷ m else (j, w) ∷ upsert k v m

unfoldable pub without : String → Settings → Settings
without k [] = []
without k ((j, v) ∷ m) = let rest = without k m in if j == k then rest else (j, v) ∷ rest

unfoldable pub put_setting : String → Setting → Query Unit
unfolding transaction upsert
put_setting key value =
    transaction (modify (λ db. record db { settings = upsert key value db.settings }))

-- `get_setting(key)`, whose default is `None`
unfoldable pub get_setting : String → Database → Option Setting
get_setting key db = lookup key db.settings

unfoldable pub delete_setting : String → Query Unit
unfolding transaction without
delete_setting key = transaction (modify (λ db. record db { settings = without key db.settings }))

pub lookup-upsert :
    (k j : String) (v : Setting) (m : Settings)
    → lookup j (upsert k v m) ≡ (if k == j then some v else lookup j m)
unfolding lookup upsert
lookup-upsert k j v [] = ground arith
lookup-upsert k j v ((i, w) ∷ m) =
    ground (arith, eq_iff k j, eq_iff i k, eq_iff i j, lookup-upsert k j v m)

pub lookup-without :
    (k j : String) (m : Settings) → lookup j (without k m) ≡ (if k == j then none else lookup j m)
unfolding lookup without
lookup-without k j [] = ground arith
lookup-without k j ((i, w) ∷ m) =
    ground (arith, eq_iff k j, eq_iff i k, eq_iff i j, lookup-without k j m)

pub ruleset setting_laws = (lookup-upsert, lookup-without)
