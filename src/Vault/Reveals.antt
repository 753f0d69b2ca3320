-- ===== src/Vault/Reveals.antt =====
-- A secret before and after the UPDATE of `rotate_secrets` (certmon/db.py).
use certmon.Prelude.{
  ℕ, String, Bool, true, false, not, ◌≡◌, refl, sym, ap, ◌∙◌, Option, none, some, List, [], ◌∷◌,
  ◌==◌, eq_refl, eq_iff, arith, ◌||◌, contains, if◌then◌else◌, find, update, select, order_by,
  Bool-cases, Option-cases, inl, inr, find-update, find_passes,
}
use certmon.Outcome.{transaction}
use certmon.Db.{EncryptedBlob, Secret, Database}
use certmon.Db.Secrets.{has_secret_id, get_secret}
use certmon.Vault.Rotation.{
  under_key, resealed, replace_secret, has_other_key, ids_of, unrotated, id_before,
}
use mathlib.Core.Option

-- the database after the UPDATE
abbrev pub replaced : ℕ → String → String → EncryptedBlob → Database → Database
replaced now id key_id b db = (replace_secret now id key_id b db).1

module _ (now : ℕ) (id key_id : String) (b : EncryptedBlob) (db : Database) where
  row_after : Secret → Secret
  row_after s = if under_key id key_id s then resealed now b s else s

  found_after :
      (j : String)
      → find (has_secret_id j) (replaced now id key_id b db).secrets
        ≡ Option.map row_after (find (has_secret_id j) db.secrets)
  unfolding replace_secret transaction row_after
  found_after j =
      find-update (has_secret_id j) (under_key id key_id) (resealed now b) (λ s. refl) db.secrets

  pub get_secret-replaced_other :
      (j : String)
      → (id == j) ≡ false
      → get_secret j (replaced now id key_id b db) ≡ get_secret j db
  unfolding get_secret row_after
  get_secret-replaced_other j apart = elim (Option-cases (find (has_secret_id j) db.secrets)) [
    | inl e ↦ rw (found_after j, e) refl
    | inr (s, e) ↦
        let own : (s.id == j) ≡ true = find_passes (has_secret_id j) db.secrets s e in
        let kept : under_key id key_id s ≡ false =
          ground (arith, own, apart, eq_iff s.id j, eq_iff s.id id, eq_iff id j) in
        rw (found_after j, e, kept) refl
  ]

-- The secret that is converted, whose blob is found under the key that it has.
pub get_secret-replaced :
    (now : ℕ) (j : String) (b old : EncryptedBlob) (db : Database)
    → get_secret j db ≡ some old
    → get_secret j (replaced now j old.key_id b db)
      ≡ some (record old { key_id = b.key_id; nonce = b.nonce; ciphertext = b.ciphertext })
unfolding get_secret row_after
get_secret-replaced now j b old db found = elim (Option-cases (find (has_secret_id j) db.secrets)) [
  | inl e ↦ absurd (cc (rw e at found))
  | inr (s, e) ↦
      let own : (s.id == j) ≡ true = find_passes (has_secret_id j) db.secrets s e in
      let same : s.blob ≡ old = cc (rw e at found) in
      rw (found_after now j old.key_id b db j, e, own, same, eq_refl old.key_id) refl
]

-- The list of a rotation has the id of every secret under another key.
module _ (j : String) where
  contains-ordered :
      (s : Secret) (ss : List Secret)
      → contains j (ids_of (certmon.Prelude.insert_ordered id_before s ss))
        ≡ (j == s.id || contains j (ids_of ss))
  unfolding certmon.Prelude.insert_ordered ids_of
  contains-ordered s [] = refl
  contains-ordered s (x ∷ xs) = ground (arith, contains-ordered s xs)

  contains-order_by :
      (ss : List Secret) → contains j (ids_of (order_by id_before ss)) ≡ contains j (ids_of ss)
  unfolding order_by ids_of
  contains-order_by [] = refl
  contains-order_by (s ∷ ss) =
      contains-ordered s (order_by id_before ss) ∙ ap (λ b. j == s.id || b) (contains-order_by ss)

  unlisted :
      (key_id : String) (ss : List Secret) (s : Secret)
      → find (has_secret_id j) ss ≡ some s
      → contains j (ids_of (select (has_other_key key_id) ss)) ≡ false
      → (s.blob.key_id == key_id) ≡ true
  unfolding find select ids_of
  unlisted key_id [] s e h = absurd cc
  unlisted key_id (x ∷ xs) s e h =
      ground (arith, eq_iff x.id j, eq_iff j x.id, unlisted key_id xs s)

  pub unrotated-else :
      (key_id : String) (db : Database) (b : EncryptedBlob)
      → get_secret j db ≡ some b
      → contains j (unrotated (some key_id) db) ≡ false
      → b.key_id ≡ key_id
  unfolding get_secret unrotated
  unrotated-else key_id db b found h = elim (Option-cases (find (has_secret_id j) db.secrets)) [
    | inl e ↦ absurd (cc (rw e at found))
    | inr (s, e) ↦
        let same : s.blob ≡ b = cc (rw e at found) in
        ap (λ (x : EncryptedBlob). x.key_id) (sym same)
        ∙ (eq_iff s.blob.key_id key_id).0 (
            unlisted key_id db.secrets s e
              (sym (contains-order_by (select (has_other_key key_id) db.secrets)) ∙ h))
  ]
