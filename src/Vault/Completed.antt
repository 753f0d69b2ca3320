-- ===== src/Vault/Completed.antt =====
-- A rotation of the master key (certmon/db.py) that nothing interrupts comes to its end.
use certmon.Prelude.{
  ℕ, zero, suc, ◌+◌, String, Bool, true, false, ◌≡◌, ◌≢◌, refl, sym, ap, ◌∙◌, Option, none, some,
  List, [], ◌∷◌, ◌==◌, eq_refl, arith, All, length, if◌then◌else◌, find, select, order_by,
  Option-cases, Bool-cases, inl, inr,
}
use certmon.Outcome.{ok, continue, pure, ◌>>◌}
use certmon.Db.{EncryptedBlob, Secret, Database}
use certmon.Db.Secrets.{get_secret}
use certmon.Vault.{Cipher, Protector, open_blob, activate_pending_key}
use certmon.Vault.Rotation.{
  Rotation, on_vault, id_before, has_other_key, ids_of, unrotated, convert_all, rotate_secrets,
}
use certmon.Vault.Keys.{
  Key, settled, rotating, fresh, begin_rotation-settled, begin_rotation-rotating, rewritten,
  activate-rotating,
}
use certmon.Vault.Rotated.{Holds, after-Holds, at, after, convert-read}
use certmon.Vault.Interrupted.{reveal, read_blob, begun, vault_with, next_id}

-- every id of the list is that of a stored secret
module _ (P : String → Type 0) where
  All-insert :
      (s : Secret) (ss : List Secret)
      → P s.id
      → All P (ids_of ss)
      → All P (ids_of (certmon.Prelude.insert_ordered id_before s ss))
  unfolding ids_of certmon.Prelude.insert_ordered
  All-insert s [] h hs = (h, tt)
  All-insert s (x ∷ xs) h (k, ks) = elim (Bool-cases (id_before s x)) [
    | inl e ↦ rw e (h, (k, ks))
    | inr e ↦ rw e (k, All-insert s xs h ks)
  ]

  All-order_by : (ss : List Secret) → All P (ids_of ss) → All P (ids_of (order_by id_before ss))
  unfolding ids_of order_by
  All-order_by [] h = tt
  All-order_by (s ∷ ss) (h, hs) = All-insert s (order_by id_before ss) h (All-order_by ss hs)

  All-select :
      (key_id : String) (ss : List Secret)
      → All P (ids_of ss)
      → All P (ids_of (select (has_other_key key_id) ss))
  unfolding ids_of select
  All-select key_id [] h = tt
  All-select key_id (s ∷ ss) (h, hs) = elim (Bool-cases (s.blob.key_id == key_id)) [
    | inl e ↦ rw e (All-select key_id ss hs)
    | inr e ↦ rw e (h, All-select key_id ss hs)
  ]

module _ (p : Protector) (c : Cipher)
    (opens : (key nonce text purpose : String)
      → c.unseal key nonce (c.seal key nonce text purpose) purpose ≡ ok text)
    (new_key new_id : String) (nonce : String → String) (now : ℕ) (k q : Key p)
    (apart : (k.id == q.id) ≡ false) where
  abbrev two_keys : Database → Rotation
  two_keys db = at p c opens new_key new_id nonce now k q apart db

  IsRead : Database → String → Type 0
  IsRead db j = (text : String) × Holds p c opens new_key new_id nonce now k q apart j text db

  module _ (db : Database) (id t : String) (b : EncryptedBlob) (found : get_secret id db ≡ some b)
      (opened : open_blob c (rotating p k q) b b.purpose ≡ ok t) where
    abbrev converted : Database
    converted = after p c opens new_key new_id nonce now k q apart id b t db

    all-IsRead : (ids : List String) → All (IsRead db) ids → All (IsRead converted) ids
    unfolding IsRead
    all-IsRead [] hs = tt
    all-IsRead (j ∷ js) ((text, h), hs) = (
      (
        text,
        after-Holds p c opens new_key new_id nonce now k q apart j text db b t id h found opened,
      ),
      all-IsRead js hs,
    )

  convert_all-ok :
      (ids : List String) (n : ℕ) (db : Database)
      → All (IsRead db) ids
      → (db' : Database) × (convert_all c new_key new_id nonce now none ids n (two_keys db)
          ≡ (ok (n + length ids), two_keys db'))
  unfolding convert_all IsRead Holds
  convert_all-ok [] n db hs = (db, ap (λ m. (ok m, two_keys db)) (omega arith))
  convert_all-ok (id ∷ ids) n db ((text, (b, (found, opened))), hs) =
      let (db', e) =
        convert_all-ok ids (suc n) (converted db id text b found opened)
          (all-IsRead db id text b found opened ids hs) in
      (
        db',
        rw (convert-read p c opens new_key new_id nonce now k q apart id text db b found opened)
            (e ∙ ap (λ m. (ok m, two_keys db')) (omega arith)),
      )

  -- the end of a rotation, once there are two keys
  completes :
      (stored : p.unprotect (p.protect q.key) ≡ ok q.key) (db : Database)
      → All (IsRead db) (ids_of db.secrets)
      → let m =
          continue
            (λ n. on_vault (activate_pending_key c) >> pure n)
            (convert_all c new_key new_id nonce now none
              (unrotated (some q.id) db)
              zero
              (two_keys db)) in
        (m.0 ≡ ok (length (unrotated (some q.id) db)))
        × (m.1.vault ≡ settled p (rewritten p c q stored))
  unfolding unrotated
  completes stored db hs =
      let ids = unrotated (some q.id) db in
      let (db', e) = convert_all-ok ids zero db (
        All-order_by (IsRead db) (select (has_other_key q.id) db.secrets)
          (All-select (IsRead db) q.id db.secrets hs)) in
      rw (e, activate-rotating p c k q stored) (ap ok (omega arith), refl)

module _ (c : Cipher) (r : Rotation) where
  -- every secret of the table can be read
  abbrev pub AllReadable : Type 0
  AllReadable = All (λ j. (text : String) × (reveal c r j ≡ ok text)) (ids_of r.database.secrets)

All-map :
    (P Q : String → Type 0) → ((j : String) → P j → Q j) → (js : List String) → All P js → All Q js
All-map P Q f [] hs = tt
All-map P Q f (j ∷ js) (h, hs) = (f j h, All-map P Q f js hs)

-- the key that a rotation moves to, as it is stored at the end
abbrev pub next_key :
    (p : Protector)
    → Cipher
    → ((key : String) → p.unprotect (p.protect key) ≡ ok key)
    → String
    → String
    → Option (Key p)
    → Key p
next_key p c kept new_key new_id none =
    rewritten p c (fresh p c new_key new_id (kept new_key)) (kept new_key)
next_key p c kept new_key new_id (some q) = rewritten p c q (kept q.key)

-- A rotation of the master key that nothing interrupts, of a table whose secrets can all be read: it
-- returns the number of the secrets that were under another key than the one it moves to, which is
-- then the one key of the vault, in memory and on disk. Both keys have different ids, and the cipher
-- and the protector undo their own work.
pub rotate_secrets_completes :
    (p : Protector) (c : Cipher) (new_key new_id : String) (nonce : String → String) (now : ℕ)
    (k : Key p) (pending : Option (Key p)) (db : Database)
    (opens : (key nonce text purpose : String)
      → c.unseal key nonce (c.seal key nonce text purpose) purpose ≡ ok text)
    (kept : (key : String) → p.unprotect (p.protect key) ≡ ok key)
    → (k.id == next_id p new_id pending) ≡ false
    → let r : Rotation = record { vault = vault_with p k pending; database = db } in
      let m = rotate_secrets c new_key new_id nonce now none r in
      AllReadable c r
      → (m.0 ≡ ok (length (unrotated (some (next_id p new_id pending)) db)))
        × (m.1.vault ≡ settled p (next_key p c kept new_key new_id pending))
unfolding rotate_secrets IsRead
rotate_secrets_completes p c new_key new_id nonce now k none db opens kept apart hs =
    let q = fresh p c new_key new_id (kept new_key) in
    rw (begin_rotation-settled p c new_key new_id (kept new_key) k) (
      completes p c opens new_key new_id nonce now k q apart (kept new_key) db (
        All-map _ _
          (λ j (text, e). (
            text,
            read_blob p c opens kept new_key new_id nonce now k j text q apart db
                (begun p c k q j text db e),
          ))
          (ids_of db.secrets) hs))
rotate_secrets_completes p c new_key new_id nonce now k (some q) db opens kept apart hs =
    rw (begin_rotation-rotating p c new_key new_id k q) (
      completes p c opens new_key new_id nonce now k q apart (kept q.key) db (
        All-map _ _
          (λ j (text, e).
            (text, read_blob p c opens kept new_key new_id nonce now k j text q apart db e))
          (ids_of db.secrets) hs))
