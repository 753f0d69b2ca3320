-- ===== src/Vault/Rotation.antt =====
-- `rotate_secrets` of certmon/db.py, with the vault of certmon/vault.py.
use Prim.Native.String.{compare}
use Prim.Native.Nat.{Ordering}
use certmon.Prelude.{
  ℕ, suc, zero, String, Bool, true, false, not, Option, none, some, List, [], ◌∷◌, ◌==◌, ◌&&◌,
  select, update, order_by, leb,
}
use certmon.Outcome.{
  runtime_error, Action, pure, raise_if, gets, or_raise, modify, transaction, ◌>>=◌, ◌>>◌,
}
use certmon.Db.{EncryptedBlob, Secret, Database, Query}
use certmon.Db.Secrets.{get_secret}
use certmon.Vault.{
  Cipher, VaultState, begin_rotation, decrypt, encrypt_for_rotation, activate_pending_key,
}

-- the vault and the database of a process
pub record Rotation : Type 0 where
  pub vault : VaultState
  pub database : Database

module _ {A : Type 0} where
  abbrev pub on_vault : Action VaultState A → Action Rotation A
  on_vault m r = let (a, v) = m r.vault in (a, record r { vault = v })

  abbrev pub on_database : Query A → Action Rotation A
  on_database m r = let (a, db) = m r.database in (a, record r { database = db })

-- `SELECT id FROM secrets WHERE key_id != ? ORDER BY id`; no row differs from NULL
unfoldable pub id_before : Secret → Secret → Bool
id_before a b = elim (compare a.id b.id) [ Ordering.gt ↦ false | _ ↦ true ]

abbrev pub has_other_key : String → Secret → Bool
has_other_key key_id s = not (s.blob.key_id == key_id)

unfoldable pub ids_of : List Secret → List String
ids_of [] = []
ids_of (s ∷ ss) = s.id ∷ ids_of ss

unfoldable pub unrotated : Option String → Database → List String
unfolding order_by id_before ids_of
unrotated none db = []
unrotated (some key_id) db = ids_of (order_by id_before (select (has_other_key key_id) db.secrets))

-- `WHERE id=? AND key_id=?`
abbrev pub under_key : String → String → Secret → Bool
under_key id key_id s = s.id == id && s.blob.key_id == key_id

-- the columns that the UPDATE sets
abbrev pub resealed : ℕ → EncryptedBlob → Secret → Secret
resealed now b s = record s {
  blob = record s.blob { key_id = b.key_id; nonce = b.nonce; ciphertext = b.ciphertext };
  updated_at = now;
}

unfoldable pub replace_secret : ℕ → String → String → EncryptedBlob → Query Unit
unfolding transaction
replace_secret now id key_id b = transaction (
    modify (λ db. record db { secrets = update (under_key id key_id) (resealed now b) db.secrets }))

-- `interrupt_after is not None and converted >= interrupt_after`
abbrev pub interrupts : Option ℕ → ℕ → Bool
interrupts none converted = false
interrupts (some n) converted = leb n converted

module _ (c : Cipher) (new_key new_id : String) (nonce : String → String) (now : ℕ) where
  -- the body of the loop
  unfoldable pub convert : String → Action Rotation Unit
  unfolding replace_secret
  convert secret_id = do
    blob ← or_raise (← gets (λ r. get_secret secret_id r.database)) runtime_error
    plaintext ← on_vault (decrypt c blob blob.purpose)
    replacement ←
        on_vault (encrypt_for_rotation c new_key new_id (nonce secret_id) plaintext blob.purpose)
    on_database (replace_secret now secret_id blob.key_id replacement)

  unfoldable pub convert_all : Option ℕ → List String → ℕ → Action Rotation ℕ
  unfolding convert
  convert_all interrupt_after [] converted = pure converted
  convert_all interrupt_after (id ∷ ids) converted = do
    convert id
    raise_if (interrupts interrupt_after (suc converted)) runtime_error
    convert_all interrupt_after ids (suc converted)

  unfoldable pub rotate_secrets : Option ℕ → Action Rotation ℕ
  unfolding unrotated convert_all
  rotate_secrets interrupt_after = do
    pending ← on_vault (begin_rotation c new_key new_id)
    ids ← gets (λ r. unrotated pending r.database)
    converted ← convert_all interrupt_after ids zero
    on_vault (activate_pending_key c)
    pure converted
