-- ===== src/Vault/Interrupted.antt =====
-- A rotation of the master key (certmon/db.py, certmon/vault.py) that ends or is interrupted.
use certmon.Prelude.{
  ℕ, zero, String, false, ◌≡◌, refl, sym, ap, ◌∙◌, Option, none, some, ◌==◌, contains, Option-cases,
  inl, inr,
}
use certmon.Outcome.{Result, ok, err, key_error, continue, pure, ◌>>◌}
use certmon.Db.{EncryptedBlob, Database}
use certmon.Db.Secrets.{get_secret}
use certmon.Vault.{Cipher, Protector, VaultState, decrypt, activate_pending_key}
use certmon.Vault.Rotation.{Rotation, on_vault, unrotated, convert_all, rotate_secrets}
use certmon.Vault.Keys.{
  Key, settled, rotating, restarted, decrypt-settled, decrypt-rotating, decrypt-restarted-settled,
  decrypt-restarted-rotating, open_blob-rotating, open_blob-settled, open_blob-moved, fresh,
  begin_rotation-settled, begin_rotation-rotating, rewritten, activate-rotating,
}
use certmon.Vault.Reveals.{unrotated-else}
use certmon.Vault.Rotated.{Holds, Moved, Ends, convert_all-Ends}

-- what a process reads for a secret
unfoldable pub reveal : Cipher → Rotation → String → Result String
reveal c r j = elim (get_secret j r.database) [
  | none ↦ err (key_error j)
  | some b ↦ (decrypt c b b.purpose r.vault).0
]

reveal-found :
    (c : Cipher) (r : Rotation) (j : String) (b : EncryptedBlob)
    → get_secret j r.database ≡ some b
    → reveal c r j ≡ (decrypt c b b.purpose r.vault).0
unfolding reveal
reveal-found c r j b found = rw (reveal, found) refl

reveal-decrypt :
    (c : Cipher) (v v' : VaultState) (db : Database) (j : String) (b : EncryptedBlob)
    (text : Result String)
    → get_secret j db ≡ some b
    → decrypt c b b.purpose v ≡ (text, v')
    → reveal c (record { vault = v; database = db }) j ≡ text
reveal-decrypt c v v' db j b text found opened =
    reveal-found c (record { vault = v; database = db }) j b found ∙ ap (λ m. m.0) opened

-- A rotation that begins keeps what can be read.
pub begun :
    (p : Protector) (c : Cipher) (k q : Key p) (j text : String) (db : Database)
    → reveal c (record { vault = settled p k; database = db }) j ≡ ok text
    → reveal c (record { vault = rotating p k q; database = db }) j ≡ ok text
unfolding reveal
begun p c k q j text db e = elim (Option-cases (get_secret j db)) [
  | inl n ↦ absurd (cc (rw (reveal, n) at e))
  | inr (b, found) ↦
      reveal-decrypt c (rotating p k q) _ db j b _ found (decrypt-rotating p c b b.purpose k q)
      ∙ open_blob-rotating p c b b.purpose k q text (
          sym (ap (λ m. m.0) (decrypt-settled p c b b.purpose k))
          ∙ sym (reveal-found c (record { vault = settled p k; database = db }) j b found)
          ∙ e)
]

-- a process that starts again on the same files
abbrev pub after_restart : Rotation → Rotation
after_restart r = record r { vault = restarted r.vault }

module _ (p : Protector) (c : Cipher)
    (opens : (key nonce text purpose : String)
      → c.unseal key nonce (c.seal key nonce text purpose) purpose ≡ ok text)
    (kept : (key : String) → p.unprotect (p.protect key) ≡ ok key) (new_key new_id : String)
    (nonce : String → String) (now : ℕ) (k : Key p) where
  module _ (j text : String) where
    -- the secret is read, by this process and by the next one
    abbrev Reads : Rotation → Type 0
    Reads r = (reveal c r j ≡ ok text) × (reveal c (after_restart r) j ≡ ok text)

    module _ (q : Key p) (apart : (k.id == q.id) ≡ false) where
      abbrev at : Database → Rotation
      at db = record { vault = rotating p k q; database = db }

      Holds-Reads :
          (db : Database)
          → Holds p c opens new_key new_id nonce now k q apart j text db
          → Reads (at db)
      unfolding Holds
      Holds-Reads db (b, (found, opened)) = (
        reveal-decrypt c (rotating p k q) _ db j b _ found (decrypt-rotating p c b b.purpose k q)
            ∙ opened,
        reveal-decrypt c (restarted (rotating p k q)) _ db j b _ found
              (decrypt-restarted-rotating p c b b.purpose k q)
            ∙ opened,
      )

      Moved-Reads :
          (db : Database)
          → Moved p c opens new_key new_id nonce now k q apart j text db
          → Reads (record { vault = settled p (rewritten p c q (kept q.key)); database = db })
      unfolding Moved
      Moved-Reads db (b, (found, (moved, e))) =
          let q' = rewritten p c q (kept q.key) in
          let opened = open_blob-settled p c b b.purpose q' text moved e in
          (
            reveal-decrypt c (settled p q') _ db j b _ found (decrypt-settled p c b b.purpose q')
                ∙ opened,
            reveal-decrypt c (restarted (settled p q')) _ db j b _ found
                  (decrypt-restarted-settled p c b b.purpose q')
                ∙ opened,
          )

      finished :
          (m : Result ℕ × Rotation)
          → Ends p c opens new_key new_id nonce now k q apart j text m
          → Reads (continue (λ n. on_vault (activate_pending_key c) >> pure n) m).1
      unfolding Ends
      finished (ok n, r) (db, (same, (h, moved))) =
          rw same (rw (activate-rotating p c k q (kept q.key)) (Moved-Reads db (moved n refl)))
      finished (err e, r) (db, (same, (h, moved))) = rw same (Holds-Reads db h)

      pub read_blob :
          (db : Database)
          → reveal c (at db) j ≡ ok text
          → Holds p c opens new_key new_id nonce now k q apart j text db
      unfolding Holds reveal
      read_blob db e = elim (Option-cases (get_secret j db)) [
        | inl n ↦ absurd (cc (rw (reveal, n) at e))
        | inr (b, found) ↦ (
          b,
          (
            found,
            sym (ap (λ m. m.0) (decrypt-rotating p c b b.purpose k q))
                ∙ sym (reveal-found c (at db) j b found)
                ∙ e,
          ),
        )
      ]

      listed :
          (db : Database)
          → Holds p c opens new_key new_id nonce now k q apart j text db
          → contains j (unrotated (some q.id) db) ≡ false
          → Moved p c opens new_key new_id nonce now k q apart j text db
      unfolding Holds Moved
      listed db (b, (found, opened)) e =
          let moved : b.key_id ≡ q.id = unrotated-else j q.id db b found e in
          (b, (found, (moved, open_blob-moved p c b b.purpose k q text apart moved opened)))

      -- the rest of a rotation, once there are two keys
      rest_reads :
          (interrupt_after : Option ℕ) (db : Database)
          → reveal c (at db) j ≡ ok text
          → Reads
              (continue
                (λ n. on_vault (activate_pending_key c) >> pure n)
                (convert_all c new_key new_id nonce now interrupt_after
                  (unrotated (some q.id) db)
                  zero
                  (at db))).1
      rest_reads interrupt_after db e =
          let h = read_blob db e in
          finished
            (convert_all c new_key new_id nonce now interrupt_after (unrotated (some q.id) db) zero
              (at db))
            (convert_all-Ends p c opens new_key new_id nonce now k q apart j text interrupt_after
              (unrotated (some q.id) db) zero db h (listed db h))

module _ (p : Protector) where
  -- a vault with the master key `k`, and perhaps a pending key
  abbrev pub vault_with : Key p → Option (Key p) → VaultState
  vault_with k none = settled p k
  vault_with k (some q) = rotating p k q

  -- the id of the key that a rotation moves to
  abbrev pub next_id : String → Option (Key p) → String
  next_id new_id none = new_id
  next_id new_id (some q) = q.id

-- A rotation of the master key, from one key or from a pending one, that ends, that raises at any
-- secret, or that is interrupted after any number of secrets: each secret that could be read before it
-- is read with the same text after it, by this process and by one that starts again on the same files.
-- Both keys have different ids, and the cipher and the protector undo their own work.
pub rotate_secrets-reveals :
    (p : Protector) (c : Cipher) (new_key new_id : String) (nonce : String → String) (now : ℕ)
    (k : Key p) (pending : Option (Key p)) (interrupt_after : Option ℕ) (db : Database)
    (j text : String)
    → ((key nonce text purpose : String)
        → c.unseal key nonce (c.seal key nonce text purpose) purpose ≡ ok text)
    → ((key : String) → p.unprotect (p.protect key) ≡ ok key)
    → (k.id == next_id p new_id pending) ≡ false
    → let r : Rotation = record { vault = vault_with p k pending; database = db } in
      let r' : Rotation = (rotate_secrets c new_key new_id nonce now interrupt_after r).1 in
      reveal c r j ≡ ok text → (reveal c r' j ≡ ok text) × (reveal c (after_restart r') j ≡ ok text)
unfolding rotate_secrets
rotate_secrets-reveals p c new_key new_id nonce now k none interrupt_after db j text opens kept
      apart e =
    let q = fresh p c new_key new_id (kept new_key) in
    rw (begin_rotation-settled p c new_key new_id (kept new_key) k) (
      rest_reads p c opens kept new_key new_id nonce now k j text q apart interrupt_after db
        (begun p c k q j text db e))
rotate_secrets-reveals p c new_key new_id nonce now k (some q) interrupt_after db j text opens kept
      apart e =
    rw (begin_rotation-rotating p c new_key new_id k q)
      (rest_reads p c opens kept new_key new_id nonce now k j text q apart interrupt_after db e)
