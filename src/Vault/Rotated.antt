-- ===== src/Vault/Rotated.antt =====
-- The loop of `rotate_secrets` (certmon/db.py): a secret that can be read stays readable.
use certmon.Prelude.{
  ℕ, suc, String, false, ◌≡◌, refl, sym, ap, ◌∙◌, Option, some, List, [], ◌∷◌, ◌==◌, eq_iff, arith,
  contains, Bool-cases, Option-cases, inl, inr,
}
use mathlib.Core.Path.{subst}
use certmon.Outcome.{Error, Result, ok, err, runtime_error, continue, raise_if, transaction, ◌>>◌}
use certmon.Db.{EncryptedBlob, Database}
use certmon.Db.Secrets.{get_secret}
use certmon.Vault.{Cipher, Protector, VaultState, open_blob}
use certmon.Vault.Rotation.{Rotation, replace_secret, interrupts, convert, convert_all}
use certmon.Vault.Keys.{
  Key, rotating, decrypt-rotating, open_blob-pending, replacement, encrypt_for_rotation-rotating,
}
use certmon.Vault.Reveals.{replaced, get_secret-replaced, get_secret-replaced_other}

module _ (p : Protector) (c : Cipher)
    (opens : (key nonce text purpose : String)
      → c.unseal key nonce (c.seal key nonce text purpose) purpose ≡ ok text)
    (new_key new_id : String) (nonce : String → String) (now : ℕ) (k q : Key p)
    (apart : (k.id == q.id) ≡ false) where
  abbrev pub both : VaultState
  both = rotating p k q

  abbrev pub at : Database → Rotation
  at db = record { vault = both; database = db }

  abbrev pub new_blob : String → EncryptedBlob → String → EncryptedBlob
  new_blob id b text = replacement p c new_key new_id k q (nonce id) text b.purpose

  abbrev pub after : String → EncryptedBlob → String → Database → Database
  after id b text db = replaced now id b.key_id (new_blob id b text) db

  module _ (Q : Result Unit × Rotation → Type 0) (id : String) (db : Database)
      (fails : (e : Error) → Q (err e, at db))
      (next : (b : EncryptedBlob) (text : String)
        → get_secret id db ≡ some b
        → open_blob c both b b.purpose ≡ ok text
        → Q (ok tt, at (after id b text db))) where
    converted_blob :
        (b : EncryptedBlob)
        → get_secret id db ≡ some b
        → (r : Result String) → open_blob c both b b.purpose ≡ r
        → Q (convert c new_key new_id nonce now id (at db))
    unfolding convert replace_secret transaction
    converted_blob b found (err e) opened =
        rw (found, decrypt-rotating p c b b.purpose k q, opened) (fails e)
    converted_blob b found (ok text) opened =
        rw (found, decrypt-rotating p c b b.purpose k q, opened)
          (rw (encrypt_for_rotation-rotating p c new_key new_id k q (nonce id) text b.purpose)
            (next b text found opened))

    -- A conversion raises and changes nothing, or it replaces the blob by one with the same text.
    convert_rule : Q (convert c new_key new_id nonce now id (at db))
    unfolding convert
    convert_rule = elim (Option-cases (get_secret id db)) [
      | inl e ↦ rw e (fails runtime_error)
      | inr (b, found) ↦ converted_blob b found (open_blob c both b b.purpose) refl
    ]

  -- A secret that can be read is converted.
  pub convert-read :
      (id text : String) (db : Database) (b : EncryptedBlob)
      → get_secret id db ≡ some b
      → open_blob c both b b.purpose ≡ ok text
      → convert c new_key new_id nonce now id (at db) ≡ (ok tt, at (after id b text db))
  unfolding convert replace_secret transaction
  convert-read id text db b found opened =
      rw (found, decrypt-rotating p c b b.purpose k q, opened)
        (rw (encrypt_for_rotation-rotating p c new_key new_id k q (nonce id) text b.purpose) refl)

  module _ (j text : String) where
    unfoldable pub Holds : Database → Type 0
    Holds db =
        (b : EncryptedBlob) × ((get_secret j db ≡ some b)
          × (open_blob c both b b.purpose ≡ ok text))

    -- the secret is under the pending key
    unfoldable pub Moved : Database → Type 0
    Moved db =
        (b : EncryptedBlob) × ((get_secret j db ≡ some b)
          × ((b.key_id ≡ q.id) × (c.unseal q.key b.nonce b.ciphertext b.purpose ≡ ok text)))

    Moved-Holds : (db : Database) → Moved db → Holds db
    unfolding Moved Holds
    Moved-Holds db (b, (found, (moved, e))) =
        (b, (found, open_blob-pending p c b b.purpose k q text apart moved e))

    module _ (db : Database) (h : Holds db) (b : EncryptedBlob) (t : String) where
      after_self :
          get_secret j db ≡ some b → open_blob c both b b.purpose ≡ ok t → Moved (after j b t db)
      unfolding Moved Holds
      after_self found opened =
          let (b', (found', opened')) = h in
          let same : b' ≡ b = cc in
          let text_is : t ≡ text = cc in
          (
            record (new_blob j b t) { purpose = b.purpose },
            (
              get_secret-replaced now j (new_blob j b t) b db found,
              (refl, opens q.key (nonce j) t b.purpose ∙ ap ok text_is),
            ),
          )

      module _ (id : String) (other : (id == j) ≡ false) where
        Holds-after_other : Holds (after id b t db)
        unfolding Holds
        Holds-after_other =
            let (b', (found', opened')) = h in
            (
              b',
              (
                get_secret-replaced_other now id b.key_id (new_blob id b t) db j other ∙ found',
                opened',
              ),
            )

        Moved-after_other : Moved db → Moved (after id b t db)
        unfolding Moved
        Moved-after_other (b', (found', moved)) = (
          b',
          (get_secret-replaced_other now id b.key_id (new_blob id b t) db j other ∙ found', moved),
        )

    pub after-Holds :
        (db : Database) (b : EncryptedBlob) (t id : String)
        → Holds db
        → get_secret id db ≡ some b
        → open_blob c both b b.purpose ≡ ok t
        → Holds (after id b t db)
    after-Holds db b t id h found opened = elim (Bool-cases (id == j)) [
      | inl e ↦
          let same : id ≡ j = (eq_iff id j).0 e in
          subst (λ i. Holds (after i b t db)) (sym same)
            (Moved-Holds (after j b t db)
              (after_self db h b t (subst (λ i. get_secret i db ≡ some b) same found) opened))
      | inr e ↦ Holds-after_other db h b t id e
    ]

    -- after the conversion of `id`, what is left to convert still covers the secret
    after-Moved :
        (db : Database) (b : EncryptedBlob) (t id : String) (ids : List String)
        → Holds db
        → get_secret id db ≡ some b
        → open_blob c both b b.purpose ≡ ok t
        → (contains j (id ∷ ids) ≡ false → Moved db)
        → contains j ids ≡ false
        → Moved (after id b t db)
    after-Moved db b t id ids h found opened covered e = elim (Bool-cases (id == j)) [
      | inl m ↦
          let same : id ≡ j = (eq_iff id j).0 m in
          subst (λ i. Moved (after i b t db)) (sym same)
            (after_self db h b t (subst (λ i. get_secret i db ≡ some b) same found) opened)
      | inr m ↦
          Moved-after_other db h b t id m (covered (ground (arith, m, e, eq_iff id j, eq_iff j id)))
    ]

    -- the vault is the same, the secret can be read, and a loop that ends has moved it
    unfoldable pub Ends : Result ℕ × Rotation → Type 0
    Ends m = (db : Database) × ((m.1 ≡ at db) × ((Holds db) × ((n : ℕ) → m.0 ≡ ok n → Moved db)))

    pub convert_all-Ends :
        (interrupt_after : Option ℕ) (ids : List String) (converted : ℕ) (db : Database)
        → Holds db
        → (contains j ids ≡ false → Moved db)
        → Ends (convert_all c new_key new_id nonce now interrupt_after ids converted (at db))
    unfolding convert_all Ends
    convert_all-Ends interrupt_after [] converted db h covered =
        (db, (refl, (h, λ n e. covered refl)))
    convert_all-Ends interrupt_after (id ∷ ids) converted db h covered =
        convert_rule
          (λ m. Ends (
            continue
              (λ _.
                raise_if (interrupts interrupt_after (suc converted)) runtime_error
                >> convert_all c new_key new_id nonce now interrupt_after ids (suc converted))
              m))
          id db (λ e. (db, (refl, (h, λ n e. absurd cc))))
          λ b t found opened.
            let h' = after-Holds db b t id h found opened in
            elim (Bool-cases (interrupts interrupt_after (suc converted))) [
              | inl e ↦ rw e (after id b t db, (refl, (h', λ n e. absurd cc)))
              | inr e ↦ rw e (
                  convert_all-Ends interrupt_after ids (suc converted) (after id b t db) h'
                    (after-Moved db b t id ids h found opened covered))
            ]
