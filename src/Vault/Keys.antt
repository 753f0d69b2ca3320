-- ===== src/Vault/Keys.antt =====
-- The two keys of a vault (certmon/vault.py), in memory and in its files.
use certmon.Prelude.{
  String, false, ◌≡◌, refl, none, some, ◌==◌, eq_refl, eq_iff, arith, Bool-cases, inl, inr,
}
use certmon.Outcome.{ok}
use certmon.Db.{EncryptedBlob}
use certmon.Vault.{
  Cipher, Protector, KeyFile, VaultState, load_pending, load_master_key, ensure_loaded, open_blob,
  decrypt, start_pending, begin_rotation, need_pending, encrypt_for_rotation, activate_pending_key,
}

-- a key in memory and in the file that holds it
pub record Key (p : Protector) : Type 0 where
  pub key : String
  pub id : String
  pub protected : String
  pub opens : p.unprotect protected ≡ ok key

module _ (p : Protector) where
  abbrev pub file_of : Key p → KeyFile
  file_of k = record { key_id = k.id; protected = k.protected }

  -- a vault with one key, and one in a rotation
  abbrev pub settled : Key p → VaultState
  settled k = record {
    protector = p;
    master_key = some k.key;
    key_id = some k.id;
    pending_master_key = none;
    pending_key_id = none;
    master_file = some (file_of k);
    pending_file = none;
  }

  abbrev pub rotating : Key p → Key p → VaultState
  rotating k q = record (settled k) {
    pending_master_key = some q.key;
    pending_key_id = some q.id;
    pending_file = some (file_of q);
  }

-- the vault of a new process on the same files
abbrev pub restarted : VaultState → VaultState
restarted v = record v {
  master_key = none;
  key_id = none;
  pending_master_key = none;
  pending_key_id = none;
}

module _ (p : Protector) (c : Cipher) where
  restart-settled : (k : Key p) → ensure_loaded (restarted (settled p k)) ≡ (ok tt, settled p k)
  unfolding ensure_loaded load_master_key load_pending
  restart-settled k = rw k.opens refl

  restart-rotating :
      (k q : Key p) → ensure_loaded (restarted (rotating p k q)) ≡ (ok tt, rotating p k q)
  unfolding ensure_loaded load_master_key load_pending
  restart-rotating k q = rw (k.opens, q.opens) refl

  module _ (b : EncryptedBlob) (purpose : String) where
    pub decrypt-settled :
        (k : Key p)
        → decrypt c b purpose (settled p k) ≡ (open_blob c (settled p k) b purpose, settled p k)
    unfolding decrypt ensure_loaded
    decrypt-settled k = refl

    pub decrypt-rotating :
        (k q : Key p)
        → decrypt c b purpose (rotating p k q)
          ≡ (open_blob c (rotating p k q) b purpose, rotating p k q)
    unfolding decrypt ensure_loaded
    decrypt-rotating k q = refl

    pub decrypt-restarted-settled :
        (k : Key p)
        → decrypt c b purpose (restarted (settled p k))
          ≡ (open_blob c (settled p k) b purpose, settled p k)
    unfolding decrypt
    decrypt-restarted-settled k = rw (restart-settled k) refl

    pub decrypt-restarted-rotating :
        (k q : Key p)
        → decrypt c b purpose (restarted (rotating p k q))
          ≡ (open_blob c (rotating p k q) b purpose, rotating p k q)
    unfolding decrypt
    decrypt-restarted-rotating k q = rw (restart-rotating k q) refl

    -- What the one key opens, the two keys open.
    pub open_blob-rotating :
        (k q : Key p) (text : String)
        → open_blob c (settled p k) b purpose ≡ ok text
        → open_blob c (rotating p k q) b purpose ≡ ok text
    unfolding open_blob
    open_blob-rotating k q text e = elim (Bool-cases (b.key_id == k.id)) [
      | inl same ↦ rw same (cc (rw same at e))
      | inr other ↦ absurd (cc (rw other at e))
    ]

    -- A blob under the pending key is opened by both keys, and by that key alone.
    pub open_blob-pending :
        (k q : Key p) (text : String)
        → (k.id == q.id) ≡ false
        → b.key_id ≡ q.id
        → c.unseal q.key b.nonce b.ciphertext purpose ≡ ok text
        → open_blob c (rotating p k q) b purpose ≡ ok text
    unfolding open_blob
    open_blob-pending k q text apart moved e =
        let other : (q.id == k.id) ≡ false = ground (arith, eq_iff q.id k.id, eq_iff k.id q.id) in
        rw (moved, other, eq_refl q.id) e

    pub open_blob-moved :
        (k q : Key p) (text : String)
        → (k.id == q.id) ≡ false
        → b.key_id ≡ q.id
        → open_blob c (rotating p k q) b purpose ≡ ok text
        → c.unseal q.key b.nonce b.ciphertext purpose ≡ ok text
    unfolding open_blob
    open_blob-moved k q text apart moved e =
        let other : (q.id == k.id) ≡ false = ground (arith, eq_iff q.id k.id, eq_iff k.id q.id) in
        cc (rw (moved, other, eq_refl q.id) at e)

    pub open_blob-settled :
        (q : Key p) (text : String)
        → b.key_id ≡ q.id
        → c.unseal q.key b.nonce b.ciphertext purpose ≡ ok text
        → open_blob c (settled p q) b purpose ≡ ok text
    unfolding open_blob
    open_blob-settled q text moved e = rw (moved, eq_refl q.id) e

  module _ (new_key new_id : String) (stored : p.unprotect (p.protect new_key) ≡ ok new_key) where
    -- the key that a rotation starts with
    abbrev pub fresh : Key p
    fresh = record { key = new_key; id = new_id; protected = p.protect new_key; opens = stored }

    pub begin_rotation-settled :
        (k : Key p)
        → begin_rotation c new_key new_id (settled p k) ≡ (ok (some new_id), rotating p k fresh)
    unfolding begin_rotation ensure_loaded start_pending
    begin_rotation-settled k = refl

  module _ (new_key new_id : String) (k q : Key p) where
    pub begin_rotation-rotating :
        begin_rotation c new_key new_id (rotating p k q) ≡ (ok (some q.id), rotating p k q)
    unfolding begin_rotation ensure_loaded start_pending
    begin_rotation-rotating = refl

    -- what a rotation stores for a secret
    abbrev pub replacement : String → String → String → EncryptedBlob
    replacement nonce text purpose = record {
      key_id = q.id;
      nonce = nonce;
      ciphertext = c.seal q.key nonce text purpose;
      purpose = purpose;
    }

    pub encrypt_for_rotation-rotating :
        (nonce text purpose : String)
        → encrypt_for_rotation c new_key new_id nonce text purpose (rotating p k q)
          ≡ (ok (replacement nonce text purpose), rotating p k q)
    unfolding encrypt_for_rotation need_pending
    encrypt_for_rotation-rotating nonce text purpose = refl

  -- the new master key, written again
  abbrev pub rewritten : (q : Key p) → p.unprotect (p.protect q.key) ≡ ok q.key → Key p
  rewritten q stored = record {
    key = q.key;
    id = q.id;
    protected = p.protect q.key;
    opens = stored;
  }

  pub activate-rotating :
      (k q : Key p) (stored : p.unprotect (p.protect q.key) ≡ ok q.key)
      → activate_pending_key c (rotating p k q) ≡ (ok tt, settled p (rewritten q stored))
  unfolding activate_pending_key
  activate-rotating k q stored = refl
