-- ===== src/Vault.antt =====
-- certmon/vault.py: `Vault`. `Cipher` stands for AES-GCM and Scrypt, a protector for DPAPI. A key file
-- and a recovery package are the records that their JSON holds. Keys, ids, nonces and salts, which are
-- drawn at random, are arguments.
pub mod Rotation
pub mod Keys
pub mod Reveals
pub mod Rotated
pub mod Interrupted
pub mod Completed
pub mod Recovery
use certmon.Prelude.{String, Bool, Option, none, some, ◌==◌, if◌then◌else◌, is_none, same_option}
use certmon.Outcome.{
  Error, Result, ok, err, file_not_found, runtime_error, value_error, Action, pure, raise, raise_if,
  lift, gets, or_raise, modify, ◌>>=◌, ◌>>◌,
}
use certmon.Db.{EncryptedBlob}

pub record Cipher : Type 0 where
  pub seal : String → String → String → String → String
  pub unseal : String → String → String → String → Result String
  pub derive : String → String → String

-- `KeyProtector`
pub record Protector : Type 0 where
  pub protect : String → String
  pub unprotect : String → Result String

pub record KeyFile : Type 0 where
  pub key_id : String
  pub protected : String

-- the fields of a vault, and its two files
pub record VaultState : Type 0 where
  pub protector : Protector
  pub master_key : Option String
  pub key_id : Option String
  pub pending_master_key : Option String
  pub pending_key_id : Option String
  pub master_file : Option KeyFile
  pub pending_file : Option KeyFile

-- the recovery package
pub record Package : Type 0 where
  pub salt : String
  pub nonce : String
  pub ciphertext : String
  pub key_id : String

unfoldable pub load_pending : Option KeyFile → Action VaultState Unit
load_pending none = pure tt
load_pending (some file) = do
  modify (λ v. record v { pending_key_id = some file.key_id })
  key ← gets (λ v. v.protector.unprotect file.protected)
  key ← lift key
  modify (λ v. record v { pending_master_key = some key })

-- `_load_master_key`
unfoldable pub load_master_key : Action VaultState Unit
unfolding load_pending
load_master_key = do
  file ← or_raise (← gets (λ v. v.master_file)) file_not_found
  modify (λ v. record v { key_id = some file.key_id })
  key ← gets (λ v. v.protector.unprotect file.protected)
  key ← lift key
  modify (λ v. record v { master_key = some key })
  load_pending (← gets (λ v. v.pending_file))

-- `_ensure_loaded`
unfoldable pub ensure_loaded : Action VaultState Unit
unfolding load_master_key
ensure_loaded =
    gets (λ v. is_none v.master_key) >>= λ missing. if missing then load_master_key else pure tt

-- `_write_master_key`, with the fields that it is called for
abbrev pub store_master : String → String → VaultState → VaultState
store_master key id v = record v {
  master_key = some key;
  key_id = some id;
  master_file = some (record { key_id = id; protected = v.protector.protect key });
}

abbrev pub store_pending : String → String → VaultState → VaultState
store_pending key id v = record v {
  pending_master_key = some key;
  pending_key_id = some id;
  pending_file = some (record { key_id = id; protected = v.protector.protect key });
}

-- `initialize`
unfoldable pub initialize : String → String → Action VaultState Unit
unfolding load_master_key
initialize key id = gets (λ v. is_none v.master_file) >>= λ missing.
    if missing then modify (store_master key id) else load_master_key

module _ (c : Cipher) where
  -- a blob under a key; a key that is `None` is refused by AES-GCM
  abbrev pub sealed :
      Option String → Option String → String → String → String → Result EncryptedBlob
  sealed (some id) (some key) nonce plaintext purpose = ok (record {
    key_id = id;
    nonce = nonce;
    ciphertext = c.seal key nonce plaintext purpose;
    purpose = purpose;
  })
  sealed _ _ nonce plaintext purpose = err runtime_error

  unfoldable pub encrypt : String → String → String → Action VaultState EncryptedBlob
  unfolding ensure_loaded
  encrypt nonce plaintext purpose = do
    ensure_loaded
    blob ← gets (λ v. sealed v.key_id v.master_key nonce plaintext purpose)
    lift blob

  abbrev pub unsealed : Option String → EncryptedBlob → String → Result String
  unsealed none blob purpose = err runtime_error
  unsealed (some key) blob purpose = c.unseal key blob.nonce blob.ciphertext purpose

  unfoldable pub open_blob : VaultState → EncryptedBlob → String → Result String
  open_blob v blob purpose =
      if same_option (some blob.key_id) v.key_id
      then unsealed v.master_key blob purpose
      else if same_option (some blob.key_id) v.pending_key_id
      then unsealed v.pending_master_key blob purpose
      else err (value_error "Encrypted data uses an unknown master key")

  unfoldable pub decrypt : EncryptedBlob → String → Action VaultState String
  unfolding ensure_loaded open_blob
  decrypt blob purpose = do
    ensure_loaded
    plaintext ← gets (λ v. open_blob v blob purpose)
    lift plaintext

  module _ (new_key new_id : String) where
    start_pending : Action VaultState Unit
    start_pending = gets (λ v. is_none v.pending_master_key) >>= λ missing.
        if missing then modify (store_pending new_key new_id) else pure tt

    unfoldable pub begin_rotation : Action VaultState (Option String)
    unfolding ensure_loaded start_pending
    begin_rotation = do ensure_loaded; start_pending; gets (λ v. v.pending_key_id)

    -- begins a rotation unless one is pending
    need_pending : Bool → Action VaultState (Option String)
    unfolding begin_rotation
    need_pending missing = if missing then begin_rotation else pure none

    unfoldable pub encrypt_for_rotation : String → String → String → Action VaultState EncryptedBlob
    unfolding need_pending
    encrypt_for_rotation nonce plaintext purpose = do
      need_pending (← gets (λ v. is_none v.pending_master_key))
      blob ← gets (λ v. sealed v.pending_key_id v.pending_master_key nonce plaintext purpose)
      lift blob

  abbrev activated : Option String → Option String → VaultState → Result Unit × VaultState
  activated (some key) (some id) v = (
    ok tt,
    record (store_master key id v) {
      pending_file = none;
      pending_master_key = none;
      pending_key_id = none;
    },
  )
  activated _ _ v = (err runtime_error, v)

  unfoldable pub activate_pending_key : Action VaultState Unit
  activate_pending_key v = activated v.pending_master_key v.pending_key_id v

  abbrev packed : String → String → String → Option String → Option String → Result Package
  packed passphrase salt nonce (some id) (some key) = ok (record {
    salt = salt;
    nonce = nonce;
    ciphertext = c.seal (c.derive passphrase salt) nonce key id;
    key_id = id;
  })
  packed passphrase salt nonce _ _ = err runtime_error

  unfoldable pub create_recovery_package : String → String → String → Action VaultState Package
  unfolding ensure_loaded
  create_recovery_package salt nonce passphrase = do
    ensure_loaded
    box ← gets (λ v. packed passphrase salt nonce v.key_id v.master_key)
    lift box

  -- `InvalidTag` becomes a `ValueError`
  abbrev unpacked : Result String → Result String
  unpacked (ok key) = ok key
  unpacked (err e) = err (value_error "Invalid recovery passphrase")

  unfoldable pub restore_recovery_package : Package → String → Action VaultState Unit
  restore_recovery_package box passphrase = do
    key ←
        lift
          (unpacked (c.unseal (c.derive passphrase box.salt) box.nonce box.ciphertext box.key_id))
    modify (store_master key box.key_id)

-- the files of the keys that are there, written again
abbrev rewritten : Option String → Option String → Protector → Option KeyFile → Option KeyFile
rewritten (some key) (some id) p file = some (record { key_id = id; protected = p.protect key })
rewritten _ _ p file = file

unfoldable pub rewrap : Protector → Action VaultState Unit
unfolding ensure_loaded
rewrap p = do
  ensure_loaded
  modify (λ v. record v {
    protector = p;
    master_file = rewritten v.master_key v.key_id p v.master_file;
    pending_file = rewritten v.pending_master_key v.pending_key_id p v.pending_file;
  })
