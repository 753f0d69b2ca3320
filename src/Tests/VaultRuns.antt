-- ===== src/Tests/VaultRuns.antt =====
-- A vault with a cipher that can be evaluated; it is no cipher for real use.
use certmon.Prelude.{String, ◌≡◌, refl, none, some, [], ◌∷◌, length, find}
use certmon.Outcome.{ok}
use certmon.Db.{EncryptedBlob, Secret, Database, empty}
use certmon.Vault.{
  Cipher, Protector, Package, VaultState, open_blob, restore_recovery_package,
  create_recovery_package,
}
use certmon.Vault.Rotation.{Rotation, rotate_secrets, unrotated}
use certmon.Vault.Keys.{Key, settled}
use certmon.Vault.Interrupted.{reveal, after_restart, rotate_secrets-reveals}
use certmon.Vault.Completed.{rotate_secrets_completes}
use certmon.Vault.Recovery.{open_blob-restored}

abbrev plain_cipher : Cipher
plain_cipher = record {
  seal = λ key nonce text purpose. text;
  unseal = λ key nonce ciphertext purpose. ok ciphertext;
  derive = λ passphrase salt. passphrase;
}

abbrev open_protector : Protector
open_protector = record { protect = λ key. key; unprotect = λ protected. ok protected }

abbrev master : Key open_protector
master = record { key = "K1"; id = "k1"; protected = "K1"; opens = refl }

abbrev secret : String → Secret
secret id = record {
  id = id;
  blob = record { key_id = "k1"; nonce = "n"; ciphertext = "text"; purpose = "p" };
  metadata = [];
  created_at = 1;
  updated_at = 1;
}

abbrev stored : Database
stored = record empty { secrets = secret "b" ∷ secret "a" ∷ [] }

abbrev start : Rotation
start = record { vault = settled open_protector master; database = stored }

abbrev interrupted : Rotation
interrupted = (rotate_secrets plain_cipher "K2" "k2" (λ id. id) 9 (some 1) start).1

readable : reveal plain_cipher start "b" ≡ ok "text"
unfolding reveal certmon.Db.Secrets.get_secret find certmon.Vault.decrypt
readable = refl

rotate_secrets-reveals_example :
    (reveal plain_cipher interrupted "b" ≡ ok "text")
    × (reveal plain_cipher (after_restart interrupted) "b" ≡ ok "text")
rotate_secrets-reveals_example =
    rotate_secrets-reveals open_protector plain_cipher "K2" "k2" (λ id. id) 9 master none (some 1)
      stored "b" "text" (λ key nonce text purpose. refl) (λ key. refl) refl readable

abbrev second : Key open_protector
second = record { key = "K2"; id = "k2"; protected = "K2"; opens = refl }

rotate_secrets_completes_example :
    ((rotate_secrets plain_cipher "K2" "k2" (λ id. id) 9 none start).0
      ≡ ok (length (unrotated (some "k2") stored)))
    × ((rotate_secrets plain_cipher "K2" "k2" (λ id. id) 9 none start).1.vault
        ≡ settled open_protector second)
unfolding certmon.Vault.Rotation.ids_of reveal certmon.Db.Secrets.get_secret find
    certmon.Vault.decrypt
rotate_secrets_completes_example =
    rotate_secrets_completes open_protector plain_cipher "K2" "k2" (λ id. id) 9 master none stored
      (λ key nonce text purpose. refl) (λ key. refl) refl (("text", refl), (("text", refl), tt))

abbrev box : Package
box = record { salt = "s"; nonce = "n"; ciphertext = "K1"; key_id = "k1" }

abbrev another : VaultState
another = settled open_protector second

open_blob-restored_example :
    open_blob plain_cipher
      (restore_recovery_package plain_cipher box "secret" another).1
      (secret "a").blob
      "p"
    ≡ ok "text"
unfolding create_recovery_package open_blob
open_blob-restored_example =
    open_blob-restored open_protector plain_cipher master "s" "n" "secret"
      (λ key nonce text purpose. refl) box another (secret "a").blob "p" "text" refl refl
