-- ===== src/Vault/Recovery.antt =====
-- The recovery package of a vault (certmon/vault.py).
use certmon.Prelude.{String, ◌≡◌, refl, ◌==◌, Bool-cases, inl, inr}
use certmon.Outcome.{ok}
use certmon.Outcome.Rules.{returned}
use mathlib.Core.Path.{subst}
use certmon.Db.{EncryptedBlob}
use certmon.Vault.{
  Cipher, Protector, Package, VaultState, ensure_loaded, create_recovery_package,
  restore_recovery_package, open_blob, store_master,
}
use certmon.Vault.Keys.{Key, settled}

module _ (p : Protector) (c : Cipher) (k : Key p) (salt nonce passphrase : String)
    (opens : (key nonce text purpose : String)
      → c.unseal key nonce (c.seal key nonce text purpose) purpose ≡ ok text) where
  restore-create :
      (box : Package) (w : VaultState)
      → (create_recovery_package c salt nonce passphrase (settled p k)).0 ≡ ok box
      → restore_recovery_package c box passphrase w ≡ (ok tt, store_master k.key k.id w)
  unfolding create_recovery_package restore_recovery_package ensure_loaded
  restore-create box w e =
      subst (λ b. restore_recovery_package c b passphrase w ≡ (ok tt, store_master k.key k.id w))
        (returned _ _ e) (rw (opens (c.derive passphrase salt) nonce k.key k.id) refl)

  -- A recovery package that a vault with one key makes, restored with the same passphrase in any vault:
  -- what the first vault opens, the other then opens, with the same text. The cipher undoes its own work.
  pub open_blob-restored :
      (box : Package) (w : VaultState) (b : EncryptedBlob) (purpose text : String)
      → (create_recovery_package c salt nonce passphrase (settled p k)).0 ≡ ok box
      → open_blob c (settled p k) b purpose ≡ ok text
      → open_blob c (restore_recovery_package c box passphrase w).1 b purpose ≡ ok text
  unfolding open_blob
  open_blob-restored box w b purpose text made e = elim (Bool-cases (b.key_id == k.id)) [
    | inl same ↦ rw (restore-create box w made, same) (cc (rw same at e))
    | inr other ↦ absurd (cc (rw other at e))
  ]
