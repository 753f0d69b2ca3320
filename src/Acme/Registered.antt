-- ===== src/Acme/Registered.antt =====
-- An account of `ACMEAccountService` (certmon/acme_service.py) from its registration to its use.
use certmon.Prelude.{ℕ, String, true, false, ◌≡◌, refl, ◌==◌, eq_refl, Option, none, some, [], ◌∷◌}
use certmon.Outcome.{ok, transaction}
use certmon.Db.{text, acme_account, Account, Database}
use certmon.Db.Settings.{get_setting, put_setting, lookup-upsert}
use certmon.Db.Secrets.{get_secret, put_secret, get_secret-put_secret}
use certmon.Acme.{Acme, Registration}
use certmon.Acme.Accounts.{
  directory_of, account_setting, account_secret, stored_account, stored_key, stripped, new_account,
  keep_account, register_new, register_known, register_in, register, load, load_known,
}

module _ (a : Acme) (now : ℕ) (environment directory : String) (email : Option String)
    (db : Database) (known : directory_of (some environment) ≡ some directory)
    (given : (stripped email == "") ≡ false) where
  module _ (r : Registration) (accepted : a.register directory a.new_key (stripped email) ≡ ok r)
      (opens : (content purpose : String)
        → a.decrypt (a.encrypt content purpose) (a.encrypt content purpose).purpose ≡ ok content)
      (fresh : stored_account environment db ≡ none) where
    secret_store : Database
    secret_store =
        (put_secret now (account_secret environment)
          (a.encrypt a.new_key (account_secret environment))
          (("environment", text environment) ∷ ("email", text (stripped email)) ∷ []) db).1

    kept_store : Database
    kept_store =
        (put_setting (account_setting environment)
          (acme_account (new_account a now environment (stripped email) directory none r))
          secret_store).1

    registers : register a now (some environment) email true false db ≡ (ok tt, kept_store)
    unfolding register register_in register_known register_new kept_store keep_account secret_store
        put_secret put_setting transaction
    registers = rw (known, given, fresh, accepted) refl

    has_account :
        stored_account environment kept_store
        ≡ some (new_account a now environment (stripped email) directory none r)
    unfolding kept_store put_setting get_setting
    has_account = rw (lookup-upsert, eq_refl) refl

    has_secret :
        stored_key environment secret_store
        ≡ some (a.encrypt a.new_key (account_secret environment))
    unfolding secret_store
    has_secret = rw (get_secret-put_secret, eq_refl) refl

    has_key :
        stored_key environment kept_store ≡ some (a.encrypt a.new_key (account_secret environment))
    unfolding kept_store put_setting get_secret transaction
    has_key = has_secret

    opened :
        (account : Account)
        → load_known a (some account) (some (a.encrypt a.new_key (account_secret environment)))
          ≡ ok (some (account, a.new_key))
    unfolding load_known
    opened account = rw (opens a.new_key (account_secret environment), load_known) refl

    -- A first registration that the server accepts, of an environment that is known, with an email
    -- that is not blank and the terms accepted, where the vault decrypts what it encrypted:
    -- `register` returns, and `load` then gives the new account with the key that was generated.
    pub load-register :
        ((register a now (some environment) email true false db).0 ≡ ok tt)
        × (load a environment (register a now (some environment) email true false db).1
            ≡ ok
                (some (new_account a now environment (stripped email) directory none r, a.new_key)))
    unfolding load
    load-register = rw registers (refl, rw (has_account, has_key) (opened _))
