-- ===== src/Acme/Accounts.antt =====
-- `ACMEAccountService` of certmon/acme_service.py.
use certmon.Prelude.{ℕ, String, Bool, not, ◌==◌, Option, none, some, [], ◌∷◌, strip, if◌then◌else◌}
use Prim.Native.String
use certmon.Outcome.{
  Result, ok, err, value_error, key_lost, pure, raise, raise_if, lift, gets, ◌>>=◌, ◌>>◌,
}
use certmon.Db.{Account, Setting, acme_account, EncryptedBlob, text, Database, Query}
use certmon.Db.Settings.{get_setting, put_setting}
use certmon.Db.Secrets.{get_secret, put_secret}
use certmon.Acme.{Registration, Acme}

abbrev pub staging_directory : String
staging_directory = "https://acme-staging-v02.api.letsencrypt.org/directory"

abbrev pub production_directory : String
production_directory = "https://acme-v02.api.letsencrypt.org/directory"

-- `ACME_DIRECTORIES`
unfoldable pub directory_of : Option String → Option String
directory_of none = none
directory_of (some e) =
    if e == "staging"
    then some staging_directory
    else if e == "production"
    then some production_directory
    else none

abbrev pub account_setting : String → String
account_setting environment = String.◌++◌ "acme-account:" environment

abbrev pub account_secret : String → String
account_secret environment = String.◌++◌ "acme-account-key:" environment

-- the value under `acme-account:`, which holds nothing but accounts
abbrev pub account_of : Option Setting → Option Account
account_of (some (acme_account account)) = some account
account_of _ = none

abbrev pub stored_account : String → Database → Option Account
stored_account environment db = account_of (get_setting (account_setting environment) db)

abbrev pub stored_key : String → Database → Option EncryptedBlob
stored_key environment db = get_secret (account_secret environment) db

-- `(email or "").strip()`
abbrev pub stripped : Option String → String
stripped none = ""
stripped (some email) = strip email

-- the key `replaced_account_url` is left out for no URL and for an empty one
abbrev pub replaced_url : Option String → Option String
replaced_url none = none
replaced_url (some url) = if url == "" then none else some url

module _ (a : Acme) (now : ℕ) (environment email directory : String) where
  abbrev pub new_account : Option String → Registration → Account
  new_account replaced r = record {
    environment = environment;
    directory_url = directory;
    email = email;
    account_url = r.account_url;
    terms_of_service_url = r.terms_of_service_url;
    registered_at = now;
    replaced_account_url = replaced_url replaced;
  }

  unfoldable pub keep_account : Option String → Registration → Query Unit
  keep_account replaced r = do
    put_secret now (account_secret environment) (a.encrypt a.new_key (account_secret environment))
        (("environment", text environment) ∷ ("email", text email) ∷ [])
    put_setting (account_setting environment) (acme_account (new_account replaced r))

  unfoldable pub register_new : Option String → Query Unit
  unfolding keep_account
  register_new replaced = do
    r ← lift (a.register directory a.new_key email)
    keep_account replaced r

  -- an account whose key is gone is an error, unless it is to be replaced
  unfoldable pub register_known : Bool → Option Account → Option EncryptedBlob → Query Unit
  unfolding register_new
  register_known replace_lost_key none key = register_new none
  register_known replace_lost_key (some account) (some key) = pure tt
  register_known replace_lost_key (some account) none =
      if replace_lost_key then register_new (some account.account_url) else raise key_lost

unfoldable pub register_in :
    Acme → ℕ → Option String → Option String → Bool → Bool → Option String → Query Unit
unfolding register_known
register_in a now environment email agreed replace_lost_key none =
    raise (value_error "Unknown ACME environment")
register_in a now none email agreed replace_lost_key (some directory) =
    raise (value_error "Unknown ACME environment")
register_in a now (some environment) email agreed replace_lost_key (some directory) = do
  raise_if (stripped email == "") (value_error "ACME contact email is required")
  raise_if (not agreed) (value_error "Explicit Terms of Service acceptance is required")
  known ← gets (stored_account environment)
  key ← gets (stored_key environment)
  register_known a now environment (stripped email) directory replace_lost_key known key

-- `register`; the caller drops the metadata that it returns
unfoldable pub register : Acme → ℕ → Option String → Option String → Bool → Bool → Query Unit
unfolding register_in directory_of
register a now environment email agreed replace_lost_key =
    register_in a now environment email agreed replace_lost_key (directory_of environment)

unfoldable pub load_known :
    Acme → Option Account → Option EncryptedBlob → Result (Option (Account × String))
load_known a none key = ok none
load_known a (some account) none = err key_lost
load_known a (some account) (some blob) = elim (a.decrypt blob blob.purpose) [
  | err e ↦ err e
  | ok key ↦ ok (some (account, key))
]

unfoldable pub load : Acme → String → Database → Result (Option (Account × String))
unfolding load_known
load a environment db = load_known a (stored_account environment db) (stored_key environment db)
