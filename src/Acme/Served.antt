-- ===== src/Acme/Served.antt =====
-- The account and order services of certmon/acme_service.py as the orchestrator uses them.
use certmon.Prelude.{
  ◌+◌, inl, inr, Option-cases, same_option, ℕ, String, Bool, true, false, not, Option, none, some,
  List, [], ◌∷◌, ◌==◌,
}
use certmon.Outcome.{key_error, ◌>>=◌, ◌>>◌, pure}
use certmon.Outcome.Rules.{lift_rule, or_raise_rule, bind_rule, raise_if_rule}
use certmon.Db.{
  Job, Setting, Secret, OrderChallenge, Order, Account, EncryptedBlob, Details, Database, Query,
}
use certmon.Db.Jobs.{get_job}
use certmon.Db.Settings.{Settings, get_setting, put_setting}
use certmon.Db.Secrets.{put_secret}
use certmon.Acme.{Acme, OrderClient, FinalAnswer, Registration, microseconds}
use certmon.Acme.Accounts.{
  register, register_in, register_known, register_new, keep_account, load, stripped,
}
use certmon.Acme.Orders.{
  acme_job, load_client, client_of, stored_order, create_order, keep_order, poll_authorizations,
  answer_challenges, finalize, order_key, order_of, no_environment, order_challenges, create_with,
  poll_all,
}
use certmon.Orchestrator.{Challenge, Issued, Services}
use certmon.Orchestrator.Rules.{Kept}

abbrev pub to_present : List OrderChallenge → List Challenge
to_present [] = []
to_present (c ∷ cs) = record { fqdn = c.fqdn; value = c.value } ∷ to_present cs

abbrev pub to_issued : FinalAnswer → Issued
to_issued r = record { certificate_pem = r.certificate_pem; chain_pem = r.chain_pem }

-- the attempts and the seconds that `poll_authorizations` takes by default
abbrev pub poll_attempts : ℕ
poll_attempts = 10

abbrev pub poll_seconds : ℕ
poll_seconds = 300

-- the services of a request at the time `now`, with the account and order services of this module
abbrev pub with_acme : Acme → ℕ → Services → Services
with_acme a now s = record s {
  register = λ environment email agreed. register a now environment email agreed false;
  create_order = λ id csr. (create_order a now id csr >>= λ cs. pure (to_present cs));
  answer_challenges = answer_challenges a now;
  poll_authorizations =
      λ id. poll_authorizations a now poll_attempts poll_seconds id >>= λ n. pure tt;
  finalize = λ id. (finalize a now id >>= λ r. pure (to_issued r));
}

-- a property that the settings and the secrets do not matter to
pub record IsApart (P : Database → Type 0) : Type 0 where
  pub settings : (m : Settings) (db : Database) → P db → P (record db { settings = m })
  pub secrets : (m : List Secret) (db : Database) → P db → P (record db { secrets = m })

module _ (P : Database → Type 0) (apart : IsApart P) (a : Acme) (now : ℕ) where
  keeps_setting : (k : String) (v : Setting) (db : Database) → P db → P (put_setting k v db).1
  unfolding put_setting
  keeps_setting k v db h = apart.settings _ db h

  keeps_secret :
      (id : String) (b : EncryptedBlob) (m : Details) (db : Database)
      → P db
      → P (put_secret now id b m db).1
  unfolding put_secret
  keeps_secret id b m db h = apart.secrets _ db h

  keeps_account :
      (environment email directory : String) (replaced : Option String) (r : Registration)
      (db : Database)
      → P db
      → P (keep_account a now environment email directory replaced r db).1
  unfolding keep_account
  keeps_account environment email directory replaced r db h =
      bind_rule P (put_secret now _ _ _ db) _ (keeps_secret _ _ _ db h)
        λ _ _ k. keeps_setting _ _ _ k

  keeps_new :
      (environment email directory : String) (replaced : Option String) (db : Database)
      → P db
      → P (register_new a now environment email directory replaced db).1
  unfolding register_new
  keeps_new environment email directory replaced db h =
      lift_rule P db (a.register directory a.new_key email) _ h
        λ r _. keeps_account environment email directory replaced r db h

  keeps_known :
      (environment email directory : String) (replace : Bool) (account : Option Account)
      (key : Option EncryptedBlob) (db : Database)
      → P db
      → P (register_known a now environment email directory replace account key db).1
  unfolding register_known
  keeps_known environment email directory replace none key db h =
      keeps_new environment email directory none db h
  keeps_known environment email directory replace (some account) (some key) db h = h
  keeps_known environment email directory true (some account) none db h =
      keeps_new environment email directory (some account.account_url) db h
  keeps_known environment email directory false (some account) none db h = h

  keeps_register_in :
      (environment email : Option String) (agreed replace : Bool) (directory : Option String)
      (db : Database)
      → P db
      → P (register_in a now environment email agreed replace directory db).1
  unfolding register_in
  keeps_register_in environment email agreed replace none db h = h
  keeps_register_in none email agreed replace (some directory) db h = h
  keeps_register_in (some environment) email agreed replace (some directory) db h =
      raise_if_rule P db (stripped email == "") _ _ h λ _.
        raise_if_rule P db (not agreed) _ _ h
          λ _. keeps_known environment (stripped email) directory replace _ _ db h

  keeps_client_of :
      (o : Option (Account × String)) (db : Database) → P db → P (client_of a now o db).1
  unfolding client_of
  keeps_client_of none db h = h
  keeps_client_of (some (account, key)) db h = h

  keeps_load_client :
      (environment : String) (db : Database) → P db → P (load_client a now environment db).1
  unfolding load_client
  keeps_load_client environment db h =
      lift_rule P db (load a environment db) (client_of a now) h λ o _. keeps_client_of o db h

  keeps_stored_order : (id : String) (db : Database) → P db → P (stored_order a now id db).1
  unfolding stored_order
  keeps_stored_order id db h = elim (Option-cases (order_of (get_setting (order_key id) db))) [
    | inl e ↦ rw e h
    | inr (o, e) ↦ rw e h
  ]

  keeps_acme_job : (id : String) (db : Database) → P db → P (acme_job a now id db).1
  unfolding acme_job
  keeps_acme_job id db h = or_raise_rule P db (get_job id db) (key_error id) _ h λ job _.
      raise_if_rule P db (not (job.issuer_type == "acme")) _ _ h
        λ _. raise_if_rule P db (no_environment job.environment) _ _ h λ _. h

  -- the calls that read an order and its client first
  keeps_with_client :
      {B : Type 0} (id : String) (f : Order → OrderClient → Query B) (db : Database)
      → P db
      → ((o : Order) (c : OrderClient) (db : Database) → P db → P (f o c db).1)
      → P ((stored_order a now id >>= λ o. load_client a now o.environment >>= f o) db).1
  keeps_with_client id f db h next =
      bind_rule P (stored_order a now id db) (λ o. load_client a now o.environment >>= f o)
        (keeps_stored_order id db h)
        λ o _ k.
          bind_rule P (load_client a now o.environment (stored_order a now id db).1) (f o)
            (keeps_load_client o.environment (stored_order a now id db).1 k)
            λ c _ k. next o c (load_client a now o.environment (stored_order a now id db).1).1 k

  pub keeps_register :
      (environment email : Option String) (agreed : Bool) (db : Database)
      → P db
      → P (register a now environment email agreed false db).1
  unfolding register
  keeps_register environment email agreed db h =
      keeps_register_in environment email agreed false _ db h

  keeps_order :
      (k : String) (v : Setting) {B : Type 0} (x : B) (db : Database)
      → P db
      → P ((put_setting k v >> pure x) db).1
  keeps_order k v x db h = bind_rule P (put_setting k v db) _ (keeps_setting k v db h) λ _ _ k. k

  keeps_answer_challenges :
      (id : String) (db : Database) → P db → P (answer_challenges a now id db).1
  unfolding answer_challenges
  keeps_answer_challenges id db h = keeps_with_client id _ db h λ o c db k. k

  keeps_poll :
      (n d : ℕ) (id : String) (db : Database) → P db → P (poll_authorizations a now n d id db).1
  unfolding poll_authorizations
  keeps_poll n d id db h = keeps_with_client id _ db h λ o c db k.
      lift_rule P db (poll_all a c n d (now + microseconds d) o.authorization_urls 0 []).0 _ k
        λ total _. keeps_order _ _ total db k

  keeps_finalize : (id : String) (db : Database) → P db → P (finalize a now id db).1
  unfolding finalize
  keeps_finalize id db h = keeps_with_client id _ db h λ o c db k.
      lift_rule P db (c.finalize_order o.order_url o.csr_pem) _ k λ r _.
        raise_if_rule P db (same_option r.answer.status (some "invalid")) _ _ k
          λ _. keeps_order _ _ r db k

  keeps_created :
      (id csr environment : String) (job : Job) (c : OrderClient) (db : Database)
      → P db
      → P (create_with a now id csr job environment c db).1
  unfolding create_with keep_order
  keeps_created id csr environment job c db h =
      lift_rule P db (c.create_order job.identifiers csr) _ h λ o _.
        lift_rule P db (order_challenges o.authorizations) _ h λ cs _. keeps_order _ _ cs db h

  keeps_create_order : (id csr : String) (db : Database) → P db → P (create_order a now id csr db).1
  unfolding create_order
  keeps_create_order id csr db h =
      bind_rule P (acme_job a now id db) _ (keeps_acme_job id db h) λ (job, environment) _ k.
        bind_rule P (load_client a now environment (acme_job a now id db).1) _
          (keeps_load_client environment (acme_job a now id db).1 k)
          λ c _ k. keeps_created id csr environment job c _ k

  -- The services of certmon/acme_service.py keep what the settings and the secrets do not matter to.
  pub with_acme-Kept : (s : Services) → Kept P (with_acme a now s)
  with_acme-Kept s = record {
    register = keeps_register;
    create_order = λ id csr db h.
        bind_rule P (create_order a now id csr db) _ (keeps_create_order id csr db h) λ _ _ k. k;
    answer_challenges = keeps_answer_challenges;
    poll_authorizations = λ id db h.
        bind_rule P (poll_authorizations a now poll_attempts poll_seconds id db) _
          (keeps_poll poll_attempts poll_seconds id db h) λ _ _ k. k;
    finalize = λ id db h. bind_rule P (finalize a now id db) _ (keeps_finalize id db h) λ _ _ k. k;
  }
