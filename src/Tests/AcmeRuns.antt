-- ===== src/Tests/AcmeRuns.antt =====
-- ACME accounts and orders with a client that answers at once.
use certmon.Prelude.{
  zero, suc, ℕ, ◌+◌, String, ◌≡◌, ◌≤◌, ◌<◌, refl, true, false, none, some, Option, List, [], ◌∷◌,
  All, find, length,
}
use certmon.Outcome.{ok, err, invalid_transition}
use certmon.Permissions.{authorize}
use certmon.Db.{Job, Order, Account, Database, EncryptedBlob, acme_account, acme_order, empty}
use certmon.Acme.{microseconds, Acme, Attempt, OrderClient, StatusAnswer, Registration}
use certmon.Acme.Accounts.{register, load, new_account, stripped}
use certmon.Acme.Orders.{poll_all}
use certmon.Acme.Polling.{Ends, Answered, poll_all_bounds, poll_all-Answered}
use certmon.Acme.Registered.{load-register}
use certmon.Acme.Recovery.{reconcile_with, recover_jobs-issuing}
use certmon.Renewals.{recover_jobs}
use certmon.Tests.Data.{job}

-- an answer "valid", but for the first attempt
abbrev status_of : String → StatusAnswer
status_of status = record { status = some status; retry_after = none; problem = none }

abbrev client : OrderClient
client = record {
  create_order =
      λ identifiers csr. ok (record { order_url = "o"; status = none; authorizations = [] });
  poll = λ url i. record {
    checked = i;
    answer = ok (status_of (elim i [ zero ↦ "pending" | suc _ ↦ "valid" ]));
    parsed = i;
    delayed = i;
  };
  answer_dns_challenge = λ url. ok tt;
  finalize_order = λ url csr.
      ok (record { answer = status_of "valid"; certificate_pem = "C"; chain_pem = none });
  get_order = λ url. ok (status_of "processing");
}

abbrev pub acme : Acme
acme = record {
  encrypt = λ content purpose. record {
    key_id = "k";
    nonce = "";
    ciphertext = content;
    purpose = purpose;
  };
  decrypt = λ blob purpose. ok blob.ciphertext;
  register =
      λ directory key email. ok (record { account_url = "acct"; terms_of_service_url = none });
  order_client = λ account key. client;
  new_key = "K";
  int_of = λ value. none;
  after_seconds = λ now seconds. ok (now + microseconds seconds);
  date_of = λ value. ok 0;
  isoformat = λ at. "";
}

poll_all_bounds_example :
    Ends acme client 10 300 100000000 2 20 20
      (poll_all acme client 10 300 100000000 ("a" ∷ "b" ∷ []) 0 [])
poll_all_bounds_example = poll_all_bounds acme client 10 300 100000000 ("a" ∷ "b" ∷ [])

polled : (poll_all acme client 10 300 100000000 ("a" ∷ "b" ∷ []) 0 []).0 ≡ ok 3
unfolding poll_all certmon.Acme.parse_retry_after
polled = refl

poll_all-Answered_example : Answered acme client 10 300 100000000 0 ("a" ∷ "b" ∷ []) 3
poll_all-Answered_example = poll_all-Answered acme client 10 300 100000000 ("a" ∷ "b" ∷ []) 3 polled

abbrev account : Account
account = record {
  environment = "staging";
  directory_url = "https://acme-staging-v02.api.letsencrypt.org/directory";
  email = "a@example.org";
  account_url = "acct";
  terms_of_service_url = none;
  registered_at = 1;
  replaced_account_url = none;
}

abbrev keyless : Database
keyless = record empty { settings = ("acme-account:staging", acme_account account) ∷ [] }

abbrev registration : Registration
registration = record { account_url = "acct"; terms_of_service_url = none }

load-register_example :
    ((register acme 2 (some "staging") (some " a@example.org ") true false empty).0 ≡ ok tt)
    × (load acme "staging"
          (register acme 2 (some "staging") (some " a@example.org ") true false empty).1
        ≡ ok (
            some (
              new_account acme 2 "staging"
                  (stripped (some " a@example.org "))
                  "https://acme-staging-v02.api.letsencrypt.org/directory"
                  none
                  registration,
              "K",
            )))
unfolding certmon.Db.Settings.get_setting certmon.Db.Settings.lookup
    certmon.Acme.Accounts.directory_of certmon.Prelude.strip
load-register_example =
    load-register acme 2 "staging" "https://acme-staging-v02.api.letsencrypt.org/directory"
      (some " a@example.org ") empty refl refl registration refl (λ content purpose. refl) refl

abbrev order : Order
order = record {
  job_id = "j1";
  environment = "staging";
  order_url = "o";
  status = "ready";
  authorization_urls = [];
  dns_challenges = [];
  csr_pem = "R";
  created_at = 1;
}

abbrev ordered : Database
ordered = record empty {
  jobs = job ∷ [];
  settings =
      ("acme-account:staging", acme_account account) ∷ ("acme-order:j1", acme_order order) ∷ [];
  secrets =
      record {
        id = "acme-account-key:staging";
        blob = record {
          key_id = "k";
          nonce = "";
          ciphertext = "K";
          purpose = "acme-account-key:staging";
        };
        metadata = [];
        created_at = 1;
        updated_at = 1;
      }
      ∷ [];
}

recover_jobs-issuing_example :
    recover_jobs none 30 (reconcile_with acme 30) (job ∷ []) ordered
    ≡ (err invalid_transition, ordered)
unfolding certmon.Db.Settings.get_setting certmon.Db.Settings.lookup certmon.Db.Secrets.get_secret
    find load authorize
recover_jobs-issuing_example =
    recover_jobs-issuing none acme 30 job [] ordered refl refl refl order account "K"
      (status_of "processing") refl refl refl refl
