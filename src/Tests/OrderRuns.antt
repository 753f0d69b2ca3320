-- ===== src/Tests/OrderRuns.antt =====
-- The ACME orchestrator on a small store, with services that answer at once.
use certmon.Prelude.{
  arith, String, ◌≡◌, refl, ap, true, false, none, some, Option, List, [], ◌∷◌, All, find, count,
  bit,
}
use certmon.Outcome.{ok, err, staging_required}
use certmon.Permissions.{authorize}
use certmon.Models.{RenewalState, draft, cancelled, issuing, issued, cleanup_required}
use certmon.Db.{Job, Database, empty}
use certmon.Db.Jobs.{get_job, list_events, error_code, error_message}
use certmon.Renewals.{transition}
use certmon.Db.Jobs.Versions.{UniqueIds}
use certmon.Artifacts.{Vault}
use certmon.Orchestrator.{Challenge, World, Services, Provider}
use certmon.Orchestrator.Issuance.{complete_issued}
use certmon.Orchestrator.Flow.{lacks_proof, start_acme, retry_cleanup}
use certmon.Orchestrator.Gate.{start_acme-gate, complete_issued-proof, retry_cleanup-issued}
use certmon.Tests.Data.{job}
use certmon.Dns.Manual.{is_record, has_trimmed, present, count-present}

abbrev pub open_vault : Vault String
open_vault = record {
  encrypt = λ content purpose. content;
  decrypt = λ blob purpose. ok blob;
  serialize = λ blob. blob;
  deserialize = λ file. ok file;
  base_name = λ name. name;
  dump = λ metadata. "{}";
}

abbrev tidy : Provider
tidy = record {
  present = λ challenges. ok [];
  check_visibility = λ presented. ok [];
  cleanup = λ presented. ok (record { cleaned = 0; errors = [] });
}

abbrev pub services : Services
services = record {
  Blob = String;
  vault = open_vault;
  register = λ environment email agreed db. (ok tt, db);
  create_order = λ id csr db. (ok [], db);
  answer_challenges = λ id db. (ok tt, db);
  poll_authorizations = λ id db. (ok tt, db);
  finalize = λ id db. (ok (record { certificate_pem = "C"; chain_pem = none }), db);
  provider = λ name. some tidy;
  new_key_and_csr = λ profile identifiers. ok ("K", "R");
  validate = λ r key identifiers. ok (record {
    cryptographically_valid = true;
    errors = [];
    trust_status = "trusted";
    not_after = "2027";
  });
  new_certificate_id = λ identifiers profile. "cert";
  digest = λ identifiers. "digest";
  isoformat = λ at. "";
}

abbrev production : Job
production = record job { state = draft; environment = some "production" }

abbrev staged : Job
staged = record job { environment = some "staging" }

abbrev pub world : Job → World
world j = record { database = record empty { jobs = j ∷ [] }; store = [] }

start_acme-gate_example :
    start_acme none services 30 "j1" (some "a@example.org") true (world production)
    ≡ (err (staging_required "j1"), world production)
unfolding get_job find certmon.Db.Settings.get_setting authorize certmon.Db.Settings.lookup
start_acme-gate_example =
    start_acme-gate none services 30 "j1" (some "a@example.org") true production (world production)
      refl refl refl refl refl refl

abbrev certified : World
certified = record (world staged) {
  database = record empty {
    jobs = staged ∷ [];
    certificates = record { id = "cert"; metadata = []; created_at = 29 } ∷ [];
  };
}

abbrev completed_job : Job
completed_job = record staged {
  state = issued;
  version = 4;
  updated_at = 30;
  certificate_id = some "cert";
}

completes : (complete_issued none services 30 staged "cert" certified).0 ≡ ok (some completed_job)
unfolding complete_issued transition authorize certmon.Models.validate_transition
    certmon.Db.Jobs.transition_job certmon.Db.Jobs.has_unsupported
    certmon.Db.Jobs.conditional_update certmon.Db.Jobs.row_check certmon.Prelude.count
    certmon.Db.Jobs.breaks_reference find certmon.Db.Settings.delete_setting
    certmon.Db.Settings.put_setting get_job certmon.Prelude.update certmon.Db.Jobs.advance
completes = refl

complete_issued-proof_example :
    lacks_proof none services 30 production
      (complete_issued none services 30 staged "cert" certified).1.database
    ≡ false
complete_issued-proof_example =
    complete_issued-proof none services 30 staged production "cert" (some completed_job) certified
      completes refl refl

abbrev waiting : Job
waiting = record job { state = cleanup_required }

waiting-UniqueIds : UniqueIds (waiting ∷ [])
unfolding count
waiting-UniqueIds id = ground arith

retry_cleanup-issued_example :
    let done = record waiting { state = issued; version = 4; updated_at = 30 } in
    let (r, w') = retry_cleanup none services 30 "j1" (world waiting) in
    (r ≡ ok (some done)) × (get_job "j1" w'.database ≡ some done)
unfolding get_job find certmon.Db.Settings.get_setting certmon.Db.Settings.lookup authorize
retry_cleanup-issued_example =
    retry_cleanup-issued none services 30 "j1" waiting tidy (world waiting) waiting-UniqueIds refl
      refl refl refl refl (λ rs. (record { cleaned = 0; errors = [] }, (refl, refl))) refl

abbrev twice : List Challenge
twice =
    record { fqdn = "_acme-challenge.a.b."; value = "v" }
    ∷ record { fqdn = "_acme-challenge.a.b"; value = "v" }
    ∷ []

count-present_example :
    count (is_record "_acme-challenge.a.b" "v") (present 100 600 twice)
    ≡ bit (has_trimmed "_acme-challenge.a.b" "v" twice)
count-present_example = count-present 100 600 "_acme-challenge.a.b" "v" twice
