-- ===== src/Tests/DeployRuns.antt =====
-- A job that is deployed, and one that a device does not confirm.
use certmon.Prelude.{
  zero, suc, ℕ, String, ◌≡◌, ◌≢◌, refl, true, false, none, some, Option, List, [], ◌∷◌, find,
}
use certmon.Outcome.{Result, ok, err}
use certmon.Permissions.{authorize}
use certmon.Models.{RenewalState, draft, cancelled, issued, deployment_pending, deployed}
use certmon.Db.{Job, Database, empty}
use certmon.Db.Jobs.{get_job, list_events}
use certmon.Artifacts.{read_public}
use certmon.Renewals.History.{replay}
use certmon.Orchestrator.Served.{perform}
use certmon.Acme.Replays.{through_acme}
use certmon.Db.{state_changed}
use certmon.Renewals.History.Service.{remove}
use certmon.Orchestrator.{World}
use certmon.Orchestrator.Served.{service, stop}
use certmon.Deployment.{Device, Material, Verification, Deployer, Outcome, verify_device}
use certmon.Deployment.Service.{deploy}
use certmon.Deployment.Results.{deploy-unverified}
use certmon.Deployment.Replays.{
  Step, call, deployment, run_steps, run_steps-replays, run_steps-orphans,
}
use certmon.Deployment.Success.{IsVerified, deploy-IsVerified, deploy-shows}
use certmon.Tests.Data.{job}
use certmon.Tests.HistoryRuns.{opened, draft_job, opened_store, draft_store}
use certmon.Tests.OrderRuns.{open_vault, services}
use certmon.Tests.AcmeRuns.{acme}

abbrev fingerprint_of : String → Result String
fingerprint_of pem = ok pem

-- the device shows `observed`
abbrev deployer : Option String → Deployer
deployer observed = record {
  Blob = String;
  vault = open_vault;
  adapter =
      λ name. some (λ device material store. ok (record { success = true; log = "pushed" ∷ [] }));
  verifier = λ device material. ok (verify_device observed material);
  fingerprint = fingerprint_of;
  artifact_url = λ id name. name;
  message = λ e. "";
  port_text = λ n. "443";
  lower_text = λ name. name;
}

abbrev device : Device
device = record {
  id = some "d1";
  host = some "10.0.0.7";
  port = some 443;
  device_type = some "extron";
  https = true;
}

abbrev finished : Job
finished = record job { state = issued; certificate_id = some "cert" }

abbrev world : World
world = record {
  database = record empty {
    jobs = finished ∷ [];
    certificates = record { id = "cert"; metadata = []; created_at = 29 } ∷ [];
  };
  store = record { id = "cert"; files = ("certificate.pem", "PEM") ∷ [] } ∷ [];
}

abbrev deployed_job : Job
deployed_job = record finished { state = deployed; version = 5; updated_at = 40 }

abbrev success : Outcome
success = record {
  succeeded = true;
  log = "pushed" ∷ [];
  instructions = none;
  verification = some (record {
    status = "verified";
    expected_fingerprint = "PEM";
    observed_fingerprint = some "PEM";
  });
  public_artifacts = ("certificate.pem", some "certificate.pem") ∷ [];
  job = some deployed_job;
}

succeeds : (deploy none (deployer (some "PEM")) 40 device "cert" (some "j1") world).0 ≡ ok success
unfolding deploy authorize certmon.Db.Certificates.get_certificate find
    certmon.Artifacts.has_certificate read_public verify_device get_job certmon.Renewals.transition
    certmon.Models.validate_transition certmon.Db.Jobs.transition_job
    certmon.Db.Jobs.has_unsupported certmon.Db.Jobs.conditional_update certmon.Db.Jobs.row_check
    certmon.Prelude.count certmon.Db.Jobs.breaks_reference certmon.Prelude.update
    certmon.Artifacts.read_file certmon.Db.Jobs.advance certmon.Db.Jobs.append_event
    certmon.Db.Jobs.assign certmon.Db.Jobs.assign_all certmon.Db.Jobs.compare_and_set_job
    certmon.Db.Jobs.list_jobs certmon.Db.Jobs.listed_before certmon.Db.Jobs.record_event
    certmon.Models.allowed_transitions certmon.Outcome.transaction certmon.Permissions.effective
    certmon.Permissions.granted_in certmon.Prelude.insert_ordered certmon.Prelude.order_by
    certmon.Prelude.select certmon.Prelude.codes certmon.Prelude.ends_with
    certmon.Prelude.prefix_codes certmon.Prelude.strip
succeeds = refl

deploy-IsVerified_example : IsVerified (deployer (some "PEM")) device world.store "cert" success
deploy-IsVerified_example =
    deploy-IsVerified none (deployer (some "PEM")) 40 device "cert" (some "j1") world success
      succeeds refl

deploy-shows_example :
    (pem : String) × ((f : String) × ((read_public open_vault "cert" "certificate.pem" world.store
          ≡ ok pem)
        × (fingerprint_of pem ≡ ok f)
        × (some "PEM" ≡ some f)))
deploy-shows_example =
    deploy-shows none (deployer (some "PEM")) 40 device (some "PEM") "cert" (some "j1") world
      success (λ m. refl) succeeds refl

-- a job that is deployed already, beside the one that is ready
abbrev earlier : Job
earlier = record job { id = "j0"; state = deployed; certificate_id = some "cert" }

abbrev mixed : World
mixed = record world { database = record world.database { jobs = earlier ∷ finished ∷ [] } }

unconfirmed :
    (m : Material) (v : Verification)
    → (deployer none).verifier device m ≡ ok v
    → v.status ≢ "verified"
unfolding verify_device
unconfirmed m v e verified = cc

still_there :
    get_job "j0" (deploy none (deployer none) 40 device "cert" (some "j1") mixed).1.database
    ≡ some earlier
unfolding deploy authorize certmon.Db.Certificates.get_certificate find
    certmon.Artifacts.has_certificate read_public verify_device get_job certmon.Renewals.transition
    certmon.Models.validate_transition certmon.Db.Jobs.transition_job
    certmon.Db.Jobs.has_unsupported certmon.Db.Jobs.conditional_update certmon.Db.Jobs.row_check
    certmon.Prelude.count certmon.Db.Jobs.breaks_reference certmon.Prelude.update
    certmon.Artifacts.read_file certmon.Db.Jobs.advance certmon.Db.Jobs.append_event
    certmon.Db.Jobs.assign certmon.Db.Jobs.assign_all certmon.Db.Jobs.compare_and_set_job
    certmon.Db.Jobs.list_jobs certmon.Db.Jobs.listed_before certmon.Db.Jobs.record_event
    certmon.Models.allowed_transitions certmon.Outcome.transaction certmon.Permissions.effective
    certmon.Permissions.granted_in certmon.Prelude.insert_ordered certmon.Prelude.order_by
    certmon.Prelude.select certmon.Prelude.codes certmon.Prelude.ends_with
    certmon.Prelude.prefix_codes certmon.Prelude.strip
still_there = refl

deploy-unverified_example : get_job "j0" mixed.database ≡ some earlier
deploy-unverified_example =
    deploy-unverified none (deployer none) 40 device "cert" (some "j1") mixed "j0" earlier
      unconfirmed still_there refl

abbrev steps : List Step
steps =
    call acme (service opened)
    ∷ call acme (stop none services 3 "j1")
    ∷ deployment none (deployer (some "PEM")) 4 device "cert" (some "j1")
    ∷ []

abbrev cancelled_job : Job
cancelled_job = record draft_job { state = cancelled; version = 1; updated_at = 3 }

abbrev beginning : World
beginning = record { database = empty; store = [] }

stopped : get_job "j1" (run_steps steps beginning).database ≡ some cancelled_job
unfolding run_steps get_job find certmon.Orchestrator.Flow.cancel_acme
    certmon.Db.Settings.get_setting certmon.Db.Settings.lookup certmon.Renewals.cancel authorize
    certmon.Models.validate_transition certmon.Db.Jobs.transition_job
    certmon.Db.Jobs.has_unsupported certmon.Db.Jobs.conditional_update certmon.Db.Jobs.row_check
    certmon.Prelude.count certmon.Db.Jobs.breaks_reference certmon.Prelude.update
    certmon.Db.Jobs.advance deploy certmon.Db.Certificates.get_certificate
    certmon.Deployment.Replays.take_step certmon.Orchestrator.Served.perform
    certmon.Acme.Replays.through_acme
stopped = rw opened_store refl

run_steps-replays_example :
    replay draft (list_events "j1" (run_steps steps beginning).database) ≡ some cancelled
run_steps-replays_example = run_steps-replays steps [] "j1" cancelled_job stopped

-- the job is cancelled, its events are logged, and then it is removed
abbrev removal : List Step
removal =
    call acme (service opened)
    ∷ call acme (stop none services 3 "j1")
    ∷ call acme (service (remove none "j1"))
    ∷ []

abbrev cancelled_world : World
cancelled_world = record {
  database = record empty {
    jobs = cancelled_job ∷ [];
    events =
        record { job_id = some "j1"; body = state_changed draft cancelled; created_at = 3 } ∷ [];
  };
  store = [];
}

stop_step :
    perform
      (through_acme acme (stop none services 3 "j1"))
      (record { database = draft_store; store = [] })
    ≡ cancelled_world
unfolding perform through_acme get_job find certmon.Orchestrator.Flow.cancel_acme
    certmon.Db.Settings.get_setting certmon.Db.Settings.lookup certmon.Renewals.cancel authorize
    certmon.Models.validate_transition certmon.Db.Jobs.transition_job
    certmon.Db.Jobs.has_unsupported certmon.Db.Jobs.conditional_update certmon.Db.Jobs.row_check
    certmon.Prelude.count certmon.Db.Jobs.breaks_reference certmon.Prelude.update
    certmon.Db.Jobs.advance
stop_step = refl

removed : get_job "j1" (run_steps removal beginning).database ≡ none
unfolding run_steps get_job find certmon.Renewals.delete_terminal_job authorize
    certmon.Db.Jobs.delete_job certmon.Prelude.delete certmon.Prelude.count
removed = rw (opened_store, stop_step) refl

run_steps-orphans_example : list_events "j1" (run_steps removal beginning).database ≡ []
run_steps-orphans_example = run_steps-orphans removal [] "j1" removed
