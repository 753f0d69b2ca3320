-- ===== src/Deployment/Service.antt =====
-- `DeploymentService.deploy_certificate` of certmon/deployment.py.
use certmon.Prelude.{
  ℕ, String, true, false, not, ◌==◌, Option, none, some, List, [], ◌∷◌, if◌then◌else◌, is_none,
  strip, same_option,
}
use Prim.Native.String
use certmon.Outcome.{
  Error, Result, ok, err, file_not_found, key_error, value_error, pure, raise, raise_if, lift, gets,
  or_raise, ◌>>=◌, ◌>>◌,
}
use certmon.Permissions.{Permission, deploy_certificate, authorize}
use certmon.Models.{issued, deployment_pending, deployed, state_in, same_state}
use certmon.Db.{Job}
use certmon.Db.Jobs.{get_job, compare_and_set_job, record_event}
use certmon.Db.Certificates.{get_certificate}
use certmon.Renewals.{transition}
use certmon.Artifacts.{Store, has_certificate, read_public}
use certmon.Orchestrator.{Request, on_database}
use certmon.Deployment.{
  Device, Material, PushAttempt, Verification, Deployer, Outcome, ready_states, chosen_job,
  type_or_generic, cleared, blamed, last_line, event_details, generic_instructions,
}

module _ (current : Option (List Permission)) (d : Deployer) (now : ℕ) where
  -- `_job_for_certificate`
  unfoldable pub job_for_certificate : String → String → Request Job
  job_for_certificate job_id certificate_id = do
    job ← or_raise (← gets (λ w. get_job job_id w.database)) (key_error job_id)
    raise_if (not (same_option job.certificate_id (some certificate_id)))
        (value_error "Certificate does not belong to this renewal job")
    raise_if (not (state_in job.state ready_states))
        (value_error "Renewal job is not ready for deployment")
    pure job

  unfoldable pub finish_deployed : String → ℕ → Request (Option Job)
  finish_deployed job_id version =
      on_database (transition current now job_id deployment_pending version deployed cleared)

  -- the version of the job that a transition returned; `None` has no fields
  unfoldable pub version_of : Option Job → Request ℕ
  version_of none = raise certmon.Outcome.runtime_error
  version_of (some job) = pure job.version

  unfoldable pub mark_pending_first : String → ℕ → Request (Option Job)
  unfolding finish_deployed version_of
  mark_pending_first job_id version = do
    moved ← on_database (transition current now job_id issued version deployment_pending cleared)
    v ← version_of moved
    finish_deployed job_id v

  unfoldable pub mark_job : String → Job → Request (Option Job)
  unfolding mark_pending_first
  mark_job job_id job =
      if same_state job.state issued
      then mark_pending_first job_id job.version
      else finish_deployed job_id job.version

  -- `_mark_verified`
  unfoldable pub mark_verified : Option String → String → Request (Option Job)
  unfolding job_for_certificate mark_job
  mark_verified none certificate_id = pure none
  mark_verified (some job_id) certificate_id =
      job_for_certificate job_id certificate_id >>= mark_job job_id

  unfoldable pub blame_pending : String → ℕ → String → String → Request (Option Job)
  blame_pending job_id version code message = do
    on_database (
        compare_and_set_job now job_id deployment_pending version deployment_pending
          (blamed code message))
    gets (λ w. get_job job_id w.database)

  unfoldable pub blame_job : String → String → String → Job → Request (Option Job)
  unfolding blame_pending
  blame_job job_id code message job =
      if same_state job.state issued
      then on_database (
          transition current now job_id issued job.version deployment_pending (blamed code message))
      else blame_pending job_id job.version code message

  -- `_update_job`
  unfoldable pub update_job : Option String → String → String → String → Request (Option Job)
  unfolding job_for_certificate blame_job
  update_job none certificate_id code message = pure none
  update_job (some job_id) certificate_id code message =
      job_for_certificate job_id certificate_id >>= blame_job job_id code message

  -- `_public_artifacts`: the files that there are, with their URLs
  unfoldable pub public_artifacts :
      Store → String → List String → Result (List (String × Option String))
  public_artifacts store id [] = ok []
  public_artifacts store id (name ∷ names) =
      let rest = public_artifacts store id names in
      elim (read_public d.vault id name store) [
        | err file_not_found ↦ rest
        | err e ↦ err e
        | ok file ↦ elim rest [
          | err e ↦ err e
          | ok files ↦ ok ((name, some (d.artifact_url id name)) ∷ files)
        ]
      ]

  abbrev pub public_names : List String
  public_names = "certificate.pem" ∷ "chain.pem" ∷ "full-chain.pem" ∷ []

  -- `_attempt_deployment`
  abbrev pub attempt : Result PushAttempt → PushAttempt
  attempt (ok a) = a
  attempt (err e) = record { success = false; log = d.message e ∷ [] }

  module _ (device : Device) (certificate_id : String) (job_id : Option String)
      (adapter_name : String) (files : List (String × Option String)) where
    unfoldable pub record_outcome : Outcome → Request Outcome
    record_outcome r =
        on_database (
          record_event now "certificate_deployment"
            (event_details device certificate_id adapter_name r) job_id)
        >> pure r

    unfoldable pub failed_deployment :
        List String → Option Verification → String → String → Request Outcome
    unfolding update_job record_outcome
    failed_deployment log verification code message = do
      job ← update_job job_id certificate_id code message
      record_outcome (record {
        succeeded = false;
        log = log;
        instructions = some (generic_instructions d.port_text device);
        verification = verification;
        public_artifacts = files;
        job = job;
      })

    unfoldable pub verified_deployment : List String → Verification → Request Outcome
    unfolding mark_verified record_outcome
    verified_deployment log v = do
      job ← mark_verified job_id certificate_id
      record_outcome (record {
        succeeded = true;
        log = log;
        instructions = none;
        verification = some v;
        public_artifacts = files;
        job = job;
      })

    unfoldable pub checked_deployment : List String → Verification → Request Outcome
    unfolding verified_deployment failed_deployment
    checked_deployment log v =
        if v.status == "verified"
        then verified_deployment log v
        else failed_deployment log (some v) "deployment_verification_failed"
            (String.◌++◌ "Deployment completed but verification returned " v.status)

    unfoldable pub pushed_deployment : Material → PushAttempt → Request Outcome
    unfolding checked_deployment failed_deployment
    pushed_deployment material a =
        if a.success
        then (lift (d.verifier device material) >>= checked_deployment a.log)
        else failed_deployment a.log none "deployment_failed" (last_line a.log)

    -- a device type with no adapter is left to be done by hand
    unfoldable pub routed_deployment :
        Material → Option (Device → Material → Store → Result PushAttempt) → Request Outcome
    unfolding pushed_deployment failed_deployment
    routed_deployment material none =
        failed_deployment
          (String.◌++◌ "Device type '"
              (String.◌++◌ adapter_name "' does not support automatic push.")
            ∷ "See manual instructions below."
            ∷ [])
          none "manual_deployment_required"
          "Automatic deployment is unavailable for this device type"
    routed_deployment material (some push) =
        gets (λ w. attempt (push device material w.store)) >>= pushed_deployment material

  module _ (device : Device) (certificate_id : String) (job_id : Option String) where
    unfoldable pub deploy_to : List (String × Option String) → String → String → Request Outcome
    unfolding routed_deployment
    deploy_to files pem fingerprint =
        let name = d.lower_text (strip (type_or_generic device.device_type)) in
        routed_deployment device certificate_id job_id name files
          (record {
            certificate_id = certificate_id;
            certificate_pem = pem;
            expected_fingerprint = fingerprint;
          })
          (d.adapter name)

    unfoldable pub deploy_files : List (String × Option String) → Request Outcome
    unfolding deploy_to
    deploy_files files = do
      pem ← gets (λ w. read_public d.vault certificate_id "certificate.pem" w.store)
      pem ← lift pem
      fingerprint ← lift (d.fingerprint pem)
      deploy_to files pem fingerprint

    unfoldable pub deploy_material : Request Outcome
    unfolding public_artifacts deploy_files
    deploy_material = do
      files ← gets (λ w. public_artifacts w.store certificate_id public_names)
      files ← lift files
      deploy_files files

  -- `deploy_certificate`
  unfoldable pub deploy : Device → String → Option String → Request Outcome
  unfolding deploy_material
  deploy device certificate_id job_id = do
    lift (authorize deploy_certificate none current)
    certificate ← gets (λ w. get_certificate certificate_id w.database)
    raise_if (is_none certificate) (key_error certificate_id)
    there ← gets (λ w. has_certificate d.vault certificate_id w.store)
    there ← lift there
    raise_if (not there) (key_error certificate_id)
    job ← gets (λ w. chosen_job job_id certificate_id w.database)
    deploy_material device certificate_id job
