-- ===== src/Deployment/Rules.antt =====
-- What `deploy_certificate` (certmon/deployment.py) does to the database, from what its calls do.
use certmon.Prelude.{
  strip, ℕ, String, not, ◌≡◌, refl, ◌==◌, eq_iff, Option, none, some, List, is_none, same_option,
  Bool-cases, inl, inr,
}
use certmon.Outcome.{lift, Result, ok, err, key_error, ◌>>=◌}
use certmon.Permissions.{Permission, deploy_certificate, authorize}
use certmon.Models.{RenewalState, issued, deployment_pending, deployed, same_state, state_in}
use certmon.Db.{Job, Details, Database}
use certmon.Db.Jobs.{Updates, get_job, compare_and_set_job, record_event}
use certmon.Db.Certificates.{get_certificate}
use certmon.Renewals.{transition}
use certmon.Artifacts.{Store, has_certificate, read_public}
use certmon.Orchestrator.{Request}
use certmon.Orchestrator.Rules.{
  Keeps, keeps_bind, keeps_call, keeps_or_raise, keeps_lift, keeps_raise_if,
}
use certmon.Deployment.{
  Device, Material, PushAttempt, Verification, Deployer, Outcome, ready_states, cleared, blamed,
  type_or_generic, event_details, chosen_job,
}
use certmon.Deployment.Service.{
  job_for_certificate, finish_deployed, version_of, mark_pending_first, mark_job, mark_verified,
  blame_pending, blame_job, update_job, public_artifacts, public_names, attempt, record_outcome,
  failed_deployment, verified_deployment, checked_deployment, pushed_deployment, routed_deployment,
  deploy_to, deploy_files, deploy_material, deploy,
}

-- the verifier has answered "verified" for the device
abbrev pub Verifies : Deployer → Device → Type 0
Verifies d device =
    (material : Material) × ((v : Verification) × ((d.verifier device material ≡ ok v)
        × (v.status ≡ "verified")))

module _ (P : Database → Type 0) (current : Option (List Permission)) (d : Deployer) (now : ℕ)
    (device : Device)
    (pend : (id : String) (from : RenewalState) (v : ℕ) (us : Updates) (db : Database)
      → P db
      → P (transition current now id from v deployment_pending us db).1)
    (again : (id : String) (v : ℕ) (us : Updates) (db : Database)
      → P db
      → P (compare_and_set_job now id deployment_pending v deployment_pending us db).1)
    (noted : (kind : String) (details : Details) (id : Option String) (db : Database)
      → P db
      → P (record_event now kind details id db).1)
    (finish : Verifies d device
      → (id : String) (v : ℕ) (db : Database) → P db
      → P (transition current now id deployment_pending v deployed cleared db).1) where
  keeps_job_for :
      {A : Type 0} (id certificate : String) (f : Job → Request A)
      → ((job : Job) → Keeps P (f job))
      → Keeps P (job_for_certificate current d now id certificate >>= f)
  unfolding job_for_certificate
  keeps_job_for id certificate f next =
      keeps_bind P (job_for_certificate current d now id certificate) f
        (λ w h.
          keeps_or_raise P (get_job id w.database) (key_error id) _
            (λ job.
              keeps_raise_if P (not (same_option job.certificate_id (some certificate))) _ _
                (keeps_raise_if P (not (state_in job.state ready_states)) _ _ λ w h. h))
            w h)
        next

  keeps_version_of :
      (o : Option Job) (f : ℕ → Request (Option Job))
      → ((v : ℕ) → Keeps P (f v))
      → Keeps P (version_of current d now o >>= f)
  unfolding version_of
  keeps_version_of none f next w h = h
  keeps_version_of (some job) f next w h = next job.version w h

  keeps_blame_job :
      (id code message : String) (job : Job) → Keeps P (blame_job current d now id code message job)
  unfolding blame_job blame_pending
  keeps_blame_job id code message job = elim (Bool-cases (same_state job.state issued)) [
    | inl e ↦ λ w h. rw e (pend id issued job.version (blamed code message) w.database h)
    | inr e ↦ λ w h. rw e (
        keeps_call P
          (compare_and_set_job now id deployment_pending job.version deployment_pending
            (blamed code message))
          _ (again id job.version (blamed code message)) (λ _ w h. h) w h)
  ]

  keeps_update_job :
      (id : Option String) (certificate code message : String)
      → Keeps P (update_job current d now id certificate code message)
  unfolding update_job
  keeps_update_job none certificate code message = λ w h. h
  keeps_update_job (some id) certificate code message =
      keeps_job_for id certificate (blame_job current d now id code message)
        (keeps_blame_job id code message)

  module _ (verified : Verifies d device) where
    keeps_mark_job : (id : String) (job : Job) → Keeps P (mark_job current d now id job)
    unfolding mark_job mark_pending_first finish_deployed
    keeps_mark_job id job = elim (Bool-cases (same_state job.state issued)) [
      | inl e ↦ λ w h. rw e (
          keeps_call P (transition current now id issued job.version deployment_pending cleared) _
            (pend id issued job.version cleared)
            (λ moved. keeps_version_of moved _ λ v w h. finish verified id v w.database h) w h)
      | inr e ↦ λ w h. rw e (finish verified id job.version w.database h)
    ]

    keeps_mark_verified :
        (id : Option String) (certificate : String)
        → Keeps P (mark_verified current d now id certificate)
    unfolding mark_verified
    keeps_mark_verified none certificate = λ w h. h
    keeps_mark_verified (some id) certificate =
        keeps_job_for id certificate (mark_job current d now id) (keeps_mark_job id)

  module _ (certificate : String) (id : Option String) (name : String)
      (files : List (String × Option String)) where
    keeps_record_outcome :
        (r : Outcome) → Keeps P (record_outcome current d now device certificate id name files r)
    unfolding record_outcome
    keeps_record_outcome r =
        keeps_call P
          (record_event now "certificate_deployment" (event_details device certificate name r) id) _
          (noted "certificate_deployment" (event_details device certificate name r) id) λ _ w h. h

    keeps_failed :
        (log : List String) (v : Option Verification) (code message : String)
        → Keeps P
            (failed_deployment current d now device certificate id name files log v code message)
    unfolding failed_deployment
    keeps_failed log v code message =
        keeps_bind P (update_job current d now id certificate code message) _
          (keeps_update_job id certificate code message) λ job. keeps_record_outcome _

    keeps_checked :
        (material : Material) (log : List String) (v : Verification)
        → d.verifier device material ≡ ok v
        → Keeps P (checked_deployment current d now device certificate id name files log v)
    unfolding checked_deployment verified_deployment
    keeps_checked material log v answered = elim (Bool-cases (v.status == "verified")) [
      | inl e ↦ λ w h. rw e (
          keeps_bind P (mark_verified current d now id certificate) _
            (keeps_mark_verified (material, (v, (answered, (eq_iff v.status "verified").0 e))) id
              certificate)
            (λ job. keeps_record_outcome _) w h)
      | inr e ↦ λ w h. rw e (keeps_failed log (some v) _ _ w h)
    ]

    keeps_verified_answer :
        (material : Material) (log : List String) (r : Result Verification)
        → d.verifier device material ≡ r
        → Keeps P (lift r >>= checked_deployment current d now device certificate id name files log)
    keeps_verified_answer material log (err e) answered = λ w h. h
    keeps_verified_answer material log (ok v) answered = keeps_checked material log v answered

    keeps_pushed :
        (material : Material) (a : PushAttempt)
        → Keeps P (pushed_deployment current d now device certificate id name files material a)
    unfolding pushed_deployment
    keeps_pushed material a = elim (Bool-cases a.success) [
      | inl e ↦
          λ w h. rw e (keeps_verified_answer material a.log (d.verifier device material) refl w h)
      | inr e ↦ λ w h. rw e (keeps_failed a.log none _ _ w h)
    ]

    keeps_routed :
        (material : Material) (push : Option (Device → Material → Store → Result PushAttempt))
        → Keeps P (routed_deployment current d now device certificate id name files material push)
    unfolding routed_deployment
    keeps_routed material none = keeps_failed _ none _ _
    keeps_routed material (some push) =
        λ w h. keeps_pushed material (attempt current d now (push device material w.store)) w h

  module _ (certificate : String) (id : Option String) where
    keeps_deploy_to :
        (files : List (String × Option String)) (pem f : String)
        → Keeps P (deploy_to current d now device certificate id files pem f)
    unfolding deploy_to
    keeps_deploy_to files pem f =
        let name = d.lower_text (strip (type_or_generic device.device_type)) in
        keeps_routed certificate id name files _ (d.adapter name)

    keeps_deploy_files :
        (files : List (String × Option String))
        → Keeps P (deploy_files current d now device certificate id files)
    unfolding deploy_files
    keeps_deploy_files files w h =
        keeps_lift P (read_public d.vault certificate "certificate.pem" w.store)
          (λ pem.
            lift (d.fingerprint pem) >>= deploy_to current d now device certificate id files pem)
          (λ pem.
            keeps_lift P (d.fingerprint pem)
              (deploy_to current d now device certificate id files pem) (keeps_deploy_to files pem))
          w h

    keeps_deploy_material : Keeps P (deploy_material current d now device certificate id)
    unfolding deploy_material
    keeps_deploy_material w h =
        keeps_lift P
          (public_artifacts current d now w.store certificate (public_names current d now))
          (deploy_files current d now device certificate id) keeps_deploy_files w h

  pub keeps_deploy :
      (certificate : String) (id : Option String)
      → Keeps P (deploy current d now device certificate id)
  unfolding deploy
  keeps_deploy certificate id = keeps_lift P (authorize deploy_certificate none current) _ λ _ w h.
      keeps_raise_if P (is_none (get_certificate certificate w.database)) _ _
        (λ w h.
          keeps_lift P (has_certificate d.vault certificate w.store) _
            (λ there.
              keeps_raise_if P (not there) _ _
                λ w h. keeps_deploy_material certificate (chosen_job id certificate w.database) w h)
            w h)
        w h
