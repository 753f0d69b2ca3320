-- ===== src/Deployment/Results.antt =====
-- What a deployment leaves in the table of jobs.
use certmon.Prelude.{
  ℕ, String, ◌≡◌, ◌≢◌, refl, ap, Option, none, some, List, ◌==◌, arith, if◌then◌else◌, find,
  is_none, Bool-cases, Option-cases, inl, inr, find-update,
}
use mathlib.Core.Option
use certmon.Outcome.{Result, ok, err, transaction}
use certmon.Outcome.Rules.{lift_rule, raise_if_rule, settle_rule}
use certmon.Permissions.{Permission, issue_certificate, authorize}
use certmon.Models.{RenewalState, deployment_pending, deployed, validate_transition}
use certmon.Db.{Job, Details, Database}
use certmon.Db.Jobs.{
  has_id, at_version, get_job, Updates, has_unsupported, advance, append_event, conditional_update,
  compare_and_set_job, record_event, transition_job,
}
use certmon.Db.Jobs.Versions.{
  id-advance, updated, conditional_update-ok, transition_job-ok, transition_job_atomic,
}
use certmon.Renewals.{transition}
use certmon.Orchestrator.{World}
use certmon.Deployment.{Device, Material, Verification, Deployer}
use certmon.Deployment.Rules.{keeps_deploy}
use certmon.Deployment.Service.{deploy}

-- every job that is deployed in the second database is the same in the first
abbrev NoneDeployed : Database → Database → Type 0
NoneDeployed before db =
    (i : String) (j : Job) → get_job i db ≡ some j → j.state ≡ deployed → get_job i before ≡ some j

module _ (before db : Database) (h : NoneDeployed before db) (now : ℕ) where
  module _ (id : String) (from : RenewalState) (v : ℕ) (us : Updates) where
    row_after : Job → Job
    row_after x = if at_version id from v x then advance now deployment_pending us x else x

    job_after :
        (i : String)
        → get_job i (updated id from v now deployment_pending us db)
          ≡ Option.map row_after (get_job i db)
    unfolding get_job row_after
    job_after i =
        find-update (has_id i) (at_version id from v) (advance now deployment_pending us)
          (λ x. ap (λ (t : String). t == i) (id-advance now deployment_pending us x)) db.jobs

    unchanged_row : (x : Job) → (row_after x).state ≡ deployed → row_after x ≡ x
    unfolding row_after advance
    unchanged_row x e = elim (Bool-cases (at_version id from v x)) [
      | inl m ↦ ground arith
      | inr m ↦ rw m
    ]

    updated-NoneDeployed : NoneDeployed before (updated id from v now deployment_pending us db)
    updated-NoneDeployed i j e done = elim (Option-cases (get_job i db)) [
      | inl n ↦ ground (arith, job_after i)
      | inr (a, found) ↦ ground (arith, job_after i, unchanged_row a, h i a)
    ]

    pended :
        (r : Result (Option Job))
        → (transition_job now id from v deployment_pending us db).0 ≡ r
        → NoneDeployed before (transition_job now id from v deployment_pending us db).1
    unfolding get_job
    pended (ok o) e =
        let (one, after, _) = transition_job-ok id from v now deployment_pending us db o e in
        rw after updated-NoneDeployed
    pended (err x) e = rw (transition_job_atomic id from v now deployment_pending us db x e) h

    transition-NoneDeployed :
        (current : Option (List Permission))
        → NoneDeployed before (transition current now id from v deployment_pending us db).1
    unfolding transition
    transition-NoneDeployed current =
        lift_rule (NoneDeployed before) db (authorize issue_certificate none current) _ h λ _ _.
          lift_rule (NoneDeployed before) db (validate_transition from deployment_pending) _ h
            λ _ _. pended (transition_job now id from v deployment_pending us db).0 refl

    set-NoneDeployed :
        NoneDeployed before (compare_and_set_job now id from v deployment_pending us db).1
    unfolding compare_and_set_job transaction
    set-NoneDeployed = raise_if_rule (NoneDeployed before) db (has_unsupported us) _ _ h λ _.
        settle_rule (NoneDeployed before) db
          (conditional_update now id from v deployment_pending us db) h
          λ a e.
            rw (conditional_update-ok id from v now deployment_pending us db a e).1
              updated-NoneDeployed

  noted-NoneDeployed :
      (kind : String) (details : Details) (id : Option String)
      → NoneDeployed before (record_event now kind details id db).1
  unfolding record_event transaction get_job append_event
  noted-NoneDeployed kind details none = h
  noted-NoneDeployed kind details (some id) =
      elim (Bool-cases (is_none (find (has_id id) db.jobs))) [ inl e ↦ rw e h | inr e ↦ rw e h ]

-- A deployment to a device that the verifier does not answer "verified" for, whatever was pushed and
-- wherever the request fails: every job that is deployed after it was deployed before it, and is the
-- same row.
pub deploy-unverified :
    (current : Option (List Permission)) (d : Deployer) (now : ℕ) (device : Device)
    (certificate : String) (id : Option String) (w : World) (i : String) (j : Job)
    → ((material : Material) (v : Verification)
        → d.verifier device material ≡ ok v
        → v.status ≢ "verified")
    → get_job i (deploy current d now device certificate id w).1.database ≡ some j
    → j.state ≡ deployed
    → get_job i w.database ≡ some j
deploy-unverified current d now device certificate id w i j never e done =
    keeps_deploy (NoneDeployed w.database) current d now device
      (λ id from v us db h. transition-NoneDeployed w.database db h now id from v us current)
      (λ id v us db h. set-NoneDeployed w.database db h now id deployment_pending v us)
      (λ kind details id db h. noted-NoneDeployed w.database db h now kind details id)
      (λ (material, (v, (answered, verified))). absurd (never material v answered verified))
      certificate id w (λ i j e done. e) i j e done
