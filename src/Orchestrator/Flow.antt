-- ===== src/Orchestrator/Flow.antt =====
-- The requests to `ACMERenewalOrchestrator` (certmon/renewals.py). `now` is the time and `current`
-- the permissions of the request.
use certmon.Prelude.{
  true, false, ℕ, String, Bool, true, false, not, ◌&&◌, Option, none, some, List, [], ◌∷◌,
  if◌then◌else◌, is_none, all, same_option,
}
use certmon.Outcome.{
  Error, Result, ok, err, pure, raise, raise_if, lift, gets, or_raise, ◌>>=◌, ◌>>◌, value_error,
  staging_required, challenge_expired, key_error,
}
use certmon.Permissions.{Permission, issue_certificate, authorize}
use certmon.Models.{draft, awaiting_dns, cleanup_required, cancelled}
use certmon.Db.{Database, Job, PresentedRecord, target}
use certmon.Db.Jobs.{get_job, error_code, error_message}
use certmon.Db.Settings.{get_setting, put_setting}
use certmon.Renewals.{cancel}
use certmon.Artifacts.{read_public}
use certmon.Orchestrator.{
  CleanupResult, Request, Services, on_database, Answer, plain_answer, cleanup_key, proof_key,
  pending_id, public_records, cleanup_target, job_in, load_required, load_presented, returned,
}
use certmon.Orchestrator.Issuance.{
  no_errors, move, provider_of, identifier_hash, present, ensure_pending, complete_dns,
  cleanup_failed,
}

-- `ManualChallengeExpired`
abbrev pub is_expired : Error → Bool
is_expired challenge_expired = true
is_expired _ = false

module _ (current : Option (List Permission)) (s : Services) (now : ℕ) where
  abbrev pub lacks_proof : Job → Database → Bool
  lacks_proof job db =
      same_option job.environment (some "production")
      && is_none (get_setting (proof_key (identifier_hash current s now job.identifiers)) db)

  -- a production order wants a proof that staging succeeded for the same names
  unfoldable pub staging_gate : Job → Request Unit
  staging_gate job w = raise_if (lacks_proof job w.database) (staging_required job.id) w

  -- the order goes on, or it waits for its DNS records; `visible` is what the answer says of them
  unfoldable pub complete_or_wait : Job → List PresentedRecord → Option Bool → Bool → Request Answer
  unfolding complete_dns
  complete_or_wait job presented visible true =
      complete_dns current s now job presented >>= λ done. pure (plain_answer done)
  complete_or_wait job presented visible false = pure (record {
    job = some job;
    dns_records = public_records presented;
    replaced = false;
    visible = visible;
  })

  -- the end of `start_acme`
  abbrev pub started : List PresentedRecord → Job → Request Answer
  started presented job =
      complete_or_wait job presented none (same_option job.dns_provider (some "cloudflare"))

  unfoldable pub start_acme : String → Option String → Bool → Request Answer
  unfolding job_in staging_gate ensure_pending present complete_or_wait returned
  start_acme job_id email agreed = do
    lift (authorize issue_certificate none current)
    job ← job_in job_id draft
    staging_gate job
    on_database (s.register job.environment email agreed)
    csr ← ensure_pending current s now job
    challenges ← on_database (s.create_order job_id csr)
    presented ← present current s now job challenges
    moved ← move current s now job draft awaiting_dns []
    job ← returned moved
    started presented job

  -- a manual challenge that expired is replaced by a new order
  unfoldable pub replace_order : String → Job → Request Answer
  unfolding present
  replace_order job_id job = do
    found ← gets (λ w. read_public s.vault (pending_id job_id) "request.csr" w.store)
    csr ← lift found
    challenges ← on_database (s.create_order job_id csr)
    presented ← present current s now job challenges
    stored ← gets (λ w. get_job job_id w.database)
    stored ← returned stored
    pure (record {
      job = some stored;
      dns_records = public_records presented;
      replaced = true;
      visible = none;
    })

  unfoldable pub seen : String → Job → List PresentedRecord → Result (List Bool) → Request Answer
  unfolding replace_order complete_or_wait
  seen job_id job presented (err e) = if is_expired e then replace_order job_id job else raise e
  seen job_id job presented (ok visible) =
      complete_or_wait job presented (some false) (all (λ v. v) visible)

  unfoldable pub continue_manual_dns : String → Request Answer
  unfolding job_in load_required seen
  continue_manual_dns job_id = do
    lift (authorize issue_certificate none current)
    job ← job_in job_id awaiting_dns
    raise_if (not (same_option job.dns_provider (some "manual"))) (value_error "not manual DNS")
    provider ← provider_of current s now job
    presented ← load_required job_id
    seen job_id job presented (provider.check_visibility presented)

  -- DNS records that stay behind are left to `retry_cleanup`
  unfoldable pub cancel_unclean : Job → CleanupResult → Request (Option Job)
  cancel_unclean job cleanup = do
    on_database (put_setting (cleanup_key job.id) (target cancelled))
    move current s now job job.state cleanup_required (cleanup_failed current s now cleanup)

  -- `cancel`, once the DNS records were cleaned up
  unfoldable pub cancel_cleaned : Job → CleanupResult → Request (Option Job)
  unfolding cancel_unclean
  cancel_cleaned job cleanup =
      if no_errors cleanup
      then on_database (cancel current now job.id)
      else cancel_unclean job cleanup

  unfoldable pub cancel_presented : Job → List PresentedRecord → Request (Option Job)
  unfolding cancel_cleaned
  cancel_presented job [] = on_database (cancel current now job.id)
  cancel_presented job (r ∷ rs) = provider_of current s now job >>= λ provider.
      lift (provider.cleanup (r ∷ rs)) >>= cancel_cleaned job

  unfoldable pub cancel_acme : String → Request (Option Job)
  unfolding load_presented cancel_presented
  cancel_acme job_id = do
    job ← or_raise (← gets (λ w. get_job job_id w.database)) (key_error job_id)
    presented ← load_presented job_id
    cancel_presented job presented

  -- `retry_cleanup`, once the records are gone
  unfoldable pub leave_cleanup : Job → Request (Option Job)
  leave_cleanup job = do
    setting ← gets (λ w. get_setting (cleanup_key job.id) w.database)
    move current s now job cleanup_required (cleanup_target setting)
        ((error_code, none) ∷ (error_message, none) ∷ [])

  unfoldable pub retried : Job → CleanupResult → Request (Option Job)
  unfolding leave_cleanup
  retried job cleanup = if no_errors cleanup then leave_cleanup job else pure (some job)

  unfoldable pub retry_cleanup : String → Request (Option Job)
  unfolding job_in load_presented retried
  retry_cleanup job_id = do
    job ← job_in job_id cleanup_required
    provider ← provider_of current s now job
    presented ← load_presented job_id
    cleanup ← lift (provider.cleanup presented)
    retried job cleanup
