-- ===== src/Orchestrator/Histories.antt =====
-- The requests to the orchestrator keep what the job service keeps.
use certmon.Renewals.{transition}
use certmon.Models.{same_state, draft, cancelled, awaiting_dns, cleanup_required}
use certmon.Db.{target}
use certmon.Permissions.{issue_certificate, authorize}
use certmon.Db.Settings.{get_setting}
use certmon.Prelude.{
  ◌==◌, ◌&&◌, inl, inr, same_option, not, ℕ, String, Bool, true, false, Option, none, some, List,
  [], ◌∷◌,
}
use certmon.Db.Jobs.{get_job}
use certmon.Artifacts.{read_public}
use certmon.Outcome.{lift, key_error, staging_required, raise, ◌>>=◌, Result, ok, err}
use certmon.Permissions.{Permission}
use certmon.Models.{RenewalState}
use certmon.Db.{Job, PresentedRecord, Database}
use certmon.Db.Settings.{put_setting}
use certmon.Orchestrator.{
  CleanupResult, Request, Services, job_in, load_required, load_presented, on_database, pending_id,
  dns_key, cleanup_key, records_of,
}
use certmon.Orchestrator.Issuance.{present, ensure_pending, complete_dns}
use certmon.Orchestrator.Flow.{
  is_expired, lacks_proof, staging_gate, complete_or_wait, start_acme, replace_order, seen,
  continue_manual_dns, cancel_cleaned, cancel_presented, cancel_acme, leave_cleanup, retried,
  cancel_unclean, retry_cleanup,
}
use certmon.Orchestrator.Rules.{
  Kept, Writes, Keeps, keeps_bind, keeps_or_raise, keeps_lift, keeps_raise_if, keeps_query,
  keeps_call, keeps_check, keeps_if,
}
use certmon.Orchestrator.Steps.{
  nothing_failed, keeps_complete_dns, keeps_ensure_pending, keeps_present, keeps_put_setting,
  keeps_returned,
}

module _ (P : Database → Type 0) (current : Option (List Permission)) (s : Services) (now : ℕ)
    (kept : Kept P s) (writes : Writes P current now) where
  keeps_complete_or_wait :
      (job : Job) (presented : List PresentedRecord) (visible : Option Bool) (b : Bool)
      → Keeps P (complete_or_wait current s now job presented visible b)
  unfolding complete_or_wait
  keeps_complete_or_wait job presented visible true =
      keeps_bind P (complete_dns current s now job presented) _
        (keeps_complete_dns P current s now kept writes job presented) λ _ w h. h
  keeps_complete_or_wait job presented visible false = λ w h. h

  keeps_job_in :
      {A : Type 0} (id : String) (state : RenewalState) (f : Job → Request A)
      → ((job : Job) → Keeps P (f job))
      → Keeps P (job_in id state >>= f)
  unfolding job_in
  keeps_job_in id state f next =
      keeps_bind P (job_in id state) f
        (λ w h.
          keeps_or_raise P (get_job id w.database) (key_error id) _
            (λ job.
              keeps_raise_if P (not (job.issuer_type == "acme" && same_state job.state state)) _ _
                λ w h. h)
            w h)
        next

  keeps_staging_gate : (job : Job) → Keeps P (staging_gate current s now job)
  unfolding staging_gate
  keeps_staging_gate job w h =
      keeps_check P (lacks_proof current s now job w.database) (staging_required job.id) w h

  keeps_replace_order : (id : String) (job : Job) → Keeps P (replace_order current s now id job)
  unfolding replace_order
  keeps_replace_order id job w h =
      keeps_lift P (read_public s.vault (pending_id id) "request.csr" w.store) _
        (λ csr.
          keeps_bind P (on_database (s.create_order id csr)) _
            (keeps_query P (s.create_order id csr) (kept.create_order id csr))
            λ cs.
              keeps_bind P (present current s now job cs) _
                (keeps_present P current s now kept writes job cs)
                λ presented w h.
                  keeps_returned P current s now kept writes (get_job id w.database) _ (λ _ w h. h)
                    w h)
        w h

  keeps_seen :
      (id : String) (job : Job) (presented : List PresentedRecord) (r : Result (List Bool))
      → Keeps P (seen current s now id job presented r)
  unfolding seen
  keeps_seen id job presented (ok visible) = keeps_complete_or_wait job presented _ _
  keeps_seen id job presented (err e) =
      keeps_if P (is_expired e) (replace_order current s now id job) (raise e)
        (keeps_replace_order id job) λ w h. h

  -- start
  pub keeps_start_acme :
      (id : String) (email : Option String) (agreed : Bool)
      → Keeps P (start_acme current s now id email agreed)
  unfolding start_acme
  keeps_start_acme id email agreed = keeps_lift P (authorize issue_certificate none current) _ λ _.
      keeps_job_in id draft _ λ job.
        keeps_bind P (staging_gate current s now job) _ (keeps_staging_gate job) λ _.
          keeps_call P (s.register job.environment email agreed) _
            (kept.register job.environment email agreed)
            λ _.
              keeps_bind P (ensure_pending current s now job) _
                (keeps_ensure_pending P current s now kept writes job)
                λ csr. keeps_call P (s.create_order id csr) _ (kept.create_order id csr) λ cs.
                  keeps_bind P (present current s now job cs) _
                    (keeps_present P current s now kept writes job cs)
                    λ presented.
                      keeps_call P (transition current now job.id draft job.version awaiting_dns [])
                        _ (writes.move job.id draft job.version awaiting_dns [])
                        λ moved.
                          keeps_returned P current s now kept writes moved _
                            λ job. keeps_complete_or_wait job presented _ _

  pub keeps_continue_manual_dns : (id : String) → Keeps P (continue_manual_dns current s now id)
  unfolding continue_manual_dns load_required
  keeps_continue_manual_dns id = keeps_lift P (authorize issue_certificate none current) _ λ _.
      keeps_job_in id awaiting_dns _ λ job.
        keeps_raise_if P (not (same_option job.dns_provider (some "manual"))) _ _ (
          keeps_or_raise P (s.provider job.dns_provider) _ _ λ provider w h.
            keeps_or_raise P (records_of (get_setting (dns_key id) w.database)) _ _
              (λ presented. keeps_seen id job presented (provider.check_visibility presented)) w h)

  keeps_cancel_cleaned :
      (job : Job) (c : CleanupResult) → Keeps P (cancel_cleaned current s now job c)
  unfolding cancel_cleaned cancel_unclean
  keeps_cancel_cleaned job c = elim (nothing_failed c) [
    | inl e ↦ λ w h. rw e (writes.abandon job.id w.database h)
    | inr e ↦ λ w h. rw e (
        keeps_call P (put_setting (cleanup_key job.id) (target cancelled)) _
          (keeps_put_setting P current s now kept writes (cleanup_key job.id) (target cancelled))
          (λ _ w h. writes.move job.id job.state job.version cleanup_required _ w.database h) w h)
  ]

  keeps_cancel_presented :
      (job : Job) (rs : List PresentedRecord) → Keeps P (cancel_presented current s now job rs)
  unfolding cancel_presented
  keeps_cancel_presented job [] = λ w h. writes.abandon job.id w.database h
  keeps_cancel_presented job (r ∷ rs) =
      keeps_or_raise P (s.provider job.dns_provider) _ _
        λ provider. keeps_lift P (provider.cleanup (r ∷ rs)) _ (keeps_cancel_cleaned job)

  pub keeps_cancel_acme : (id : String) → Keeps P (cancel_acme current s now id)
  unfolding cancel_acme load_presented
  keeps_cancel_acme id w h =
      keeps_or_raise P (get_job id w.database) _ _ (λ job w h. keeps_cancel_presented job _ w h) w h

  keeps_retried : (job : Job) (c : CleanupResult) → Keeps P (retried current s now job c)
  unfolding retried leave_cleanup
  keeps_retried job c = elim (nothing_failed c) [
    | inl e ↦ λ w h. rw e (writes.move job.id cleanup_required job.version _ _ w.database h)
    | inr e ↦ λ w h. rw e h
  ]

  pub keeps_retry_cleanup : (id : String) → Keeps P (retry_cleanup current s now id)
  unfolding retry_cleanup load_presented
  keeps_retry_cleanup id = keeps_job_in id cleanup_required _ λ job.
      keeps_or_raise P (s.provider job.dns_provider) _ _ λ provider.
        keeps_bind P (load_presented id)
          (λ presented. lift (provider.cleanup presented) >>= retried current s now job) (λ w h. h)
          λ presented. keeps_lift P (provider.cleanup presented) _ (keeps_retried job)
