-- ===== src/Orchestrator/Steps.antt =====
-- The steps of an issuance keep what the calls of the database keep.
use certmon.Renewals.{transition}
use certmon.Models.{issuing, issued, validating, awaiting_dns, cleanup_required}
use certmon.Db.Jobs.{certificate_id}
use certmon.Db.{target}
use certmon.Prelude.{
  Bool-cases, inl, inr, ◌⊎◌, same_option, find, not, ℕ, String, Bool, true, false, ◌≡◌, Option,
  none, some, List, [], ◌∷◌, is_none,
}
use certmon.Outcome.Rules.{settle_rule, raise_if_rule}
use certmon.Db.Jobs.{get_job, has_certificate_id}
use certmon.Artifacts.{delete_certificate_set, has_certificate, materialize_private}
use certmon.Outcome.{integrity_error, ◌>>=◌, Error, Result, ok, err, transaction}
use certmon.Permissions.{Permission}
use certmon.Models.{RenewalState}
use certmon.Db.Jobs.{Updates}
use certmon.Db.{Details, Job, PresentedRecord, Setting, Database}
use certmon.Db.Settings.{put_setting, delete_setting}
use certmon.Db.Certificates.{put_certificate, insert_certificate}
use certmon.Orchestrator.{
  Challenge, CleanupResult, Issued, Validation, World, Request, Services, returned, on_store,
  on_database, pending_id, dns_key, cleanup_key,
}
use certmon.Orchestrator.Issuance.{
  present, insert_row, drop_set, pending_set, issued_set, create_pending, pending_or_new,
  ensure_pending, store_valid, store_certificate, obtain, give_up, complete_issued,
  complete_unclean, cleaned, no_errors, record_proof, conclude, tried, complete_dns, move,
  metadata_of,
}
use certmon.Orchestrator.Rules.{
  Kept, Writes, Keeps, keeps_bind, keeps_or_raise, keeps_lift, keeps_raise_if, keeps_query,
  keeps_store, keeps_on_error, keeps_call,
}

pub nothing_failed : (c : CleanupResult) → (no_errors c ≡ true) ⊎ (no_errors c ≡ false)
nothing_failed c = Bool-cases (no_errors c)

module _ (P : Database → Type 0) (current : Option (List Permission)) (s : Services) (now : ℕ)
    (kept : Kept P s) (writes : Writes P current now) where
  pub keeps_put_setting :
      (k : String) (v : Setting) (db : Database) → P db → P (put_setting k v db).1
  unfolding put_setting
  keeps_put_setting k v db h = writes.settings _ db h

  keeps_delete_setting : (k : String) (db : Database) → P db → P (delete_setting k db).1
  unfolding delete_setting
  keeps_delete_setting k db h = writes.settings _ db h

  pub keeps_present : (job : Job) (cs : List Challenge) → Keeps P (present current s now job cs)
  unfolding present put_setting
  keeps_present job cs = keeps_or_raise P (s.provider job.dns_provider) _ _ λ provider.
      keeps_lift P (provider.present cs) _ λ presented w h. keeps_put_setting _ _ w.database h

  keeps_move :
      (job : Job) (from new : RenewalState) (us : Updates)
      → Keeps P (move current s now job from new us)
  keeps_move job from new us w h = writes.move job.id from job.version new us w.database h

  pub keeps_returned :
      {A : Type 0} (o : Option Job) (f : Job → Request A)
      → ((job : Job) → Keeps P (f job))
      → Keeps P (returned o >>= f)
  unfolding returned
  keeps_returned none f next w h = h
  keeps_returned (some job) f next w h = next job w h

  keeps_delete_set : (id : String) → Keeps P (on_store (delete_certificate_set s.vault id))
  keeps_delete_set id w h = h

  keeps_create_pending :
      (job : Job) (kc : String × String) → Keeps P (create_pending current s now job kc)
  unfolding create_pending
  keeps_create_pending job (key, csr) =
      keeps_bind P _ _ (keeps_store P (pending_set current s now job key csr)) λ _ w h. h

  pending_known : (job : Job) (known : Bool) → Keeps P (pending_or_new current s now job known)
  unfolding pending_or_new
  pending_known job true w h = h
  pending_known job false w h =
      keeps_lift P (s.new_key_and_csr job.profile job.identifiers) _
        (λ kc. keeps_create_pending job kc) w h

  pub keeps_ensure_pending : (job : Job) → Keeps P (ensure_pending current s now job)
  unfolding ensure_pending
  keeps_ensure_pending job w h =
      keeps_lift P (has_certificate s.vault (pending_id job.id) w.store) _
        (λ known. pending_known job known) w h

  keeps_put_certificate :
      (id : String) (m : Details) (db : Database) → P db → P (put_certificate now id m db).1
  unfolding put_certificate transaction insert_certificate
  keeps_put_certificate id m db h =
      settle_rule {B = Unit {0}} P db (insert_certificate now id m db) h λ _ _.
        raise_if_rule {B = Unit {0}} P db
          (not (is_none (find (has_certificate_id id) db.certificates))) integrity_error _ h
          λ _. writes.certificates _ db h

  keeps_insert_row : (id : String) (m : Details) → Keeps P (insert_row current s now id m)
  unfolding insert_row
  keeps_insert_row id m =
      keeps_on_error P (on_database (put_certificate now id m)) (drop_set current s now id)
        (keeps_query P (put_certificate now id m) (keeps_put_certificate id m))
        λ e.
          keeps_bind P (on_store (delete_certificate_set s.vault id)) _ (keeps_delete_set id)
            λ _ w h. h

  keeps_store_valid :
      (job : Job) (r : Issued) (key : String) (v : Validation)
      → Keeps P (store_valid current s now job r key v)
  unfolding store_valid
  keeps_store_valid job r key v = keeps_raise_if P (not v.cryptographically_valid) _ _ (
      keeps_bind P (on_store (issued_set current s now job r key v)) _
        (keeps_store P (issued_set current s now job r key v))
        λ _.
          keeps_bind P
            (insert_row current s now (s.new_certificate_id job.identifiers job.profile)
              (metadata_of current s now job v))
            _ (keeps_insert_row _ _) λ _ w h. h)

  keeps_store_certificate :
      (job : Job) (r : Issued) → Keeps P (store_certificate current s now job r)
  unfolding store_certificate
  keeps_store_certificate job r w h =
      keeps_lift P (materialize_private s.vault (pending_id job.id) "private-key.pem" w.store) _
        (λ key.
          keeps_lift P (s.validate r key job.identifiers) _ λ v. keeps_store_valid job r key v)
        w h

  keeps_obtain : (job : Job) → Keeps P (obtain current s now job)
  unfolding obtain
  keeps_obtain job =
      keeps_call P (s.answer_challenges job.id) _ (kept.answer_challenges job.id) λ _.
        keeps_call P (s.poll_authorizations job.id) _ (kept.poll_authorizations job.id) λ _.
          keeps_call P (transition current now job.id validating job.version issuing []) _
            (writes.move job.id validating job.version issuing [])
            λ moved. keeps_returned moved _ λ job.
              keeps_call P (s.finalize job.id) _ (kept.finalize job.id) λ r.
                keeps_bind P (store_certificate current s now job r) _
                  (keeps_store_certificate job r) λ _ w h. h

  keeps_give_up :
      (job : Job) (presented : List PresentedRecord) (e : Error)
      → Keeps P (give_up current s now job presented e)
  unfolding give_up
  keeps_give_up job presented e = keeps_or_raise P (s.provider job.dns_provider) _ _ λ provider.
      keeps_lift P (provider.cleanup presented) _ λ cleanup w h.
        keeps_returned (get_job job.id w.database) _
          (λ actual w h. writes.move job.id actual.state actual.version _ _ w.database h) w h

  keeps_record_proof :
      (job : Job) (certificate : String) → Keeps P (record_proof current s now job certificate)
  unfolding record_proof
  keeps_record_proof job certificate w h =
      elim (Bool-cases (same_option job.environment (some "staging"))) [
        | inl e ↦ rw e (keeps_put_setting _ _ w.database h)
        | inr e ↦ rw e h
      ]

  keeps_complete_issued :
      (job : Job) (certificate : String) → Keeps P (complete_issued current s now job certificate)
  unfolding complete_issued
  keeps_complete_issued job certificate =
      keeps_call P
        (transition current now job.id issuing job.version issued
          ((certificate_id, some certificate) ∷ []))
        _ (writes.move job.id issuing job.version issued ((certificate_id, some certificate) ∷ []))
        λ _.
          keeps_call P (delete_setting (dns_key job.id)) _ (keeps_delete_setting (dns_key job.id))
            λ _.
              keeps_bind P (record_proof current s now job certificate) _
                (keeps_record_proof job certificate) λ _ w h. h

  keeps_complete_unclean :
      (job : Job) (certificate : String) (cleanup : CleanupResult)
      → Keeps P (complete_unclean current s now job certificate cleanup)
  unfolding complete_unclean
  keeps_complete_unclean job certificate cleanup =
      keeps_call P (put_setting (cleanup_key job.id) (target issued)) _
        (keeps_put_setting (cleanup_key job.id) (target issued))
        λ _ w h. writes.move job.id issuing job.version cleanup_required _ w.database h

  keeps_cleaned :
      (job : Job) (certificate : String) (c : CleanupResult)
      → Keeps P (cleaned current s now job certificate c)
  unfolding cleaned
  keeps_cleaned job certificate c = elim (nothing_failed c) [
    | inl e ↦ λ w h. rw e (keeps_complete_issued job certificate w h)
    | inr e ↦ λ w h. rw e (keeps_complete_unclean job certificate c w h)
  ]

  keeps_conclude :
      (presented : List PresentedRecord) (r : Job × String)
      → Keeps P (conclude current s now presented r)
  unfolding conclude
  keeps_conclude presented (job, certificate) =
      keeps_or_raise P (s.provider job.dns_provider) _ _ λ provider.
        keeps_lift P (provider.cleanup presented) _ λ cleanup.
          keeps_bind P (on_store (delete_certificate_set s.vault (pending_id job.id))) _
            (keeps_delete_set (pending_id job.id)) λ _. keeps_cleaned job certificate cleanup

  keeps_tried :
      (job : Job) (presented : List PresentedRecord) (m : Result (Job × String) × World)
      → P m.1.database
      → P (tried current s now job presented m).1.database
  keeps_tried job presented (ok r, w) h = keeps_conclude presented r w h
  keeps_tried job presented (err e, w) h = keeps_give_up job presented e w h

  pub keeps_complete_dns :
      (job : Job) (presented : List PresentedRecord)
      → Keeps P (complete_dns current s now job presented)
  unfolding complete_dns
  keeps_complete_dns job presented =
      keeps_call P (transition current now job.id awaiting_dns job.version validating []) _
        (writes.move job.id awaiting_dns job.version validating [])
        λ moved.
          keeps_returned moved _ λ job w h. keeps_tried job presented _ (keeps_obtain job w h)
