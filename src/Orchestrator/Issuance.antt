-- ===== src/Orchestrator/Issuance.antt =====
-- `_complete_dns` of `ACMERenewalOrchestrator` (certmon/renewals.py) and what it calls. `now` is the time and `current`
-- the permissions of the request.
use certmon.Prelude.{
  true, false, Bool, ℕ, String, true, false, not, ◌==◌, Option, none, some, List, [], ◌∷◌,
  if◌then◌else◌, same_option,
}
use Prim.Native.String
use certmon.Outcome.{
  Action, Error, Result, ok, err, pure, raise, raise_if, lift, gets, or_raise, ◌>>=◌, ◌>>◌,
  value_error, order_error, validation_error,
}
use certmon.Permissions.{Permission}
use certmon.Models.{
  RenewalState, awaiting_dns, validating, issuing, issued, cleanup_required, failed,
}
use certmon.Db.{Job, PresentedRecord, dns_records, target, staging_proof, text, texts, Details}
use certmon.Db.Jobs.{Updates, get_job, certificate_id, error_code, error_message}
use certmon.Db.Certificates.{put_certificate}
use certmon.Db.Settings.{put_setting, delete_setting}
use certmon.Renewals.{transition}
use certmon.Artifacts.{
  Store, Files, create_certificate_set, has_certificate, delete_certificate_set, read_public,
  materialize_private,
}
use certmon.Orchestrator.{
  Challenge, CleanupResult, Issued, Validation, Request, Provider, Services, on_database, on_store,
  on_error, Answer, plain_answer, dns_key, cleanup_key, proof_key, pending_id, join,
  sorted_identifiers, public_records, cleanup_target, job_in, load_required, load_presented,
  returned,
}

-- `not cleanup.errors`
abbrev pub no_errors : CleanupResult → Bool
no_errors cleanup = elim cleanup.errors [ [] ↦ true | _ ∷ _ ↦ false ]

module _ (current : Option (List Permission)) (s : Services) (now : ℕ) where
  abbrev pub move : Job → RenewalState → RenewalState → Updates → Request (Option Job)
  move job from new updates =
      on_database (transition current now job.id from job.version new updates)

  abbrev pub provider_of : Job → Request Provider
  provider_of job = or_raise (s.provider job.dns_provider) (value_error "Unknown DNS provider")

  abbrev pub identifier_hash : List String → String
  identifier_hash identifiers = s.digest (sorted_identifiers identifiers)

  -- `_present`
  unfoldable pub present : Job → List Challenge → Request (List PresentedRecord)
  present job challenges = do
    provider ← provider_of job
    presented ← lift (provider.present challenges)
    on_database (put_setting (dns_key job.id) (dns_records presented))
    pure presented

  abbrev pub pending_set : Job → String → String → Action Store Unit
  pending_set job key csr =
      create_certificate_set s.vault (pending_id job.id) (("request.csr", csr) ∷ [])
        (("private-key.pem", key) ∷ [])
        (("kind", text "acme_pending") ∷ ("job_id", text job.id) ∷ [])

  unfoldable pub create_pending : Job → String × String → Request String
  create_pending job (key, csr) = on_store (pending_set job key csr) >> pure csr

  unfoldable pub pending_or_new : Job → Bool → Request String
  unfolding create_pending
  pending_or_new job true =
      gets (λ w. read_public s.vault (pending_id job.id) "request.csr" w.store) >>= λ r. lift r
  pending_or_new job false =
      lift (s.new_key_and_csr job.profile job.identifiers) >>= create_pending job

  -- `_ensure_pending_key_and_csr`
  unfoldable pub ensure_pending : Job → Request String
  unfolding pending_or_new
  ensure_pending job = do
    there ← gets (λ w. has_certificate s.vault (pending_id job.id) w.store)
    known ← lift there
    pending_or_new job known

  abbrev pub metadata_of : Job → Validation → Details
  metadata_of job v =
      ("kind", text "leaf")
      ∷ ("issuer_type", text "acme")
      ∷ ("environment", elim job.environment [ none ↦ certmon.Db.null | some e ↦ text e ])
      ∷ ("profile", text job.profile)
      ∷ ("identifiers", texts job.identifiers)
      ∷ ("trust_status", text v.trust_status)
      ∷ ("not_after", text v.not_after)
      ∷ []

  abbrev pub chain_of : Issued → String
  chain_of r = elim r.chain_pem [ none ↦ "" | some c ↦ c ]

  abbrev pub public_files : Issued → Files
  public_files r =
      ("certificate.pem", r.certificate_pem)
      ∷ ("full-chain.pem", String.◌++◌ r.certificate_pem (chain_of r))
      ∷ (if chain_of r == "" then [] else ("chain.pem", chain_of r) ∷ [])

  abbrev pub private_files : Issued → String → Files
  private_files r key =
      ("private-key.pem", key)
      ∷ ("combined.pem", String.◌++◌ r.certificate_pem (String.◌++◌ (chain_of r) key))
      ∷ []

  abbrev pub issued_set : Job → Issued → String → Validation → Action Store Unit
  issued_set job r key v =
      create_certificate_set s.vault (s.new_certificate_id job.identifiers job.profile)
        (public_files r) (private_files r key) (metadata_of job v)

  abbrev pub drop_set : String → Error → Request Unit
  drop_set id e = on_store (delete_certificate_set s.vault id) >> raise e

  -- the row of the certificate, without which its files go
  unfoldable pub insert_row : String → Details → Request Unit
  insert_row id metadata = on_error (on_database (put_certificate now id metadata)) (drop_set id)

  unfoldable pub store_valid : Job → Issued → String → Validation → Request String
  unfolding insert_row
  store_valid job r key v =
      let id = s.new_certificate_id job.identifiers job.profile in
      do
        raise_if (not v.cryptographically_valid) (validation_error v.errors)
        on_store (issued_set job r key v)
        insert_row id (metadata_of job v)
        pure id

  -- `_store_certificate`
  unfoldable pub store_certificate : Job → Issued → Request String
  unfolding store_valid
  store_certificate job r = do
    found ← gets (λ w. materialize_private s.vault (pending_id job.id) "private-key.pem" w.store)
    key ← lift found
    validation ← lift (s.validate r key job.identifiers)
    store_valid job r key validation

  -- the `try` block of `_complete_dns`
  unfoldable pub obtain : Job → Request (Job × String)
  unfolding returned store_certificate
  obtain job = do
    on_database (s.answer_challenges job.id)
    on_database (s.poll_authorizations job.id)
    moved ← move job validating issuing []
    job ← returned moved
    result ← on_database (s.finalize job.id)
    certificate ← store_certificate job result
    pure (job, certificate)

  -- the code and the message of the job after an error
  unfoldable pub blame : Error → Updates
  unfolding join
  blame (order_error code message none) =
      (error_code, some code) ∷ (error_message, some message) ∷ []
  blame (order_error code message (some at)) =
      (error_code, some code)
      ∷ (error_message, some (String.◌++◌ message (String.◌++◌ "; retry after " (s.isoformat at))))
      ∷ []
  blame (validation_error errors) =
      (error_code, some "acme_certificate_invalid")
      ∷ (error_message, some (String.◌++◌ "Certificate validation failed: " (join ", " errors)))
      ∷ []
  blame _ =
      (error_code, some "acme_certificate_invalid")
      ∷ (error_message, some "The ACME certificate response could not be validated")
      ∷ []

  abbrev pub after_failure : CleanupResult → RenewalState
  after_failure cleanup = if no_errors cleanup then failed else cleanup_required

  -- the three handlers of the block, which differ in what they blame
  unfoldable pub give_up : Job → List PresentedRecord → Error → Request (Option Job)
  unfolding blame returned
  give_up job presented e = do
    provider ← provider_of job
    cleanup ← lift (provider.cleanup presented)
    found ← gets (λ w. get_job job.id w.database)
    actual ← returned found
    on_database (
        transition current now job.id actual.state actual.version (after_failure cleanup) (blame e))

  abbrev pub cleanup_failed : CleanupResult → Updates
  cleanup_failed cleanup =
      (error_code, some "dns_cleanup_failed")
      ∷ (error_message, some (join "; " cleanup.errors))
      ∷ []

  -- what a job on staging leaves for the production job of the same names
  unfoldable pub record_proof : Job → String → Request Unit
  record_proof job certificate =
      if same_option job.environment (some "staging")
      then on_database (
          put_setting (proof_key (identifier_hash job.identifiers))
            (staging_proof certificate job.identifiers))
      else pure tt

  -- the rest of `_complete_dns` when the DNS records are gone
  unfoldable pub complete_issued : Job → String → Request (Option Job)
  unfolding record_proof
  complete_issued job certificate = do
    completed ← move job issuing issued ((certificate_id, some certificate) ∷ [])
    on_database (delete_setting (dns_key job.id))
    record_proof job certificate
    pure completed

  -- the rest when they are not
  unfoldable pub complete_unclean : Job → String → CleanupResult → Request (Option Job)
  complete_unclean job certificate cleanup = do
    on_database (put_setting (cleanup_key job.id) (target issued))
    move job issuing cleanup_required ((certificate_id, some certificate) ∷ cleanup_failed cleanup)

  unfoldable pub cleaned : Job → String → CleanupResult → Request (Option Job)
  unfolding complete_issued complete_unclean
  cleaned job certificate cleanup =
      if no_errors cleanup
      then complete_issued job certificate
      else complete_unclean job certificate cleanup

  -- the part of `_complete_dns` below its `try` statement
  unfoldable pub conclude : List PresentedRecord → Job × String → Request (Option Job)
  unfolding cleaned
  conclude presented (job, certificate) = do
    provider ← provider_of job
    cleanup ← lift (provider.cleanup presented)
    on_store (delete_certificate_set s.vault (pending_id job.id))
    cleaned job certificate cleanup

  abbrev pub tried :
      Job
      → List PresentedRecord
      → Result (Job × String) × certmon.Orchestrator.World
      → Result (Option Job) × certmon.Orchestrator.World
  tried job presented (ok r, w) = conclude presented r w
  tried job presented (err e, w) = give_up job presented e w

  -- `_complete_dns`
  unfoldable pub complete_dns : Job → List PresentedRecord → Request (Option Job)
  unfolding obtain conclude give_up returned
  complete_dns job presented = do
    moved ← move job awaiting_dns validating []
    job ← returned moved
    (λ w. tried job presented (obtain job w))
