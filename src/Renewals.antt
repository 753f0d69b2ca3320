-- ===== src/Renewals.antt =====
-- certmon/renewals.py: the identifiers of a job and `RenewalService`. The permissions of the
-- request are `current`; new ids and the clock are arguments.
pub mod Identifiers
pub mod History
pub mod Recovery
use certmon.Prelude.{
  ℕ, String, Bool, true, false, not, ◌==◌, ◌&&◌, ◌||◌, Option, none, some, List, [], ◌∷◌,
  if◌then◌else◌,
}
use certmon.Outcome.{
  Result, ok, err, key_error, value_error, gets, lift, or_raise, pure, raise, raise_if, ◌>>=◌, ◌>>◌,
}
use certmon.Permissions.{Permission, issue_certificate, authorize}
use certmon.Models.{
  RenewalState, draft, awaiting_dns, validating, issuing, awaiting_external_ca, issued,
  deployment_pending, deployed, cancelled, failed, same_state, state_in, validate_transition,
}
use certmon.Db.{Job, Value, text, Details, Database, Query}
use certmon.Db.Jobs
use certmon.Db.Jobs.{Updates, get_job, list_jobs}
use certmon.Renewals.Identifiers.{Names, normalize_identifiers}

-- a text of a JSON object
unfoldable pub text_at : String → Details → Option String
text_at k [] = none
text_at k ((j, text t) ∷ d) = if j == k then some t else text_at k d
text_at k ((j, _) ∷ d) = if j == k then none else text_at k d

-- `metadata.get("external_ca_workflow") == "existing"`
unfoldable pub is_existing_import : Job → Bool
unfolding text_at
is_existing_import j = elim (text_at "external_ca_workflow" j.metadata) [
  | none ↦ false
  | some t ↦ t == "existing"
]

abbrev pub deletable_states : List RenewalState
deletable_states = cancelled ∷ deployed ∷ deployment_pending ∷ failed ∷ issued ∷ []

unfoldable pub is_deletable : Job → Bool
unfolding is_existing_import
is_deletable j =
    (same_state j.state draft && is_existing_import j) || state_in j.state deletable_states

module _ (current : Option (List Permission)) where
  unfoldable pub create_job :
      Names
      → ℕ
      → String
      → String
      → ℕ
      → String
      → List (Option String)
      → String
      → Option String
      → Option String
      → Details
      → Query (Option Job)
  create_job n now job_id host port issuer_type identifiers profile environment dns metadata = do
    lift (authorize issue_certificate none current)
    normalized ← lift (normalize_identifiers n identifiers (issuer_type == "acme"))
    Jobs.create_job now job_id host port issuer_type draft normalized profile environment dns
        metadata
    gets (get_job job_id)

  unfoldable pub transition :
      ℕ → String → RenewalState → ℕ → RenewalState → Updates → Query (Option Job)
  transition now job_id expected_state expected_version new_state updates = do
    lift (authorize issue_certificate none current)
    lift (validate_transition expected_state new_state)
    Jobs.transition_job now job_id expected_state expected_version new_state updates

  cancel_found : ℕ → Job → Query (Option Job)
  unfolding transition
  cancel_found now job =
      if same_state job.state cancelled
      then pure (some job)
      else transition now job.id job.state job.version cancelled []

  unfoldable pub cancel : ℕ → String → Query (Option Job)
  unfolding cancel_found
  cancel now job_id = do
    lift (authorize issue_certificate none current)
    job ← or_raise (← gets (get_job job_id)) (key_error job_id)
    cancel_found now job

  unfoldable pub delete_terminal_job : String → Query Job
  unfolding is_deletable
  delete_terminal_job job_id = do
    lift (authorize issue_certificate none current)
    job ← or_raise (← gets (get_job job_id)) (key_error job_id)
    raise_if (not (is_deletable job)) (value_error "Only cancelled or failed renewal entries")
    Jobs.delete_job job_id
    pure job

  -- `reconcile` reads the database, asks the ACME server about an order and returns a target state with updates, or
  -- raises
  abbrev pub Reconcile : Type 0
  Reconcile = Job → Database → Result (RenewalState × Updates)

  unfoldable pub is_interrupted : Job → Bool
  is_interrupted job = state_in job.state (validating ∷ issuing ∷ []) && job.issuer_type == "acme"

  recover_job : ℕ → Job → RenewalState × Updates → Query (Option Job)
  unfolding transition
  recover_job now job (target, updates) = transition now job.id job.state job.version target updates

  -- the loop of `recover_interrupted_jobs`
  unfoldable pub recover_jobs : ℕ → Reconcile → List Job → Query Unit
  unfolding is_interrupted recover_job
  recover_jobs now reconcile [] = pure tt
  recover_jobs now reconcile (job ∷ jobs) =
      let rest = recover_jobs now reconcile jobs in
      if is_interrupted job
      then (do
        answer ← gets (reconcile job)
        decision ← lift answer
        recover_job now job decision
        rest)
      else rest

  unfoldable pub recover_interrupted_jobs : ℕ → Reconcile → Query Unit
  unfolding recover_jobs
  recover_interrupted_jobs now reconcile = do recover_jobs now reconcile (← gets list_jobs)
