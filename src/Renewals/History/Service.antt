-- ===== src/Renewals/History/Service.antt =====
-- Every request to `RenewalService` keeps the histories of all jobs.
use certmon.Prelude.{
  ℕ, String, Bool, ◌≡◌, refl, ◌==◌, Option, none, List, [], ◌∷◌, Bool-cases, Option-cases, inl, inr,
  find, count, select, arith,
}
use certmon.Outcome.{Result, ok, err, transaction}
use certmon.Outcome.Rules.{lift_rule, or_raise_rule, bind_rule}
use certmon.Permissions.{Permission, issue_certificate, authorize}
use certmon.Models.{RenewalState, cancelled, same_state, validate_transition}
use certmon.Db.{Job, Database, Details, empty}
use certmon.Db.Jobs
use certmon.Db.Jobs.{Updates, has_id, get_job, list_events, list_jobs, transition_job}
use certmon.Db.Jobs.Versions.{transition_job-ok, transition_job_atomic}
use certmon.Renewals.Identifiers.{Names, normalize_identifiers}
use certmon.Renewals.{
  create_job, transition, cancel_found, cancel, delete_terminal_job, is_deletable, Reconcile,
  is_interrupted, recover_job, recover_jobs, recover_interrupted_jobs,
}
use certmon.Renewals.History.{IsTraced, logged-IsTraced}
use certmon.Renewals.History.Rows.{added-IsTraced, removed-IsTraced}

module _ (current : Option (List Permission)) (db : Database) (h : IsTraced db) where
  allowed : Result Bool
  allowed = authorize issue_certificate none current

  moved :
      (now : ℕ) (id : String) (s : RenewalState) (v : ℕ) (new : RenewalState) (us : Updates)
      → validate_transition s new ≡ ok tt
      → (r : Result (Option Job)) → (transition_job now id s v new us db).0 ≡ r
      → IsTraced (transition_job now id s v new us db).1
  moved now id s v new us valid (ok o) e =
      let (one, after, _) = transition_job-ok id s v now new us db o e in
      rw after (logged-IsTraced now id s v new us db h one valid)
  moved now id s v new us valid (err x) e = rw (transition_job_atomic id s v now new us db x e) h

  pub transition-IsTraced :
      (now : ℕ) (id : String) (s : RenewalState) (v : ℕ) (new : RenewalState) (us : Updates)
      → IsTraced (transition current now id s v new us db).1
  unfolding transition
  transition-IsTraced now id s v new us =
      lift_rule IsTraced db (authorize issue_certificate none current) _ h λ _ _.
        lift_rule IsTraced db (validate_transition s new) _ h
          λ _ valid. moved now id s v new us valid (transition_job now id s v new us db).0 refl

  cancel_found-IsTraced : (now : ℕ) (job : Job) → IsTraced (cancel_found current now job db).1
  unfolding cancel_found
  cancel_found-IsTraced now job = elim (Bool-cases (same_state job.state cancelled)) [
    | inl e ↦ rw e h
    | inr e ↦ rw e (transition-IsTraced now job.id job.state job.version cancelled [])
  ]

  pub cancel-IsTraced : (now : ℕ) (id : String) → IsTraced (cancel current now id db).1
  unfolding cancel
  cancel-IsTraced now id =
      lift_rule IsTraced db (authorize issue_certificate none current) _ h λ _ _.
        or_raise_rule IsTraced db (get_job id db) _ _ h λ job _. cancel_found-IsTraced now job

  delete-IsTraced : (id : String) → IsTraced (delete_terminal_job current id db).1
  unfolding delete_terminal_job Jobs.delete_job transaction
  delete-IsTraced id = lift_rule IsTraced db (authorize issue_certificate none current) _ h λ _ _.
      or_raise_rule IsTraced db (get_job id db) _ _ h λ job _.
        elim (Bool-cases (is_deletable job)) [
          | inl e ↦ rw e (removed-IsTraced db h id)
          | inr e ↦ rw e h
        ]

  create-IsTraced :
      (n : Names) (now : ℕ) (id host : String) (port : ℕ) (issuer_type : String)
      (identifiers : List (Option String)) (profile : String) (environment dns : Option String)
      (metadata : Details)
      → IsTraced
          (create_job current n now id host port issuer_type identifiers profile environment dns
            metadata db).1
  unfolding create_job Jobs.create_job transaction get_job
  create-IsTraced n now id host port issuer_type identifiers profile environment dns metadata =
      lift_rule IsTraced db (authorize issue_certificate none current) _ h λ _ _.
        lift_rule IsTraced db (normalize_identifiers n identifiers (issuer_type == "acme")) _ h
          λ normalized _. elim (Option-cases (find (has_id id) db.jobs)) [
            | inl e ↦ rw e (added-IsTraced db h _ e refl)
            | inr (j, e) ↦ rw e h
          ]

-- The loop of the recovery, whatever the ACME server answers.
recover_jobs-IsTraced :
    (current : Option (List Permission)) (now : ℕ) (reconcile : Reconcile current) (jobs : List Job)
    (db : Database)
    → IsTraced db
    → IsTraced (recover_jobs current now reconcile jobs db).1
unfolding recover_jobs recover_job
recover_jobs-IsTraced current now reconcile [] db h = h
recover_jobs-IsTraced current now reconcile (job ∷ jobs) db h =
    elim (Bool-cases (is_interrupted current job)) [
      | inr e ↦ rw e (recover_jobs-IsTraced current now reconcile jobs db h)
      | inl e ↦ rw e (
          lift_rule IsTraced db (reconcile job db) _ h λ decision _.
            bind_rule IsTraced (recover_job current now job decision db) _
              (transition-IsTraced current db h now job.id job.state job.version decision.0
                decision.1)
              λ _ _ k. recover_jobs-IsTraced current now reconcile jobs _ k)
    ]

-- a request to the service, with the permissions, the time and the id that it comes with
pub data Request : Type 0 where
  create :
      Option (List Permission)
      → Names
      → ℕ
      → String
      → String
      → ℕ
      → String
      → List (Option String)
      → String
      → Option String
      → Option String
      → Details
      → Request
  move : Option (List Permission) → ℕ → String → RenewalState → ℕ → RenewalState → Updates → Request
  abandon : Option (List Permission) → ℕ → String → Request
  remove : Option (List Permission) → String → Request
  recover :
      Option (List Permission) → ℕ → (Job → Database → Result (RenewalState × Updates)) → Request

unfoldable pub apply : Request → Database → Database
apply (create c n now id host port issuer_type identifiers profile environment dns metadata) db =
    (create_job c n now id host port issuer_type identifiers profile environment dns metadata db).1
apply (move c now id s v new us) db = (transition c now id s v new us db).1
apply (abandon c now id) db = (cancel c now id db).1
apply (remove c id) db = (delete_terminal_job c id db).1
apply (recover c now reconcile) db = (recover_interrupted_jobs c now reconcile db).1

pub apply-IsTraced : (r : Request) (db : Database) → IsTraced db → IsTraced (apply r db)
unfolding apply recover_interrupted_jobs
apply-IsTraced (create c n now id host port kind identifiers profile environment dns metadata) db
      h =
    create-IsTraced c db h n now id host port kind identifiers profile environment dns metadata
apply-IsTraced (move c now id s v new us) db h = transition-IsTraced c db h now id s v new us
apply-IsTraced (abandon c now id) db h = cancel-IsTraced c db h now id
apply-IsTraced (remove c id) db h = delete-IsTraced c db h id
apply-IsTraced (recover c now reconcile) db h =
    recover_jobs-IsTraced c now reconcile (list_jobs db) db h

pub empty-IsTraced : IsTraced empty
unfolding get_job list_events
empty-IsTraced = record {
  unique = λ i. unfold count in omega arith;
  traced = λ i j e. absurd (unfold find in cc e);
  orphans = λ i e. unfold select in refl;
}
