-- ===== src/Renewals/Recovery.antt =====
-- `recover_interrupted_jobs` of certmon/renewals.py, where an answer is no allowed transition.
use certmon.Prelude.{ℕ, ◌≡◌, refl, true, Option, none, List, ◌∷◌}
use certmon.Outcome.{ok, err, invalid_transition}
use certmon.Permissions.{Permission, issue_certificate, authorize}
use certmon.Models.{RenewalState, validate_transition}
use certmon.Db.{Job, Database}
use certmon.Db.Jobs.{Updates}
use certmon.Renewals.{Reconcile, is_interrupted, transition, recover_job, recover_jobs}

-- An interrupted job whose answer names a state that may not follow its own stops the recovery: the
-- loop raises `InvalidTransition` at that job, writes nothing for it, and leaves all later jobs.
pub recover_jobs-stops :
    (current : Option (List Permission)) (now : ℕ) (reconcile : Reconcile current) (job : Job)
    (later : List Job) (target : RenewalState) (updates : Updates) (db : Database)
    → authorize issue_certificate none current ≡ ok true
    → is_interrupted current job ≡ true
    → reconcile job db ≡ ok (target, updates)
    → validate_transition job.state target ≡ err invalid_transition
    → recover_jobs current now reconcile (job ∷ later) db ≡ (err invalid_transition, db)
unfolding recover_jobs recover_job transition
recover_jobs-stops current now reconcile job later target updates db allowed waits answer barred =
    rw (waits, answer, allowed, barred) refl
