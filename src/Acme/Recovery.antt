-- ===== src/Acme/Recovery.antt =====
-- `recover_interrupted_jobs` (certmon/renewals.py) with the answers of `ACMEOrderService.reconcile`
-- (certmon/acme_service.py).
use certmon.Prelude.{
  ℕ, String, ◌≡◌, refl, ap, true, false, Option, none, some, List, [], ◌∷◌, ◌||◌, same_option,
  Bool-cases, inl, inr, ◌==◌,
}
use certmon.Outcome.{Result, ok, err, invalid_transition}
use certmon.Permissions.{Permission, issue_certificate, authorize}
use certmon.Models.{RenewalState, issuing, awaiting_dns, validate_transition}
use certmon.Db.{Job, Order, Account, Database}
use certmon.Db.Jobs.{Updates}
use certmon.Db.Settings.{get_setting}
use certmon.Renewals.{is_interrupted, recover_jobs}
use certmon.Renewals.Recovery.{recover_jobs-stops}
use certmon.Acme.{Acme, StatusAnswer}
use certmon.Acme.Accounts.{load}
use certmon.Acme.Orders.{
  order_key, order_of, reconcile, reconciled, stored_order, load_client, client_of,
}

-- the answer of the order service, as the recovery takes it
abbrev pub reconcile_with : Acme → ℕ → Job → Database → Result (RenewalState × Updates)
reconcile_with a now job db = (reconcile a now job db).0

module _ (current : Option (List Permission)) (a : Acme) (now : ℕ) (job : Job) (later : List Job)
    (db : Database) (allowed : authorize issue_certificate none current ≡ ok true)
    (acme : (job.issuer_type == "acme") ≡ true) (interrupted : job.state ≡ issuing) where
  is_waiting : is_interrupted current job ≡ true
  unfolding is_interrupted
  is_waiting = rw (acme, interrupted) refl

  stops_at :
      (target : RenewalState)
      → reconcile_with a now job db ≡ ok (target, [])
      → validate_transition issuing target ≡ err invalid_transition
      → recover_jobs current now (reconcile_with a now) (job ∷ later) db
        ≡ (err invalid_transition, db)
  stops_at target answered barred =
      recover_jobs-stops current now (reconcile_with a now) job later target [] db allowed
        is_waiting answered (rw interrupted barred)

  module _ (order : Order) (account : Account) (key : String) (answer : StatusAnswer)
      (ordered : order_of (get_setting (order_key job.id) db) ≡ some order)
      (loaded : load a order.environment db ≡ ok (some (account, key)))
      (asked : (a.order_client account key).get_order order.order_url ≡ ok answer) where
    has_order : stored_order a now job.id db ≡ (ok order, db)
    unfolding stored_order
    has_order = rw ordered refl

    has_client : load_client a now order.environment db ≡ (ok (a.order_client account key), db)
    unfolding load_client client_of
    has_client = rw loaded refl

    reconcile_whole : reconcile a now job db ≡ (reconciled a now answer, db)
    unfolding reconcile
    reconcile_whole = rw (has_order, has_client, asked) refl

    reconcile_lem : reconcile_with a now job db ≡ reconciled a now answer
    reconcile_lem = ap (λ m. m.0) reconcile_whole

    -- A job that was interrupted while it was being issued, with a stored order and account, for
    -- which the server answers any status but "invalid": the recovery raises `InvalidTransition` at
    -- this job, writes nothing for it, and leaves all later jobs.
    pub recover_jobs-issuing :
        same_option answer.status (some "invalid") ≡ false
        → recover_jobs current now (reconcile_with a now) (job ∷ later) db
          ≡ (err invalid_transition, db)
    unfolding reconciled validate_transition
    recover_jobs-issuing valid =
        elim (Bool-cases (
          same_option answer.status (some "ready")
          || same_option answer.status (some "processing"))) [
            | inl e ↦ stops_at issuing (rw reconcile_lem (rw (valid, e) refl)) refl
            | inr e ↦ elim (Bool-cases (same_option answer.status (some "valid"))) [
              | inl k ↦ stops_at issuing (rw reconcile_lem (rw (valid, e, k) refl)) refl
              | inr k ↦ stops_at awaiting_dns (rw reconcile_lem (rw (valid, e, k) refl)) refl
            ]
          ]
