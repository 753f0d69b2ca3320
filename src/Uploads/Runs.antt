-- ===== src/Uploads/Runs.antt =====
-- What `UploadQueueService.finish` leaves in the database.
use certmon.Prelude.{
  ◌&&◌, none, some, ℕ, String, Bool, true, false, ◌≡◌, refl, ap, sym, ◌∙◌, ◌==◌, eq_iff, eq_refl,
  ◌||◌, arith, List, [], ◌∷◌, ◌++◌, if◌then◌else◌, contains, Bool-cases, inl, inr,
}
use mathlib.Core.List.{append-nil}
use certmon.Outcome.{ok, transaction}
use certmon.Db.{names, AuditEvent, Database, null, text}
use certmon.Db.Settings.{Settings, upsert, get_setting, put_setting, lookup-upsert}
use certmon.Db.Audit.{record_audit_event, append_audit}
use certmon.Audit.{record_event, redact, is_sensitive}
use certmon.Uploads.{
  Outcome, completed_key, recorded_runs_key, completed, recorded_runs, listed, add_sorted,
  sorted_set, successful, record_outcomes, hide_successful, record_run, record_new, finish,
  outcome_details,
}

contains-add_sorted :
    (c a : String) (xs : List String) → contains c (add_sorted a xs) ≡ (c == a || contains c xs)
unfolding add_sorted
contains-add_sorted c a [] = refl
contains-add_sorted c a (x ∷ xs) =
    ground (arith, eq_iff a x, eq_iff c a, eq_iff c x, contains-add_sorted c a xs)

contains-sorted_set : (c : String) (xs : List String) → contains c (sorted_set xs) ≡ contains c xs
unfolding sorted_set
contains-sorted_set c [] = refl
contains-sorted_set c (x ∷ xs) =
    rw (contains-add_sorted c x (sorted_set xs), contains-sorted_set c xs) refl

contains-append :
    (c : String) (xs ys : List String) → contains c (xs ++ ys) ≡ (contains c xs || contains c ys)
contains-append c [] ys = refl
contains-append c (x ∷ xs) ys = ground (arith, contains-append c xs ys)

hides :
    (c : String) (hide : Bool) (xs ys : List String)
    → contains c (if hide then sorted_set (xs ++ ys) else xs)
      ≡ (contains c xs || (hide && contains c ys))
hides c true xs ys = rw (contains-sorted_set, contains-append) refl
hides c false xs ys = ground arith

append-snoc : (xs ys : List AuditEvent) (x : AuditEvent) → (xs ++ x ∷ []) ++ ys ≡ xs ++ x ∷ ys
append-snoc [] ys x = refl
append-snoc (y ∷ xs) ys x = ap (λ l. y ∷ l) (append-snoc xs ys x)

-- whether an upload of the certificate `c` is among the outcomes that succeeded
abbrev pub has_succeeded : String → List Outcome → Bool
has_succeeded c [] = false
has_succeeded c (o ∷ os) = (o.ok && c == o.certificate_id) || has_succeeded c os

contains-successful :
    (c : String) (os : List Outcome) → contains c (successful os) ≡ has_succeeded c os
unfolding successful
contains-successful c [] = refl
contains-successful c (o ∷ os) = ground (arith, contains-successful c os)

-- the event that stands for an outcome in the audit log
abbrev pub event_of : ℕ → String → String → Outcome → AuditEvent
event_of now method run_id o = record {
  event_type = if o.ok then "certificate_upload_succeeded" else "certificate_upload_failed";
  username = none;
  source_ip = none;
  target = some o.selector;
  success = o.ok;
  details =
      ("method", text method)
      ∷ ("run_id", text run_id)
      ∷ ("certificate_id", text o.certificate_id)
      ∷ ("result", text o.status)
      ∷ ("nic", elim o.nic [ none ↦ null | some nic ↦ text nic ])
      ∷ [];
  created_at = now;
}

abbrev pub events_of : ℕ → String → String → List Outcome → List AuditEvent
events_of now method run_id [] = []
events_of now method run_id (o ∷ os) = event_of now method run_id o ∷ events_of now method run_id os

redact-outcome_details :
    (now : ℕ) (method run_id : String) (o : Outcome)
    → redact (outcome_details method run_id o) ≡ (event_of now method run_id o).details
unfolding redact is_sensitive
redact-outcome_details now method run_id o = elim o.nic [ none ↦ refl | some nic ↦ refl ]

module _ (now : ℕ) (method run_id : String) where
  -- The loop writes to the audit table only.
  record_outcomes_lem :
      (os : List Outcome) (db : Database)
      → let m = record_outcomes now method run_id os db in
        (m.0 ≡ ok tt)
        × (m.1.settings ≡ db.settings)
        × (m.1.audit_events ≡ db.audit_events ++ events_of now method run_id os)
  unfolding record_outcomes record_event record_audit_event transaction append_audit
  record_outcomes_lem [] db = (refl, refl, sym (append-nil db.audit_events))
  record_outcomes_lem (o ∷ os) db =
      let one =
        (record_event now
          (if o.ok then "certificate_upload_succeeded" else "certificate_upload_failed") none none
          (some o.selector) o.ok (outcome_details method run_id o) db).1 in
      let (returns, keeps, counts) = record_outcomes_lem os one in
      (
        returns,
        keeps,
        counts
            ∙ (append-snoc db.audit_events _ _
                ∙ ap
                    (λ d.
                      db.audit_events
                      ++ record (event_of now method run_id o) { details = d }
                        ∷ events_of now method run_id os)
                    (redact-outcome_details now method run_id o)),
      )

  abbrev audited : List Outcome → Database → Database
  audited os db = (record_outcomes now method run_id os db).1

  record_outcomes_returns :
      (os : List Outcome) (db : Database)
      → record_outcomes now method run_id os db ≡ (ok tt, audited os db)
  record_outcomes_returns os db = ap (λ r. (r, audited os db)) (record_outcomes_lem os db).0

  -- the settings that a new run leaves
  abbrev hidden_in : Bool → List Outcome → Database → Settings
  hidden_in false os db = db.settings
  hidden_in true os db =
      upsert completed_key (names (sorted_set (completed db ++ successful os))) db.settings

  record_run_lem :
      (os : List Outcome) (hide : Bool) (recorded : List String) (db : Database)
      → let m = record_run now method run_id os hide recorded db in
        (m.0 ≡ ok tt)
        × (m.1.settings
            ≡ upsert recorded_runs_key (names (recorded ++ run_id ∷ [])) (hidden_in hide os db))
        × (m.1.audit_events ≡ (audited os db).audit_events)
  unfolding record_run hide_successful put_setting transaction completed get_setting
  record_run_lem os false recorded db =
      rw record_outcomes_returns (refl, rw (record_outcomes_lem os db).1 refl, refl)
  record_run_lem os true recorded db =
      rw record_outcomes_returns (refl, rw (record_outcomes_lem os db).1 refl, refl)

  finish_new :
      (os : List Outcome) (hide : Bool) (db : Database)
      → contains run_id (recorded_runs db) ≡ false
      → finish now method run_id os hide db
        ≡ record_run now method run_id os hide (recorded_runs db) db
  unfolding finish record_new
  finish_new os hide db e = rw e refl

  finish_again :
      (os : List Outcome) (hide : Bool) (db : Database)
      → contains run_id (recorded_runs db) ≡ true
      → finish now method run_id os hide db ≡ (ok tt, db)
  unfolding finish record_new
  finish_again os hide db e = rw e refl

  recorded_runs-record_run :
      (os : List Outcome) (hide : Bool) (recorded : List String) (db : Database)
      → recorded_runs (record_run now method run_id os hide recorded db).1 ≡ recorded ++ run_id ∷ []
  unfolding recorded_runs get_setting listed
  recorded_runs-record_run os hide recorded db =
      rw ((record_run_lem os hide recorded db).1, lookup-upsert) refl

  completed-record_run :
      (os : List Outcome) (hide : Bool) (recorded : List String) (db : Database)
      → completed (record_run now method run_id os hide recorded db).1
        ≡ (if hide then sorted_set (completed db ++ successful os) else completed db)
  unfolding completed get_setting listed
  completed-record_run os true recorded db =
      rw ((record_run_lem os true recorded db).1, lookup-upsert, lookup-upsert) refl
  completed-record_run os false recorded db =
      rw ((record_run_lem os false recorded db).1, lookup-upsert) refl

  records_run :
      (os : List Outcome) (hide : Bool) (db : Database)
      → contains run_id (recorded_runs (finish now method run_id os hide db).1) ≡ true
  records_run os hide db = elim (Bool-cases (contains run_id (recorded_runs db))) [
    | inl e ↦ rw (finish_again os hide db e) e
    | inr e ↦ rw (finish_new os hide db e) (
        rw (recorded_runs-record_run os hide (recorded_runs db) db, contains-append, eq_refl)
          (ground (arith, e)))
  ]

-- A run is recorded once: whatever `finish` was called with, a later call with the same run id
-- returns and changes nothing, for any outcomes, upload method, time and choice to hide.
pub finish_once :
    (run_id : String) (now now' : ℕ) (method method' : String) (os os' : List Outcome)
    (hide hide' : Bool) (db : Database)
    → let db' = (finish now method run_id os hide db).1 in
      finish now' method' run_id os' hide' db' ≡ (ok tt, db')
finish_once run_id now now' method method' os os' hide hide' db =
    finish_again now' method' run_id os' hide' _ (records_run now method run_id os hide db)

-- A run id that is not recorded yet: `finish` returns, and the audit log gains one event for each
-- outcome, in their order and at its end: whether the upload succeeded as its type and its flag, the
-- device as its target, and the method, the run, the certificate, the result and the interface as its
-- details, none of them redacted.
pub finish-audits :
    (run_id : String) (now : ℕ) (method : String) (os : List Outcome) (hide : Bool) (db : Database)
    → contains run_id (recorded_runs db) ≡ false
    → ((finish now method run_id os hide db).0 ≡ ok tt)
      × ((finish now method run_id os hide db).1.audit_events
          ≡ db.audit_events ++ events_of now method run_id os)
finish-audits run_id now method os hide db e =
    let (returns, _, events) = record_run_lem now method run_id os hide (recorded_runs db) db in
    rw (finish_new now method run_id os hide db e)
      (returns, rw events (record_outcomes_lem now method run_id os db).2)

-- A run id that is not recorded yet, and a call that hides what succeeded: a certificate is hidden
-- after it exactly if it was hidden before or belongs to an outcome that succeeded. A call that does
-- not ask for it hides what was hidden before and no more.
pub finish-completed :
    (run_id : String) (now : ℕ) (method : String) (os : List Outcome) (hide : Bool) (db : Database)
    (c : String)
    → contains run_id (recorded_runs db) ≡ false
    → contains c (completed (finish now method run_id os hide db).1)
      ≡ (contains c (completed db) || (hide && has_succeeded c os))
finish-completed run_id now method os hide db c e =
    rw
      (
        finish_new now method run_id os hide db e,
        completed-record_run now method run_id os hide (recorded_runs db) db,
        sym (contains-successful c os),
      )
      (hides c hide (completed db) (successful os))
