-- ===== src/Renewals/History/Notes.antt =====
-- Events that are not state changes, and updates that keep the state of a job, keep the histories.
use certmon.Prelude.{
  ℕ, String, false, ◌≡◌, sym, ap, Option, none, some, [], ◌∷◌, ◌++◌, ◌==◌, eq_iff, arith,
  if◌then◌else◌, find, select, Bool-cases, Option-cases, inl, inr, is_none, select-append,
  find-update, count-update_same,
}
use mathlib.Core.Option
use mathlib.Core.Path.{subst}
use mathlib.Core.List.{append-nil}
use certmon.Outcome.{transaction}
use certmon.Outcome.Rules.{raise_if_rule, settle_rule}
use certmon.Models.{RenewalState, draft}
use certmon.Db.{Job, Event, Details, noted, Database}
use certmon.Db.Jobs.{
  has_id, at_version, of_job, get_job, list_events, Updates, has_unsupported, advance, append_event,
  conditional_update, compare_and_set_job, record_event,
}
use certmon.Db.Jobs.Versions.{id-advance, same_state_iff, conditional_update-ok, updated}
use certmon.Renewals.History.{IsTraced, replay, replay-append, events-append}

module _ (now : ℕ) (kind : String) (details : Details) (db : Database) (h : IsTraced db) where
  unowned-IsTraced : IsTraced (append_event now none (noted kind details) db)
  unfolding get_job list_events append_event select
  unowned-IsTraced = record {
    unique = h.unique;
    traced = λ i j e.
        rw (select-append (of_job i) db.events _)
          (rw (append-nil (list_events i db)) (h.traced i j e));
    orphans = λ i e.
        rw (select-append (of_job i) db.events _)
          (rw (append-nil (list_events i db)) (h.orphans i e));
  }

  module _ (id : String) where
    abbrev after : Database
    after = append_event now (some id) (noted kind details) db

    note : Event
    note = record { job_id = some id; body = noted kind details; created_at = now }

    noted_events :
        (i : String) → list_events i after ≡ list_events i db ++ (if id == i then note ∷ [] else [])
    unfolding note
    noted_events i = events-append now id i (noted kind details) db

    noted_trace :
        (i : String) (s : RenewalState)
        → replay draft (list_events i db) ≡ some s
        → replay draft (list_events i after) ≡ some s
    unfolding note certmon.Renewals.History.step_state
    noted_trace i s e = elim (Bool-cases (id == i)) [
      | inl p ↦ rw (noted_events i, p) (replay-append draft s (list_events i db) note e)
      | inr p ↦ rw (noted_events i, p) (rw (append-nil (list_events i db)) e)
    ]

    other_orphan :
        (there : is_none (get_job id db) ≡ false) (i : String)
        → get_job i db ≡ none
        → list_events i after ≡ []
    other_orphan there i e = elim (Bool-cases (id == i)) [
      | inl p ↦
          absurd
            (ground (arith, subst (λ k. is_none (get_job k db) ≡ false) ((eq_iff id i).0 p) there))
      | inr p ↦ rw (noted_events i, p) (rw (append-nil (list_events i db)) (h.orphans i e))
    ]

    owned-IsTraced : is_none (get_job id db) ≡ false → IsTraced after
    unfolding get_job append_event
    owned-IsTraced there = record {
      unique = h.unique;
      traced = λ i j e. noted_trace i j.state (h.traced i j e);
      orphans = other_orphan there;
    }

  -- An audit event keeps every history.
  pub record_event-IsTraced :
      (id : Option String) → IsTraced (record_event now kind details id db).1
  unfolding record_event transaction get_job
  record_event-IsTraced none = unowned-IsTraced
  record_event-IsTraced (some id) = elim (Bool-cases (is_none (find (has_id id) db.jobs))) [
    | inl e ↦ rw e h
    | inr e ↦ rw e (owned-IsTraced id e)
  ]

-- An update that leaves the state of a job keeps every history.
module _ (now : ℕ) (id : String) (s : RenewalState) (v : ℕ) (us : Updates) (db : Database)
    (h : IsTraced db) where
  keeps_id : (i : String) (x : Job) → has_id i (advance now s us x) ≡ has_id i x
  keeps_id i x = ap (λ (t : String). t == i) (id-advance now s us x)

  row_after : Job → Job
  row_after x = if at_version id s v x then advance now s us x else x

  job_after :
      (i : String) → get_job i (updated id s v now s us db) ≡ Option.map row_after (get_job i db)
  unfolding get_job row_after
  job_after i = find-update (has_id i) (at_version id s v) (advance now s us) (keeps_id i) db.jobs

  state-row_after : (x : Job) → (row_after x).state ≡ x.state
  unfolding row_after advance
  state-row_after x = elim (Bool-cases (at_version id s v x)) [
    | inl e ↦ rw e (sym (same_state_iff x.state s (ground arith)))
    | inr e ↦ rw e
  ]

  state_after :
      (i : String) (j : Job)
      → get_job i (updated id s v now s us db) ≡ some j
      → replay draft (list_events i db) ≡ some j.state
  state_after i j e = elim (Option-cases (get_job i db)) [
    | inl n ↦ ground (arith, job_after i)
    | inr (a, found) ↦ ground (arith, job_after i, h.traced i a found, state-row_after a)
  ]

  updated-IsTraced : IsTraced (updated id s v now s us db)
  unfolding list_events
  updated-IsTraced = record {
    unique = λ i.
        rw
          (count-update_same (has_id i) (at_version id s v) (advance now s us) (keeps_id i) db.jobs)
          (h.unique i);
    traced = state_after;
    orphans = λ i e. h.orphans i (elim (Option-cases (get_job i db)) [
      | inl n ↦ n
      | inr (a, found) ↦ ground (arith, job_after i)
    ]);
  }

  pub compare_and_set_job-IsTraced : IsTraced (compare_and_set_job now id s v s us db).1
  unfolding compare_and_set_job transaction
  compare_and_set_job-IsTraced = raise_if_rule IsTraced db (has_unsupported us) _ _ h λ _.
      settle_rule IsTraced db (conditional_update now id s v s us db) h
        λ a e. rw (conditional_update-ok id s v now s us db a e).1 updated-IsTraced
