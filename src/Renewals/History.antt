-- ===== src/Renewals/History.antt =====
-- The events of a job replay to its state.
pub mod Rows
pub mod Notes
pub mod Service
use certmon.Prelude.{
  ℕ, ◌≤◌, String, Bool, true, false, not, ◌&&◌, ◌≡◌, ◌≢◌, refl, sym, ap, ◌∙◌, Option, none, some,
  List, [], ◌∷◌, ◌++◌, ◌==◌, eq_iff, eq_refl, arith, if◌then◌else◌, find, count, select, update,
  delete, Bool-cases, Option-cases, inl, inr, is_none, select-append, select-delete_self,
  select-delete_other, find-delete_other, find-delete_self, count-delete-le, find-update,
  count-update_same, find_passes, find-append_none, find-append, count-append, unique_found,
  found_of_count, count-pos_of_find,
}
use mathlib.Core.Option
use mathlib.Core.Path.{subst}
use certmon.Outcome.{Result, ok, err}
use mathlib.Core.List.{append-nil}
use certmon.Models.{RenewalState, draft, same_state, validate_transition}
use certmon.Db.{Job, Event, EventBody, state_changed, noted, Database}
use certmon.Db.Jobs
use certmon.Db.Jobs.{
  has_id, at_version, of_job, get_job, list_events, Updates, advance, append_event,
}
use certmon.Db.Jobs.Versions.{UniqueIds, transition_job-ok, id-advance, same_state_iff, logged}

abbrev pub is_ok : Result (Unit {0}) → Bool
is_ok (ok _) = true
is_ok (err _) = false

-- A change starts from the state before it and is allowed; other events change nothing.
unfoldable pub step_state : RenewalState → EventBody → Option RenewalState
step_state s (state_changed from to) =
    if same_state from s && is_ok (validate_transition from to) then some to else none
step_state s (noted kind details) = some s

-- the state that the events lead to
unfoldable pub replay : RenewalState → List Event → Option RenewalState
replay s [] = some s
replay s (e ∷ es) = elim (step_state s e.body) [ none ↦ none | some t ↦ replay t es ]

pub record IsTraced (db : Database) : Type 0 where
  pub unique : UniqueIds db.jobs
  pub traced :
      (id : String) (j : Job)
      → get_job id db ≡ some j
      → replay draft (list_events id db) ≡ some j.state
  pub orphans : (id : String) → get_job id db ≡ none → list_events id db ≡ []

-- One more event is one more step after the replay.
pub replay-append :
    (s t : RenewalState) (es : List Event) (e : Event)
    → replay s es ≡ some t
    → replay s (es ++ e ∷ []) ≡ step_state t e.body
unfolding replay
replay-append s t [] e h = ground arith
replay-append s t (f ∷ es) e h = elim (Option-cases (step_state s f.body)) [
  | inl n ↦ ground arith
  | inr (u, p) ↦ ground (arith, replay-append u t es e)
]

step_state-change :
    (from to : RenewalState)
    → validate_transition from to ≡ ok tt
    → step_state from (state_changed from to) ≡ some to
unfolding step_state
step_state-change from to v = rw v (ground arith)

pub events-append :
    (now : ℕ) (id i : String) (body : EventBody) (db : Database)
    → list_events i (append_event now (some id) body db)
      ≡ list_events i db
        ++ (if id == i then record { job_id = some id; body = body; created_at = now } ∷ [] else [])
unfolding list_events append_event select
events-append now id i body db = select-append (of_job i) db.events _

-- A transition keeps every history: that of its job grows by one allowed step, others stay.
module _ (now : ℕ) (id : String) (s : RenewalState) (v : ℕ) (new : RenewalState) (us : Updates)
    (db : Database) (h : IsTraced db) (one : count (at_version id s v) db.jobs ≡ 1)
    (valid : validate_transition s new ≡ ok tt) where
  abbrev after : Database
  after = logged id s v now new us db

  keeps_id : (i : String) (x : Job) → has_id i (advance now new us x) ≡ has_id i x
  keeps_id i x = ap (λ (t : String). t == i) (id-advance now new us x)

  job_after :
      (i : String)
      → get_job i after
        ≡ Option.map (λ x. if at_version id s v x then advance now new us x else x) (get_job i db)
  unfolding get_job
  job_after i = find-update (has_id i) (at_version id s v) (advance now new us) (keeps_id i) db.jobs

  -- the row that is updated
  updated_row : (a : Job) → get_job id db ≡ some a → at_version id s v a ≡ true
  unfolding get_job
  updated_row a found =
      unique_found (has_id id) (at_version id s v) (λ x m. ground arith) db.jobs a (h.unique id) one
        found

  own_events :
      list_events id after
      ≡ list_events id db
        ++ record { job_id = some id; body = state_changed s new; created_at = now } ∷ []
  unfolding append_event list_events
  own_events = events-append now id id (state_changed s new) db ∙ (rw (eq_refl id))

  own_history : (a : Job) → get_job id db ≡ some a → replay draft (list_events id after) ≡ some new
  own_history a found =
      let same : a.state ≡ s = same_state_iff a.state s (ground (arith, updated_row a found)) in
      rw own_events (
        replay-append draft s (list_events id db) _ (h.traced id a found ∙ ap some same)
        ∙ step_state-change s new valid)

  own_state : (a j : Job) → get_job id db ≡ some a → get_job id after ≡ some j → j.state ≡ new
  unfolding advance
  own_state a j found e = ground (arith, job_after id, updated_row a found)

  module _ (i : String) (other : (id == i) ≡ false) where
    other_events : list_events i after ≡ list_events i db
    unfolding append_event list_events
    other_events =
        events-append now id i (state_changed s new) db ∙ (rw other (append-nil (list_events i db)))

    other_job : get_job i after ≡ get_job i db
    other_job = elim (Option-cases (get_job i db)) [
      | inl n ↦ ground (arith, job_after i)
      | inr (a, found) ↦ ground (
        arith,
        job_after i,
        find_passes (has_id i) db.jobs a (unfold get_job in found),
        eq_iff a.id i,
        eq_iff a.id id,
        eq_iff id i,
      )
    ]

  job_found : (a : Unit {0}) → get_job id db ≢ none
  unfolding get_job
  job_found a = found_of_count (has_id id) (at_version id s v) (λ x m. ground arith) db.jobs one

  traced_own :
      (j : Job) → get_job id after ≡ some j → replay draft (list_events id after) ≡ some j.state
  traced_own j e = elim (Option-cases (get_job id db)) [
    | inl n ↦ absurd (job_found tt n)
    | inr (a, found) ↦ own_history a found ∙ ap some (sym (own_state a j found e))
  ]

  logged-IsTraced : IsTraced after
  logged-IsTraced = record {
    unique = λ i.
        rw
          (count-update_same (has_id i) (at_version id s v) (advance now new us) (keeps_id i)
            db.jobs)
          (h.unique i);
    traced = λ i j. elim (Bool-cases (id == i)) [
      | inl p ↦
          subst (λ k. get_job k after ≡ some j → replay draft (list_events k after) ≡ some j.state)
            ((eq_iff id i).0 p) (traced_own j)
      | inr p ↦ λ e. rw (other_events i p) (h.traced i j (sym (other_job i p) ∙ e))
    ];
    orphans = λ i. elim (Bool-cases (id == i)) [
      | inl p ↦
          subst (λ k. get_job k after ≡ none → list_events k after ≡ []) ((eq_iff id i).0 p)
            (λ e. absurd (job_found tt (ground (arith, job_after id))))
      | inr p ↦ λ e. rw (other_events i p) (h.orphans i (sym (other_job i p) ∙ e))
    ];
  }
