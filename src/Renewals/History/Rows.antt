-- ===== src/Renewals/History/Rows.antt =====
-- A new job begins its history, and a deleted job takes its events with it.
use certmon.Prelude.{
  ◌≤◌, String, Bool, true, false, ◌≡◌, refl, sym, ◌∙◌, Option, none, some, List, [], ◌∷◌, ◌++◌,
  ◌==◌, eq_iff, eq_refl, arith, find, count, delete, Bool-cases, Option-cases, inl, inr,
  select-delete_self, select-delete_other, find-delete_other, find-delete_self, count-delete-le,
  find-append_none, find-append, count-append,
}
use mathlib.Core.Path.{subst}
use native.Mathlib.Nat.{le_trans}
use certmon.Models.{draft}
use certmon.Db.{Job, Database}
use certmon.Db.Jobs.{has_id, of_job, get_job, list_events}
use certmon.Renewals.History.{IsTraced, replay}

count-eq-zero_of_find : (p : Job → Bool) (xs : List Job) → find p xs ≡ none → count p xs ≡ 0
unfolding find count
count-eq-zero_of_find p [] e = refl
count-eq-zero_of_find p (x ∷ xs) e = ground (arith, count-eq-zero_of_find p xs)

module _ (db : Database) (h : IsTraced db) (j : Job) (fresh : get_job j.id db ≡ none) where
  abbrev added : Database
  added = record db { jobs = db.jobs ++ j ∷ [] }

  found_own : get_job j.id added ≡ some j
  unfolding get_job find
  found_own = find-append_none (has_id j.id) db.jobs (j ∷ []) fresh ∙ (rw (eq_refl j.id))

  found_other : (i : String) → (j.id == i) ≡ false → get_job i added ≡ get_job i db
  unfolding get_job find
  found_other i other = elim (Option-cases (find (has_id i) db.jobs)) [
    | inl n ↦ find-append_none (has_id i) db.jobs (j ∷ []) n ∙ (rw (other, n))
    | inr (a, e) ↦ find-append (has_id i) db.jobs (j ∷ []) e ∙ sym e
  ]

  unique_own : count (has_id j.id) added.jobs ≤ 1
  unfolding count get_job
  unique_own = ground (
    arith,
    count-append (has_id j.id) db.jobs (j ∷ []),
    count-eq-zero_of_find (has_id j.id) db.jobs fresh,
  )

  unique_other : (i : String) → (j.id == i) ≡ false → count (has_id i) added.jobs ≤ 1
  unfolding count
  unique_other i other = ground (arith, count-append (has_id i) db.jobs (j ∷ []), h.unique i)

  traced_own :
      j.state ≡ draft
      → (k : Job) → get_job j.id added ≡ some k
      → replay draft (list_events j.id added) ≡ some k.state
  unfolding replay list_events
  traced_own begun k e =
      let same : k ≡ j = cc (e, found_own) in rw (h.orphans j.id fresh, same, begun) refl

  pub added-IsTraced : j.state ≡ draft → IsTraced added
  unfolding list_events
  added-IsTraced begun = record {
    unique = λ i. elim (Bool-cases (j.id == i)) [
      | inl p ↦ subst (λ k. count (has_id k) added.jobs ≤ 1) ((eq_iff j.id i).0 p) unique_own
      | inr p ↦ unique_other i p
    ];
    traced = λ i k. elim (Bool-cases (j.id == i)) [
      | inl p ↦
          subst (λ t. get_job t added ≡ some k → replay draft (list_events t added) ≡ some k.state)
            ((eq_iff j.id i).0 p) (traced_own begun k)
      | inr p ↦ λ e. h.traced i k (sym (found_other i p) ∙ e)
    ];
    orphans = λ i. elim (Bool-cases (j.id == i)) [
      | inl p ↦
          subst (λ t. get_job t added ≡ none → list_events t added ≡ []) ((eq_iff j.id i).0 p)
            (λ e. cc (e, found_own))
      | inr p ↦ λ e. h.orphans i (sym (found_other i p) ∙ e)
    ];
  }

apart :
    (i id : String) (o : Option String)
    → (id == i) ≡ false
    → elim o [ none ↦ false | some t ↦ t == id ] ≡ true
    → elim o [ none ↦ false | some t ↦ t == i ] ≡ false
apart i id none other h = cc
apart i id (some t) other h = ground (arith, eq_iff t id, eq_iff t i, eq_iff id i)

module _ (db : Database) (h : IsTraced db) (id : String) where
  abbrev removed : Database
  removed = record db { events = delete (of_job id) db.events; jobs = delete (has_id id) db.jobs }

  module _ (i : String) (other : (id == i) ≡ false) where
    kept_job : get_job i removed ≡ get_job i db
    unfolding get_job
    kept_job =
        find-delete_other (has_id i) (has_id id)
          (λ x m. ground (arith, eq_iff x.id id, eq_iff x.id i, eq_iff id i)) db.jobs

    kept_events : list_events i removed ≡ list_events i db
    unfolding list_events
    kept_events =
        select-delete_other (of_job i) (of_job id) (λ e m. apart i id e.job_id other m) db.events

  no_job : get_job id removed ≡ none
  unfolding get_job
  no_job = find-delete_self (has_id id) db.jobs

  no_events : list_events id removed ≡ []
  unfolding list_events
  no_events = select-delete_self (of_job id) db.events

  pub removed-IsTraced : IsTraced removed
  removed-IsTraced = record {
    unique = λ i. le_trans (count-delete-le (has_id i) (has_id id) db.jobs) (h.unique i);
    traced = λ i k. elim (Bool-cases (id == i)) [
      | inl p ↦
          subst
            (λ t. get_job t removed ≡ some k → replay draft (list_events t removed) ≡ some k.state)
            ((eq_iff id i).0 p) (λ e. cc (e, no_job))
      | inr p ↦ λ e. rw (kept_events i p) (h.traced i k (sym (kept_job i p) ∙ e))
    ];
    orphans = λ i. elim (Bool-cases (id == i)) [
      | inl p ↦
          subst (λ t. get_job t removed ≡ none → list_events t removed ≡ []) ((eq_iff id i).0 p)
            (λ e. no_events)
      | inr p ↦ λ e. rw (kept_events i p) (h.orphans i (sym (kept_job i p) ∙ e))
    ];
  }
