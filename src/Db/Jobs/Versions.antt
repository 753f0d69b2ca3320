-- ===== src/Db/Jobs/Versions.antt =====
-- The optimistic lock of `renewal_jobs`: what a conditional update writes, and whom it shuts out.
use certmon.Prelude.{
  ℕ, ◌≤◌, String, Bool, true, false, ◌≡◌, refl, ◌∙◌, Option, some, List, [], ◌∷◌, ◌++◌, arith,
  count, update, Bool-cases, inl, inr, count-update_stale,
}
use certmon.Outcome.{Error, Result, ok, err, concurrent_update}
use certmon.Models.{RenewalState, same_state}
use certmon.Db.{Job, state_changed, Database}
use certmon.Db.Jobs.{
  has_id, at_version, get_job, Column, Updates, has_unsupported, assign, assign_all, advance,
  breaks_reference, row_check, conditional_update, transition_job,
}

-- the primary key of the table
abbrev pub UniqueIds : List Job → Type 0
UniqueIds jobs = (id : String) → count (has_id id) jobs ≤ 1

id-assign : (c : Column) (v : Option String) (j : Job) → (assign c v j).id ≡ j.id
unfolding assign
id-assign Column.certificate_id v j = refl
id-assign _ v j = refl

id-assign_all : (us : Updates) (j : Job) → (assign_all us j).id ≡ j.id
unfolding assign_all
id-assign_all [] j = refl
id-assign_all ((c, v) ∷ us) j = id-assign_all us (assign c v j) ∙ id-assign c v j

-- The updated row is the same job.
pub id-advance :
    (now : ℕ) (s : RenewalState) (us : Updates) (j : Job) → (advance now s us j).id ≡ j.id
unfolding advance
id-advance now s us j = id-assign_all us j

pub same_state_iff : (a b : RenewalState) → (same_state a b ≡ true) → a ≡ b
same_state_iff RenewalState.draft b h = ground arith
same_state_iff _ b h = ground arith

module _ (id : String) (s : RenewalState) (v now : ℕ) (new : RenewalState) (us : Updates) where
  abbrev pub step : Job → Job
  step = advance now new us

  at_version_id : (t : RenewalState) (j : Job) → at_version id t v j ≡ true → has_id id j ≡ true
  at_version_id t j h = ground arith

  stale_row :
      (t : RenewalState) (j : Job) → at_version id s v j ≡ true → at_version id t v (step j) ≡ false
  unfolding advance
  stale_row t j h = ground arith

  -- After the update no row of the job has the expected version, in whatever state.
  stale_after :
      (t : RenewalState) (xs : List Job)
      → count (has_id id) xs ≤ 1
      → count (at_version id s v) xs ≡ 1
      → count (at_version id t v) (update (at_version id s v) step xs) ≡ 0
  stale_after t xs =
      count-update_stale (has_id id) (at_version id s v) (at_version id t v) step (at_version_id s)
        (at_version_id t) (stale_row t) xs

  module _ (db : Database) where
    abbrev pub matched : ℕ
    matched = count (at_version id s v) db.jobs

    abbrev pub updated : Database
    updated = record db { jobs = update (at_version id s v) step db.jobs }

    abbrev broken : Bool
    broken = breaks_reference us db.certificates

    row_check_ok : (m : ℕ) (b : Bool) (a : Unit {0}) → row_check m b ≡ ok a → m ≡ 1
    unfolding row_check
    row_check_ok m b a h = ground arith

    conditional_update_checked :
        (r : Result (Unit {0}))
        → row_check matched broken ≡ r
        → (a : Unit {0}) → (conditional_update now id s v new us db).0 ≡ ok a
        → (matched ≡ 1) × ((conditional_update now id s v new us db).1 ≡ updated)
    unfolding conditional_update
    conditional_update_checked (ok _) e a h = (row_check_ok matched broken tt e, rw e)
    conditional_update_checked (err _) e a h = absurd (cc (rw e at h))

    -- A conditional update that succeeds has changed exactly one row.
    pub conditional_update-ok :
        (a : Unit {0})
        → (conditional_update now id s v new us db).0 ≡ ok a
        → (matched ≡ 1) × ((conditional_update now id s v new us db).1 ≡ updated)
    conditional_update-ok = conditional_update_checked (row_check matched broken) refl

    -- No matching row: the update is refused and nothing is written.
    pub conditional_update_stale :
        matched ≡ 0 → conditional_update now id s v new us db ≡ (err concurrent_update, db)
    unfolding conditional_update row_check
    conditional_update_stale h = rw h refl

    -- the state change that a transition logs
    abbrev pub logged : Database
    logged = record updated {
      events =
          db.events
          ++ record { job_id = some id; body = state_changed s new; created_at = now } ∷ [];
    }

    transition_checked :
        (r : Result (Unit {0}))
        → row_check matched broken ≡ r
        → (o : Option Job) → (transition_job now id s v new us db).0 ≡ ok o
        → (matched ≡ 1)
          × ((transition_job now id s v new us db).1 ≡ logged)
          × (o ≡ get_job id logged)
    unfolding transition_job conditional_update
    transition_checked (ok _) e o h = elim (Bool-cases (has_unsupported us)) [
      | inl u ↦ absurd (cc (rw u at h))
      | inr u ↦ (row_check_ok matched broken tt e, rw (u, e), cc (rw (u, e) at h))
    ]
    transition_checked (err x) e o h = elim (Bool-cases (has_unsupported us)) [
      | inl u ↦ absurd (cc (rw u at h))
      | inr u ↦ absurd (cc (rw (u, e) at h))
    ]

    atomic_checked :
        (r : Result (Unit {0}))
        → row_check matched broken ≡ r
        → has_unsupported us ≡ false
        → {e : Error} → (transition_job now id s v new us db).0 ≡ err e
        → (transition_job now id s v new us db).1 ≡ db
    unfolding transition_job conditional_update
    atomic_checked (ok _) e u h = absurd (cc (rw (u, e) at h))
    atomic_checked (err x) e u h = rw (u, e)

    -- A transition that succeeds has changed exactly one row and logged the change, and returns the
    -- job as it now is.
    pub transition_job-ok :
        (o : Option Job)
        → (transition_job now id s v new us db).0 ≡ ok o
        → (matched ≡ 1)
          × ((transition_job now id s v new us db).1 ≡ logged)
          × (o ≡ get_job id logged)
    transition_job-ok = transition_checked (row_check matched broken) refl

    transition_job_stale :
        matched ≡ 0
        → has_unsupported us ≡ false
        → transition_job now id s v new us db ≡ (err concurrent_update, db)
    unfolding transition_job
    transition_job_stale h u = rw (u, conditional_update_stale h)

    -- A transition that raises leaves the database as it was.
    pub transition_job_atomic :
        (e : Error)
        → (transition_job now id s v new us db).0 ≡ err e
        → (transition_job now id s v new us db).1 ≡ db
    unfolding transition_job conditional_update
    transition_job_atomic e h = elim (Bool-cases (has_unsupported us)) [
      | inl u ↦ rw u
      | inr u ↦ atomic_checked (row_check matched broken) refl u h
    ]

-- Two requests that read the same version of a job: once the transition of one has succeeded, that
-- of the other, from whatever state to whatever state, raises `ConcurrentUpdateError` and writes
-- nothing. The ids of jobs are unique, and the other request updates supported columns only.
pub transition_job_excludes :
    (id : String) (v : ℕ) (now later : ℕ) (s t new other : RenewalState) (us ws : Updates)
    (db : Database) (o : Option Job)
    → UniqueIds db.jobs
    → has_unsupported ws ≡ false
    → (transition_job now id s v new us db).0 ≡ ok o
    → let db' = (transition_job now id s v new us db).1 in
      transition_job later id t v other ws db' ≡ (err concurrent_update, db')
transition_job_excludes id v now later s t new other us ws db o unique supported h =
    let (one, after, _) = transition_job-ok id s v now new us db o h in
    rw after (
      transition_job_stale id t v later other ws (logged id s v now new us db)
        (stale_after id s v now new us t db.jobs (unique id) one) supported)
