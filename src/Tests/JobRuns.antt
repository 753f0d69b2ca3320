-- ===== src/Tests/JobRuns.antt =====
-- The states of a job, and two requests that meet at one version of it.
use certmon.Prelude.{
  ℕ, ◌≤◌, ◌+◌, ◌≡◌, refl, ◌==◌, eq_iff, arith, String, none, some, [], ◌∷◌, count, find, length,
}
use certmon.Outcome.{ok, err, concurrent_update, invalid_transition}
use certmon.Models.{
  issuing, issued, failed, deployed, deployment_pending, cleanup_required, validate_transition,
}
use certmon.Models.Graph.{
  rank, Follows, Follows-bounded, Follows-way_out, way_out, last, validate-terminal,
}
use certmon.Db.{Job, Database}
use certmon.Db.Jobs.{has_id, get_job, transition_job, advance}
use certmon.Db.Jobs.Versions.{UniqueIds, transition_job_excludes}
use certmon.Tests.Data.{job, workshop}

Follows-bounded_example : rank issuing + 3 ≤ 7
unfolding Follows validate_transition
Follows-bounded_example =
    Follows-bounded issuing (issued ∷ deployment_pending ∷ deployed ∷ []) (refl, (refl, (refl, tt)))

Follows-way_out_example :
    Follows cleanup_required (way_out cleanup_required)
    × (last cleanup_required (way_out cleanup_required) ≡ deployed)
Follows-way_out_example = Follows-way_out cleanup_required refl

validate-terminal_example : validate_transition deployed failed ≡ err invalid_transition
validate-terminal_example = validate-terminal deployed failed refl

unique_workshop : UniqueIds workshop.jobs
unfolding count
unique_workshop id = ground (arith, eq_iff "j1" id)

abbrev done : Job
done = record job { state = issued; version = 4; updated_at = 20 }

first_request : (transition_job 20 "j1" issuing 3 issued [] workshop).0 ≡ ok (some done)
unfolding transition_job certmon.Db.Jobs.has_unsupported certmon.Db.Jobs.conditional_update
    certmon.Db.Jobs.row_check count certmon.Db.Jobs.breaks_reference get_job find
    certmon.Prelude.update advance
first_request = refl

transition_job_excludes_example :
    let db' = (transition_job 20 "j1" issuing 3 issued [] workshop).1 in
    transition_job 21 "j1" issuing 3 failed [] db' ≡ (err concurrent_update, db')
unfolding certmon.Db.Jobs.has_unsupported
transition_job_excludes_example =
    transition_job_excludes "j1" 3 20 21 issuing issuing issued failed [] [] workshop (some done)
      unique_workshop refl first_request
