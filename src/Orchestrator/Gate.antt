-- ===== src/Orchestrator/Gate.antt =====
-- The staging proof of the orchestrator (certmon/renewals.py), and where a clean-up leads.
use certmon.Prelude.{
  ℕ, suc, String, Bool, true, false, ◌≡◌, refl, ap, sym, eq_refl, eq_iff, find_passes, find-update,
  count-pos_of_find, count-and_found, count_congr, count, eqb, ◌∙◌, ◌&&◌, arith, Option, none, some,
  List, [], ◌∷◌, is_none, same_option,
}
use mathlib.Core.Path.{subst}
use certmon.Outcome.{Result, ok, err, staging_required, transaction, continue, pure, ◌>>◌}
use certmon.Permissions.{Permission, issue_certificate, authorize}
use certmon.Models.{same_state, draft, issuing, issued, cleanup_required}
use certmon.Db.{Database, Job, PresentedRecord, Setting, staging_proof}
use certmon.Db.Jobs.Versions.{UniqueIds, logged}
use certmon.Db.Jobs.{
  Updates, at_version, advance, transition_job, conditional_update, row_check, has_id, get_job,
  error_code, error_message, certificate_id,
}
use certmon.Db.Settings.{
  get_setting, put_setting, delete_setting, lookup-upsert, lookup, upsert, without, Settings,
}
use certmon.Renewals.{transition}
use certmon.Orchestrator.{
  CleanupResult, records_of, World, Services, Provider, on_database, job_in, load_presented,
  sorted_identifiers, cleanup_key, dns_key, proof_key,
}
use certmon.Orchestrator.Issuance.{record_proof, complete_issued, identifier_hash}
use certmon.Orchestrator.Flow.{
  lacks_proof, staging_gate, start_acme, retry_cleanup, retried, leave_cleanup,
}

found_upserted :
    (k j : String) (v : Setting) (m : Settings) → k ≡ j → is_none (lookup k (upsert j v m)) ≡ false
found_upserted k j v m e = rw (e, lookup-upsert, eq_refl) refl

and_false : (a b : Bool) → b ≡ false → (a && b) ≡ false
and_false a b e = ground (arith, e)

get_job-id : (id : String) (job : Job) (db : Database) → get_job id db ≡ some job → job.id ≡ id
unfolding get_job
get_job-id id job db found = (eq_iff job.id id).0 (find_passes (has_id id) db.jobs job found)

-- the updates that take the error of a job away
abbrev no_error : Updates
no_error = (error_code, none) ∷ (error_message, none) ∷ []

-- the job after a clean-up that leads to `issued`
abbrev pub issued_without_error : ℕ → Job → Job
issued_without_error now job = record job {
  state = issued;
  version = suc job.version;
  updated_at = now;
  error_code = none;
  error_message = none;
}

one_row :
    (id : String) (job : Job) (db : Database)
    → UniqueIds db.jobs
    → get_job id db ≡ some job
    → job.state ≡ cleanup_required
    → count (at_version id cleanup_required job.version) db.jobs ≡ 1
unfolding get_job
one_row id job db unique found waits =
    let rest : Job → Bool = λ x. same_state x.state cleanup_required && eqb x.version job.version in
    let one : count (has_id id) db.jobs ≡ 1 =
      omega (arith, unique id, count-pos_of_find (has_id id) db.jobs job found) in
    count_congr (at_version id cleanup_required job.version) (λ x. rest x && has_id id x)
      (λ x. ground arith) db.jobs
    ∙ (count-and_found rest (has_id id) db.jobs job one found ∙ (rw waits (ground arith)))

abbrev cleared_database : ℕ → String → Job → Database → Database
cleared_database now id job db = logged id cleanup_required job.version now issued no_error db

cleared_row :
    (now : ℕ) (id : String) (job : Job) (db : Database)
    → get_job id db ≡ some job
    → job.state ≡ cleanup_required
    → get_job id (cleared_database now id job db) ≡ some (issued_without_error now job)
unfolding get_job advance
cleared_row now id job db found waits =
    let hit : at_version id cleanup_required job.version job ≡ true =
      rw waits (ground (arith, find_passes (has_id id) db.jobs job found)) in
    find-update (has_id id) (at_version id cleanup_required job.version)
      (advance now issued no_error) (λ x. refl) db.jobs
    ∙ (rw (found, hit) refl)

module _ (current : Option (List Permission)) (s : Services) (now : ℕ) where
  -- A request that may issue certificates, for a stored ACME draft on production for whose names no
  -- staging proof is stored: `start_acme` raises `StagingRequired` before it registers, orders or
  -- writes anything.
  pub start_acme-gate :
      (id : String) (email : Option String) (agreed : Bool) (job : Job) (w : World)
      → authorize issue_certificate none current ≡ ok true
      → get_job id w.database ≡ some job
      → job.issuer_type ≡ "acme"
      → job.state ≡ draft
      → job.environment ≡ some "production"
      → get_setting (proof_key (identifier_hash current s now job.identifiers)) w.database ≡ none
      → start_acme current s now id email agreed w ≡ (err (staging_required job.id), w)
  unfolding start_acme job_in staging_gate
  start_acme-gate id email agreed job w allowed found acme fresh env lacks =
      rw (allowed, found, acme, fresh, env, lacks) refl

  -- the transition out of a clean-up, for the one row that it matches
  cleared_job :
      (id : String) (job : Job) (db : Database)
      → UniqueIds db.jobs
      → authorize issue_certificate none current ≡ ok true
      → get_job id db ≡ some job
      → job.state ≡ cleanup_required
      → transition current now id cleanup_required job.version issued no_error db
        ≡ (ok (some (issued_without_error now job)), cleared_database now id job db)
  unfolding transition transition_job conditional_update row_check
      certmon.Models.validate_transition certmon.Prelude.update certmon.Db.Jobs.has_unsupported
      certmon.Db.Jobs.breaks_reference
  cleared_job id job db unique allowed found waits =
      rw (allowed, one_row id job db unique found waits, cleared_row now id job db found waits) refl

  proof_of_names :
      (job other : Job) (certificate : String) (r : Option Job) (m : Result (Option Job) × World)
      → (continue
          (λ completed.
            on_database (delete_setting (dns_key job.id))
            >> (record_proof current s now job certificate >> pure completed))
          m).0
        ≡ ok r
      → same_option job.environment (some "staging") ≡ true
      → sorted_identifiers other.identifiers ≡ sorted_identifiers job.identifiers
      → lacks_proof current s now other
          (continue
            (λ completed.
              on_database (delete_setting (dns_key job.id))
              >> (record_proof current s now job certificate >> pure completed))
            m).1.database
        ≡ false
  unfolding record_proof put_setting get_setting delete_setting transaction
  proof_of_names job other certificate r (err e, w) done staging same = ground (arith, done)
  proof_of_names job other certificate r (ok o, w) done staging same = rw staging (
      and_false _ _ (
        found_upserted (proof_key (s.digest (sorted_identifiers other.identifiers)))
          (proof_key (s.digest (sorted_identifiers job.identifiers)))
          (staging_proof certificate job.identifiers) (without (dns_key job.id) w.database.settings)
          (ap (λ xs. proof_key (s.digest xs)) same)))

  -- Where the completion of a staging job returns, a proof is stored that opens the gate for every
  -- job whose names are the same once they are sorted, in whatever order it lists them.
  pub complete_issued-proof :
      (job other : Job) (certificate : String) (r : Option Job) (w : World)
      → (complete_issued current s now job certificate w).0 ≡ ok r
      → same_option job.environment (some "staging") ≡ true
      → sorted_identifiers other.identifiers ≡ sorted_identifiers job.identifiers
      → lacks_proof current s now other (complete_issued current s now job certificate w).1.database
        ≡ false
  unfolding complete_issued
  complete_issued-proof job other certificate r w done staging same =
      proof_of_names job other certificate r
        (on_database
          (transition current now job.id issuing job.version issued
            ((certificate_id, some certificate) ∷ []))
          w)
        done staging same

  -- a clean-up that succeeds is the transition to the target
  leaves_cleanup :
      (id : String) (job : Job) (provider : Provider) (w : World)
      → get_job id w.database ≡ some job
      → job.issuer_type ≡ "acme"
      → job.state ≡ cleanup_required
      → s.provider job.dns_provider ≡ some provider
      → ((rs : List PresentedRecord)
          → (r : CleanupResult) × ((provider.cleanup rs ≡ ok r) × (r.errors ≡ [])))
      → get_setting (cleanup_key job.id) w.database ≡ none
      → retry_cleanup current s now id w
        ≡ on_database (transition current now job.id cleanup_required job.version issued no_error) w
  unfolding retry_cleanup job_in load_presented retried leave_cleanup
  leaves_cleanup id job provider w found acme waits known cleans unset =
      let (r, (answered, clean)) =
        cleans
          (elim (records_of (get_setting (dns_key id) w.database)) [ none ↦ [] | some rs ↦ rs ]) in
      rw (found, acme, waits, known, answered, clean, unset) refl

  -- A request that may issue certificates, for a stored ACME job that waits for a clean-up, where its
  -- provider now cleans up without an error and no target is stored for the job: `retry_cleanup` moves
  -- the job to `issued` and returns it so. Its version is one higher, its error is gone, and the rest
  -- is as it was: a job without a certificate, of an order that failed, is issued without one. The ids
  -- of jobs are unique.
  pub retry_cleanup-issued :
      (id : String) (job : Job) (provider : Provider) (w : World)
      → UniqueIds w.database.jobs
      → authorize issue_certificate none current ≡ ok true
      → get_job id w.database ≡ some job
      → job.issuer_type ≡ "acme"
      → job.state ≡ cleanup_required
      → s.provider job.dns_provider ≡ some provider
      → ((rs : List PresentedRecord)
          → (r : CleanupResult) × ((provider.cleanup rs ≡ ok r) × (r.errors ≡ [])))
      → get_setting (cleanup_key job.id) w.database ≡ none
      → let done = issued_without_error now job in
        let (r, w') = retry_cleanup current s now id w in
        (r ≡ ok (some done)) × (get_job id w'.database ≡ some done)
  retry_cleanup-issued id job provider w unique allowed found acme waits known cleans unset =
      let same = get_job-id id job w.database found in
      let stored = subst (λ k. get_job k w.database ≡ some job) (sym same) found in
      rw
        (
          leaves_cleanup id job provider w found acme waits known cleans unset,
          cleared_job job.id job w.database unique allowed stored waits,
        )
        (
          refl,
          subst
              (λ k.
                get_job k (cleared_database now job.id job w.database)
                ≡ some (issued_without_error now job))
              same (cleared_row now job.id job w.database stored waits),
        )
