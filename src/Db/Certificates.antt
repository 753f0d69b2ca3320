-- ===== src/Db/Certificates.antt =====
-- The table `certificates` of certmon/db.py, and the completion of a job with its certificate.
use certmon.Prelude.{
  ℕ, String, Bool, false, not, Option, none, some, [], ◌∷◌, ◌++◌, ◌==◌, is_none, find, delete,
  order_by, ltb, eqb, ◌&&◌, ◌||◌, List, true,
}
use Prim.Native.Nat.{Ordering}
use Prim.Native.String.{compare}
use certmon.Outcome.{integrity_error, raise_if, gets, modify, transaction, ◌>>=◌, ◌>>◌}
use certmon.Models.{RenewalState, issued}
use certmon.Db.{Job, Certificate, state_changed, Database, Query, Details}
use certmon.Db.Jobs
use certmon.Db.Jobs.{has_certificate_id, conditional_update, append_event, get_job}

unfoldable pub insert_certificate : ℕ → String → Details → Query Unit
insert_certificate now certificate_id metadata = do
  raise_if (← gets (λ db. not (is_none (find (has_certificate_id certificate_id) db.certificates))))
      integrity_error
  modify (λ db. record db {
    certificates =
        db.certificates
        ++ record { id = certificate_id; metadata = metadata; created_at = now } ∷ [];
  })

unfoldable pub put_certificate : ℕ → String → Details → Query Unit
unfolding transaction insert_certificate
put_certificate now certificate_id metadata =
    transaction (insert_certificate now certificate_id metadata)

unfoldable pub get_certificate : String → Database → Option Certificate
get_certificate certificate_id db = find (has_certificate_id certificate_id) db.certificates

unfoldable pub listed_before : Certificate → Certificate → Bool
listed_before a b =
    ltb a.created_at b.created_at
    || (eqb a.created_at b.created_at
        && elim (compare a.id b.id) [ Ordering.gt ↦ false | _ ↦ true ])

unfoldable pub list_certificates : Database → List Certificate
unfolding order_by listed_before
list_certificates db = order_by listed_before db.certificates

-- `certificate_id = ?` of a job
abbrev pub uses_certificate : String → Job → Bool
uses_certificate id j = elim j.certificate_id [ none ↦ false | some c ↦ c == id ]

-- A certificate that a job refers to is kept by the foreign key.
unfoldable pub delete_certificate : String → Query Unit
unfolding transaction
delete_certificate certificate_id = transaction (do
  raise_if
      (← gets (λ db.
        not (is_none (find (uses_certificate certificate_id) db.jobs))
        && not (is_none (find (has_certificate_id certificate_id) db.certificates))))
      integrity_error
  modify (λ db. record db {
    certificates = delete (has_certificate_id certificate_id) db.certificates;
  }))

-- One transaction stores the certificate, moves the job to `issued` and logs the change.
unfoldable pub complete_job_with_certificate :
    ℕ → String → RenewalState → ℕ → String → Details → Query (Option Job)
unfolding transaction append_event
complete_job_with_certificate now job_id expected_state expected_version certificate_id metadata =
    do
      transaction (do
        insert_certificate now certificate_id metadata
        conditional_update now job_id expected_state expected_version issued
            ((Jobs.certificate_id, some certificate_id) ∷ [])
        modify (append_event now (some job_id) (state_changed expected_state issued)))
      gets (get_job job_id)
