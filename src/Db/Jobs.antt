-- ===== src/Db/Jobs.antt =====
-- The tables `renewal_jobs` and `events` of certmon/db.py.
pub mod Versions
use Prim.Native.Nat.{Ordering}
use Prim.Native.String.{compare}
use certmon.Prelude.{
  ℕ, suc, String, Bool, true, false, not, ◌&&◌, ◌||◌, Option, none, some, List, [], ◌∷◌, ◌++◌, ◌==◌,
  if◌then◌else◌, is_none, find, count, update, delete, select, order_by, ltb, eqb,
}
use certmon.Outcome.{
  Result, ok, err, lift, integrity_error, concurrent_update, value_error, raise_if, gets, modify,
  transaction, ◌>>=◌, ◌>>◌,
}
use certmon.Models.{RenewalState, same_state}
use certmon.Db.{Job, Event, EventBody, state_changed, noted, Certificate, Database, Query, Details}

abbrev pub has_id : String → Job → Bool
has_id job_id j = j.id == job_id

-- `WHERE id = ? AND state = ? AND version = ?`
abbrev pub at_version : String → RenewalState → ℕ → Job → Bool
at_version job_id state version j =
    has_id job_id j && (same_state j.state state && eqb j.version version)

abbrev pub of_job : String → Event → Bool
of_job job_id e = elim e.job_id [ none ↦ false | some id ↦ id == job_id ]

abbrev pub has_certificate_id : String → Certificate → Bool
has_certificate_id id c = c.id == id

-- `get_job`
unfoldable pub get_job : String → Database → Option Job
get_job job_id db = find (has_id job_id) db.jobs

-- A known id is refused by the primary key.
unfoldable pub create_job :
    ℕ
    → String
    → String
    → ℕ
    → String
    → RenewalState
    → List String
    → String
    → Option String
    → Option String
    → Details
    → Query Unit
unfolding transaction
create_job now job_id host port issuer_type state identifiers profile environment dns metadata =
    transaction (do
      raise_if (← gets (λ db. not (is_none (find (has_id job_id) db.jobs)))) integrity_error
      modify (λ db. record db {
        jobs =
            db.jobs
            ++ record {
              id = job_id;
              endpoint_host = host;
              endpoint_port = port;
              issuer_type = issuer_type;
              state = state;
              version = 0;
              identifiers = identifiers;
              profile = profile;
              environment = environment;
              dns_provider = dns;
              certificate_id = none;
              error_code = none;
              error_message = none;
              metadata = metadata;
              created_at = now;
              updated_at = now;
            }
              ∷ [];
      }))

-- the keys of `updates`; `unsupported` is any key outside the allowed set
pub data Column : Type 0 where
  certificate_id error_code error_message environment dns_provider unsupported : Column

abbrev pub Updates : Type 0
Updates = List (Column × Option String)

abbrev is_unsupported : Column → Bool
is_unsupported unsupported = true
is_unsupported _ = false

unfoldable pub has_unsupported : Updates → Bool
has_unsupported [] = false
has_unsupported ((c, _) ∷ us) = is_unsupported c || has_unsupported us

unfoldable pub assign : Column → Option String → Job → Job
assign certificate_id v j = record j { certificate_id = v }
assign error_code v j = record j { error_code = v }
assign error_message v j = record j { error_message = v }
assign environment v j = record j { environment = v }
assign dns_provider v j = record j { dns_provider = v }
assign unsupported v j = j

unfoldable pub assign_all : Updates → Job → Job
unfolding assign
assign_all [] j = j
assign_all ((c, v) ∷ us) j = assign_all us (assign c v j)

-- the row after `SET state = ?, version = version + 1, updated_at = ?, …`
unfoldable pub advance : ℕ → RenewalState → Updates → Job → Job
unfolding assign_all
advance now new_state updates j = record (assign_all updates j) {
  state = new_state;
  version = suc j.version;
  updated_at = now;
}

-- The foreign key of `certificate_id` fails for a certificate that is not stored.
unfoldable pub breaks_reference : Updates → List Certificate → Bool
breaks_reference [] cs = false
breaks_reference ((certificate_id, some id) ∷ us) cs =
    is_none (find (has_certificate_id id) cs) || breaks_reference us cs
breaks_reference (_ ∷ us) cs = breaks_reference us cs

-- the UPDATE that `compare_and_set_job` and `transition_job` share, with its row count tested
-- A broken reference fails at the UPDATE, a row count other than one after it.
unfoldable pub row_check : ℕ → Bool → Result Unit
row_check matched broken =
    if not (eqb matched 0) && broken
    then err integrity_error
    else if eqb matched 1
    then ok tt
    else err concurrent_update

unfoldable pub conditional_update :
    ℕ → String → RenewalState → ℕ → RenewalState → Updates → Query Unit
conditional_update now job_id expected_state expected_version new_state updates = do
  let matches = at_version job_id expected_state expected_version
  checked ←
      gets (λ db. row_check (count matches db.jobs) (breaks_reference updates db.certificates))
  lift checked
  modify (λ db. record db { jobs = update matches (advance now new_state updates) db.jobs })

unfoldable pub append_event : ℕ → Option String → EventBody → Database → Database
append_event now job_id body db = record db {
  events = db.events ++ record { job_id = job_id; body = body; created_at = now } ∷ [];
}

unfoldable pub compare_and_set_job :
    ℕ → String → RenewalState → ℕ → RenewalState → Updates → Query Unit
unfolding transaction
compare_and_set_job now job_id expected_state expected_version new_state updates = do
  raise_if (has_unsupported updates) (value_error "Unsupported job updates")
  transaction (conditional_update now job_id expected_state expected_version new_state updates)

unfoldable pub transition_job :
    ℕ → String → RenewalState → ℕ → RenewalState → Updates → Query (Option Job)
unfolding transaction append_event
transition_job now job_id expected_state expected_version new_state updates = do
  raise_if (has_unsupported updates) (value_error "Unsupported job updates")
  transaction (do
    conditional_update now job_id expected_state expected_version new_state updates
    modify (append_event now (some job_id) (state_changed expected_state new_state)))
  gets (get_job job_id)

-- the order `created_at, id`
unfoldable pub listed_before : Job → Job → Bool
listed_before a b =
    ltb a.created_at b.created_at
    || (eqb a.created_at b.created_at
        && elim (compare a.id b.id) [ Ordering.gt ↦ false | _ ↦ true ])

unfoldable pub list_jobs : Database → List Job
unfolding order_by listed_before
list_jobs db = order_by listed_before db.jobs

-- The events go first, since they refer to the job.
unfoldable pub delete_job : String → Query Bool
unfolding transaction
delete_job job_id = transaction (λ db. (
  ok (eqb (count (has_id job_id) db.jobs) 1),
  record db { events = delete (of_job job_id) db.events; jobs = delete (has_id job_id) db.jobs },
))

-- `list_events`; the rows are in the order of their ids already
unfoldable pub list_events : String → Database → List Event
list_events job_id db = select (of_job job_id) db.events

-- An event for a job that is not stored breaks the foreign key.
unfoldable pub record_event : ℕ → String → Details → Option String → Query Unit
unfolding transaction append_event
record_event now event_type details job_id = transaction (do
  raise_if
      (← gets (λ db. elim job_id [ none ↦ false | some id ↦ is_none (find (has_id id) db.jobs) ]))
      integrity_error
  modify (append_event now job_id (noted event_type details)))
