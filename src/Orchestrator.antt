-- ===== src/Orchestrator.antt =====
-- certmon/renewals.py: `ACMERenewalOrchestrator`. Its services are the parameter `Services`: the
-- account and order services of certmon/acme_service.py, a DNS provider of certmon/dns, and the keys
-- and checks of certmon/certificates.py and certmon/profiles.py, as they answer during one request.
pub mod Issuance
pub mod Flow
pub mod Rules
pub mod Returns
pub mod Steps
pub mod Histories
pub mod Served
pub mod Gate
use certmon.Prelude.{
  ℕ, String, Bool, true, false, not, ◌==◌, ◌&&◌, ◌||◌, Option, none, some, List, [], ◌∷◌, ◌++◌, map,
  if◌then◌else◌, is_none, all, order_by, leb,
}
use Prim.Native.Nat.{Ordering}
use Prim.Native.String
use Prim.Native.String.{compare}
use certmon.Outcome.{
  Error, Result, ok, err, Action, pure, raise, raise_if, lift, gets, or_raise, ◌>>=◌, ◌>>◌,
  key_error, value_error, runtime_error, staging_required, challenge_expired, order_error,
  validation_error,
}
use certmon.Permissions.{Permission}
use certmon.Models.{RenewalState, same_state}
use certmon.Db.{
  Job, PresentedRecord, Setting, dns_records, target, staging_proof, Database, Details, Query,
}
use certmon.Db.Jobs.{get_job}
use certmon.Db.Settings.{get_setting, put_setting}
use certmon.Artifacts.{Vault, Files, Store}

pub record Challenge : Type 0 where
  pub fqdn : String
  pub value : String

pub record CleanupResult : Type 0 where
  pub cleaned : ℕ
  pub errors : List String

-- what the ACME server issues
pub record Issued : Type 0 where
  pub certificate_pem : String
  pub chain_pem : Option String

-- the parts of `validate_certificate_import`'s answer that are used
pub record Validation : Type 0 where
  pub cryptographically_valid : Bool
  pub errors : List String
  pub trust_status : String
  pub not_after : String

pub record World : Type 0 where
  pub database : Database
  pub store : Store

abbrev pub Request : Type 0 → Type 0
Request A = Action World A

-- the DNS provider that a job names
pub record Provider : Type 0 where
  pub present : List Challenge → Result (List PresentedRecord)
  pub check_visibility : List PresentedRecord → Result (List Bool)
  pub cleanup : List PresentedRecord → Result CleanupResult

pub record Services : Type 1 where
  pub Blob : Type 0
  pub vault : Vault Blob
  pub register : Option String → Option String → Bool → Query Unit
  pub create_order : String → String → Query (List Challenge)
  pub answer_challenges : String → Query Unit
  pub poll_authorizations : String → Query Unit
  pub finalize : String → Query Issued
  pub provider : Option String → Option Provider
  pub new_key_and_csr : String → List String → Result (String × String)
  pub validate : Issued → String → List String → Result Validation
  pub new_certificate_id : List String → String → String
  pub digest : List String → String
  pub isoformat : ℕ → String

module _ {A : Type 0} where
  -- a call of the database, and a call of the store
  abbrev pub stored : World → Result A × Database → Result A × World
  stored w (r, db) = (r, record w { database = db })

  abbrev pub on_database : Query A → Request A
  on_database q w = stored w (q w.database)

  abbrev pub shelved : World → Result A × Store → Result A × World
  shelved w (r, s) = (r, record w { store = s })

  abbrev pub on_store : Action Store A → Request A
  on_store a w = shelved w (a w.store)

  -- `try: … except error: handle(error)`, which keeps what was written before the error
  abbrev pub handled : (Error → Request A) → Result A × World → Result A × World
  handled handle (ok a, w) = (ok a, w)
  handled handle (err e, w) = handle e w

  abbrev pub on_error : Request A → (Error → Request A) → Request A
  on_error try handle w = handled handle (try w)

-- what a request answers: the job, and the DNS records to publish while it waits for them
pub record Answer : Type 0 where
  pub job : Option Job
  pub dns_records : List Challenge
  pub replaced : Bool
  pub visible : Option Bool

abbrev pub plain_answer : Option Job → Answer
plain_answer job = record { job = job; dns_records = []; replaced = false; visible = none }

abbrev pub dns_key : String → String
dns_key id = String.◌++◌ "acme-dns:" id

abbrev pub cleanup_key : String → String
cleanup_key id = String.◌++◌ "acme-cleanup-target:" id

abbrev pub proof_key : String → String
proof_key hash = String.◌++◌ "acme-staging-proof:" hash

abbrev pub pending_id : String → String
pending_id id = String.◌++◌ "acme-" id

-- `"; ".join(errors)`
unfoldable pub join : String → List String → String
join separator [] = ""
join separator (e ∷ []) = e
join separator (e ∷ f ∷ es) = String.◌++◌ e (String.◌++◌ separator (join separator (f ∷ es)))

abbrev pub text_before : String → String → Bool
text_before a b = elim (compare a b) [ Ordering.gt ↦ false | _ ↦ true ]

-- the payload that `identifier_hash` hashes
abbrev pub sorted_identifiers : List String → List String
sorted_identifiers identifiers = order_by text_before identifiers

abbrev pub public_records : List PresentedRecord → List Challenge
public_records [] = []
public_records (r ∷ rs) = record { fqdn = r.fqdn; value = r.value } ∷ public_records rs

-- the value under `acme-dns:`, which holds nothing but records
abbrev pub records_of : Option Setting → Option (List PresentedRecord)
records_of (some (dns_records rs)) = some rs
records_of _ = none

-- the value under `acme-cleanup-target:`, by default `issued`
abbrev pub cleanup_target : Option Setting → RenewalState
cleanup_target (some (target state)) = state
cleanup_target _ = RenewalState.issued

-- `_job`
unfoldable pub job_in : String → RenewalState → Request Job
job_in job_id state = do
  job ← or_raise (← gets (λ w. get_job job_id w.database)) (key_error job_id)
  raise_if (not (job.issuer_type == "acme" && same_state job.state state)) (value_error "ACME job")
  pure job

unfoldable pub load_required : String → Request (List PresentedRecord)
load_required job_id = do
  or_raise (← gets (λ w. records_of (get_setting (dns_key job_id) w.database))) (key_error job_id)

-- `_load_presented(job_id, required=False)`
unfoldable pub load_presented : String → Request (List PresentedRecord)
load_presented job_id w = (
  ok (elim (records_of (get_setting (dns_key job_id) w.database)) [ none ↦ [] | some rs ↦ rs ]),
  w,
)

-- a job that a step returned; `None` has no fields
unfoldable pub returned : Option Job → Request Job
returned none w = (err runtime_error, w)
returned (some job) w = (ok job, w)
