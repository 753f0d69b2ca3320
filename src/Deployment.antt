-- ===== src/Deployment.antt =====
-- certmon/deployment.py: `DeploymentService` and the check of a device's certificate. `Deployer` holds
-- what the service takes from outside: the adapters that push to a device, the verifier, the
-- fingerprint of a certificate, and the URL of a file.
pub mod Service
pub mod Rules
pub mod Results
pub mod Replays
pub mod Success
use certmon.Prelude.{
  ℕ, String, Bool, true, false, not, ◌==◌, ◌&&◌, ◌||◌, Option, none, some, List, [], ◌∷◌,
  if◌then◌else◌, is_none, select, strip, same_option, get_or,
}
use mathlib.Core.List.{reverse}
use Prim.Native.String
use certmon.Outcome.{
  Error, Result, ok, err, file_not_found, key_error, value_error, pure, raise_if, lift, gets,
  or_raise, ◌>>=◌, ◌>>◌,
}
use certmon.Permissions.{Permission, deploy_certificate, authorize}
use certmon.Models.{RenewalState, issued, deployment_pending, deployed, state_in, same_state}
use certmon.Db.{Job, Certificate, Value, null, num, text, texts, flag, pairs, Details, Database}
use certmon.Db.Jobs.{
  Updates, get_job, list_jobs, error_code, error_message, compare_and_set_job, record_event,
}
use certmon.Db.Certificates.{get_certificate}
use certmon.Renewals.{transition}
use certmon.Artifacts.{Vault, Store, has_certificate, read_public}
use certmon.Orchestrator.{World, Request, on_database}

-- the stored fields of a device that are read here
pub record Device : Type 0 where
  pub id : Option String
  pub host : Option String
  pub port : Option ℕ
  pub device_type : Option String
  pub https : Bool

-- `DeploymentMaterial`; the store stands beside it
pub record Material : Type 0 where
  pub certificate_id : String
  pub certificate_pem : String
  pub expected_fingerprint : String

-- `DeploymentAttempt`
pub record PushAttempt : Type 0 where
  pub success : Bool
  pub log : List String

pub record Verification : Type 0 where
  pub status : String
  pub expected_fingerprint : String
  pub observed_fingerprint : Option String

pub record Deployer : Type 1 where
  pub Blob : Type 0
  pub vault : Vault Blob
  pub adapter : String → Option (Device → Material → Store → Result PushAttempt)
  pub verifier : Device → Material → Result Verification
  pub fingerprint : String → Result String
  pub artifact_url : String → String → String
  pub message : Error → String
  pub port_text : ℕ → String
  pub lower_text : String → String

-- `DeploymentResult`
pub record Outcome : Type 0 where
  pub succeeded : Bool
  pub log : List String
  pub instructions : Option String
  pub verification : Option Verification
  pub public_artifacts : List (String × Option String)
  pub job : Option Job

-- `verify_device_certificate`; `observed` is the fingerprint that the device shows, if it answers
unfoldable pub verify_device : Option String → Material → Verification
verify_device none material = record {
  status = "unreachable";
  expected_fingerprint = material.expected_fingerprint;
  observed_fingerprint = none;
}
verify_device (some observed) material = record {
  status =
      if observed == material.expected_fingerprint then "verified" else "different_certificate";
  expected_fingerprint = material.expected_fingerprint;
  observed_fingerprint = some observed;
}

abbrev pub ready_states : List RenewalState
ready_states = issued ∷ deployment_pending ∷ []

abbrev pub is_candidate : String → Job → Bool
is_candidate certificate_id job =
    same_option job.certificate_id (some certificate_id) && state_in job.state ready_states

abbrev pub last_id : List Job → Option String
last_id jobs = elim (reverse jobs) [ [] ↦ none | j ∷ js ↦ some j.id ]

-- `_find_deployable_job`
unfoldable pub find_deployable_job : String → Database → Option String
find_deployable_job certificate_id db =
    last_id (select (is_candidate certificate_id) (list_jobs db))

-- `job_id or self._find_deployable_job(…)`
abbrev pub chosen_job : Option String → String → Database → Option String
chosen_job none certificate_id db = find_deployable_job certificate_id db
chosen_job (some id) certificate_id db =
    if id == "" then find_deployable_job certificate_id db else some id

-- `(device.get("device_type") or "generic")`
abbrev pub type_or_generic : Option String → String
type_or_generic none = "generic"
type_or_generic (some t) = if t == "" then "generic" else t

abbrev pub cleared : Updates
cleared = (error_code, none) ∷ (error_message, none) ∷ []

abbrev pub blamed : String → String → Updates
blamed code message = (error_code, some code) ∷ (error_message, some message) ∷ []

abbrev pub last_line : List String → String
last_line log = elim (reverse log) [ [] ↦ "Deployment failed" | l ∷ ls ↦ l ]

abbrev optional_text : Option String → Value
optional_text none = null
optional_text (some t) = text t

abbrev optional_num : Option ℕ → Value
optional_num none = null
optional_num (some n) = num n

abbrev verification_details : Option Verification → Details
verification_details none = []
verification_details (some v) =
    (
      "verification",
      pairs (
          ("status", some v.status)
          ∷ ("expected_fingerprint", some v.expected_fingerprint)
          ∷ ("observed_fingerprint", v.observed_fingerprint)
          ∷ []),
    )
    ∷ []

abbrev instruction_details : Option String → Details
instruction_details none = []
instruction_details (some t) = if t == "" then [] else ("instructions", text t) ∷ []

-- the details of the event
unfoldable pub event_details : Device → String → String → Outcome → Details
event_details device certificate_id adapter_name r =
    ("device_id", optional_text device.id)
    ∷ ("device_host", optional_text device.host)
    ∷ ("device_port", optional_num device.port)
    ∷ ("device_type", optional_text device.device_type)
    ∷ ("certificate_id", text certificate_id)
    ∷ ("adapter", text adapter_name)
    ∷ ("ok", flag r.succeeded)
    ∷ ("log", texts r.log)
    ∷ ("public_artifacts", pairs r.public_artifacts)
    ∷ (certmon.Prelude.◌++◌ (instruction_details r.instructions)
        (verification_details r.verification))

abbrev port_of : Option ℕ → ℕ
port_of none = 443
port_of (some p) = p

unfoldable pub concat : List String → String
concat [] = ""
concat (t ∷ ts) = String.◌++◌ t (concat ts)

-- `_generic_instructions`
unfoldable pub generic_instructions : (ℕ → String) → Device → String
unfolding concat
generic_instructions port_text device =
    let kind = get_or device.device_type "generic" in
    if kind == "extron"
    then concat (
        "Open Extron Toolbelt on this PC, connect to "
        ∷ get_or device.host ""
        ∷ ", then upload the public certificate and private key manually."
        ∷ [])
    else if kind == "homeassistant"
    then concat (
        "Copy the public certificate files to your Home Assistant config and "
        ∷ "perform private-key export separately before updating ssl_certificate " ∷ "and ssl_key."
        ∷ [])
    else if kind == "synology"
    then concat (
        "Open DSM, go to Control Panel > Security > Certificate, import the "
        ∷ "public certificate, and export the private key separately if needed." ∷ [])
    else concat (
        "Open the device web interface at "
        ∷ (if device.https then "https" else "http")
        ∷ "://"
        ∷ get_or device.host ""
        ∷ ":"
        ∷ port_text (port_of device.port)
        ∷ " and follow "
        ∷ "its certificate import instructions. Public certificate downloads are "
        ∷ "linked below; private-key export remains a separate audited action."
        ∷ [])
