-- ===== src/Db.antt =====
-- certmon/db.py: the tables of the SQLite database. The JSON columns hold the values that are
-- stored in them, an instant is a number, and `_utc_now()` is the argument `now` of an operation.
pub mod Users
pub mod Sessions
pub mod Jobs
pub mod Certificates
pub mod Settings
pub mod Audit
pub mod Secrets
use certmon.Prelude.{ℕ, Bool, String, Option, List, []}
use certmon.Outcome.{Action}
use certmon.Models.{RenewalState}

-- the JSON scalars, lists of texts, and objects of texts and nulls
pub data Value : Type 0 where
  null : Value
  flag : Bool → Value
  num : ℕ → Value
  text : String → Value
  texts : List String → Value
  pairs : List (String × Option String) → Value

-- a JSON object
abbrev pub Details : Type 0
Details = List (String × Value)

pub record User : Type 0 where
  pub id : String
  pub username : String
  pub password_hash : String
  pub roles : List String
  pub created_at : ℕ
  pub disabled_at : Option ℕ

pub record Session : Type 0 where
  pub token_hash : String
  pub user_id : String
  pub created_at : ℕ
  pub last_seen_at : ℕ
  pub expires_at : ℕ

pub record Job : Type 0 where
  pub id : String
  pub endpoint_host : String
  pub endpoint_port : ℕ
  pub issuer_type : String
  pub state : RenewalState
  pub version : ℕ
  pub identifiers : List String
  pub profile : String
  pub environment : Option String
  pub dns_provider : Option String
  pub certificate_id : Option String
  pub error_code : Option String
  pub error_message : Option String
  pub metadata : Details
  pub created_at : ℕ
  pub updated_at : ℕ

-- what an event records: a change of state, or anything else
pub data EventBody : Type 0 where
  state_changed : RenewalState → RenewalState → EventBody
  noted : String → Details → EventBody

pub record Event : Type 0 where
  pub job_id : Option String
  pub body : EventBody
  pub created_at : ℕ

pub record Certificate : Type 0 where
  pub id : String
  pub metadata : Details
  pub created_at : ℕ

pub record AuditEvent : Type 0 where
  pub event_type : String
  pub username : Option String
  pub source_ip : Option String
  pub target : Option String
  pub success : Bool
  pub details : Details
  pub created_at : ℕ

-- a DNS record as `PresentedRecord` of certmon/dns/base.py, and as the settings keep it
pub record PresentedRecord : Type 0 where
  pub fqdn : String
  pub value : String
  pub provider : String
  pub expires_at : Option ℕ
  pub zone_id : Option String
  pub record_id : Option String

-- `EncryptedBlob` of certmon/vault.py
pub record EncryptedBlob : Type 0 where
  pub key_id : String
  pub nonce : String
  pub ciphertext : String
  pub purpose : String

pub record Secret : Type 0 where
  pub id : String
  pub blob : EncryptedBlob
  pub metadata : Details
  pub created_at : ℕ
  pub updated_at : ℕ

-- a DNS-01 challenge as `create_order` of certmon/acme_service.py records it
pub record OrderChallenge : Type 0 where
  pub identifier : String
  pub authorization_url : String
  pub challenge_url : String
  pub fqdn : String
  pub value : String

-- the record of an ACME order
pub record Order : Type 0 where
  pub job_id : String
  pub environment : String
  pub order_url : String
  pub status : String
  pub authorization_urls : List String
  pub dns_challenges : List OrderChallenge
  pub csr_pem : String
  pub created_at : ℕ

-- the record of an ACME account
pub record Account : Type 0 where
  pub environment : String
  pub directory_url : String
  pub email : String
  pub account_url : String
  pub terms_of_service_url : Option String
  pub registered_at : ℕ
  pub replaced_account_url : Option String

-- the last result of a device (certmon/toolbelt.py)
pub record UploadStatus : Type 0 where
  pub event : Option String
  pub ok : Bool
  pub message : Option String
  pub time : ℕ
  pub run_id : String
  pub mode : String

-- the values that the program keeps under a key of the table `settings`
pub data Setting : Type 0 where
  switch : Bool → Setting
  names : List String → Setting
  target : RenewalState → Setting
  dns_records : List PresentedRecord → Setting
  staging_proof : String → List String → Setting
  acme_order : Order → Setting
  acme_account : Account → Setting
  upload_statuses : List (String × UploadStatus) → Setting

pub record Database : Type 0 where
  pub users : List User
  pub sessions : List Session
  pub jobs : List Job
  pub events : List Event
  pub certificates : List Certificate
  pub settings : List (String × Setting)
  pub audit_events : List AuditEvent
  pub secrets : List Secret

abbrev pub empty : Database
empty = record {
  users = [];
  sessions = [];
  jobs = [];
  events = [];
  certificates = [];
  settings = [];
  audit_events = [];
  secrets = [];
}

abbrev pub Query : Type 0 → Type 0
Query A = Action Database A
