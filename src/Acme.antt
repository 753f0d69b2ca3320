-- ===== src/Acme.antt =====
-- certmon/acme_service.py: the answers of an ACME server, and how they are read. `Acme` holds what
-- the module takes from outside: the clients over the packages acme and josepy, the vault, a new key,
-- the readings of a number
-- and of a date, and the instant some seconds later, which raises where it is out of range. An instant and a duration are in microseconds.
pub mod Accounts
pub mod Orders
pub mod Polling
pub mod Recovery
pub mod Registered
pub mod Served
pub mod Replays
use certmon.Prelude.{
  ℤ, pos, negsuc, ℕ, zero, suc, ◌+◌, ◌*◌, String, Bool, true, false, ◌==◌, ◌||◌, Option, none, some,
  List, [], ◌∷◌, if◌then◌else◌, ends_with,
}
use certmon.Outcome.{Error, Result, ok, err, order_error}
use certmon.Db.{EncryptedBlob, Account}

pub record Registration : Type 0 where
  pub account_url : String
  pub terms_of_service_url : Option String

pub record Problem : Type 0 where
  pub kind : String
  pub detail : Option String

-- the status of an order or of an authorization
pub record StatusAnswer : Type 0 where
  pub status : Option String
  pub retry_after : Option String
  pub problem : Option Problem

pub record OfferedChallenge : Type 0 where
  pub kind : Option String
  pub url : String
  pub fqdn : String
  pub value : String

pub record Authorization : Type 0 where
  pub url : String
  pub identifier : String
  pub challenges : List OfferedChallenge

pub record NewOrder : Type 0 where
  pub order_url : String
  pub status : Option String
  pub authorizations : List Authorization

pub record FinalAnswer : Type 0 where
  pub answer : StatusAnswer
  pub certificate_pem : String
  pub chain_pem : Option String

-- one attempt of a poll: the time at the test of the deadline, the answer, and the times at which
-- its `Retry-After` is read and the delay is taken
pub record Attempt : Type 0 where
  pub checked : ℕ
  pub answer : Result StatusAnswer
  pub parsed : ℕ
  pub delayed : ℕ

-- the client of an account; `poll url i` is the attempt with the number `i` of a request
pub record OrderClient : Type 0 where
  pub create_order : List String → String → Result NewOrder
  pub poll : String → ℕ → Attempt
  pub answer_dns_challenge : String → Result Unit
  pub finalize_order : String → String → Result FinalAnswer
  pub get_order : String → Result StatusAnswer

pub record Acme : Type 0 where
  pub encrypt : String → String → EncryptedBlob
  pub decrypt : EncryptedBlob → String → Result String
  pub register : String → String → String → Result Registration
  pub order_client : Account → String → OrderClient
  pub new_key : String
  pub int_of : String → Option ℤ
  pub after_seconds : ℕ → ℕ → Result ℕ
  pub date_of : String → Result ℕ
  pub isoformat : ℕ → String

abbrev pub microseconds : ℕ → ℕ
microseconds seconds = seconds * 1000000

-- `translate_acme_problem`; a missing problem has no type
unfoldable pub translate_problem : Option Problem → String
unfolding ends_with
translate_problem none = "acme_request_failed"
translate_problem (some p) =
    if ends_with p.kind ":rateLimited"
    then "acme_rate_limited"
    else if ends_with p.kind ":rejectedIdentifier"
    then "acme_rejected_identifier"
    else if ends_with p.kind ":unauthorized"
    then "acme_validation_failed"
    else "acme_request_failed"

-- `max(0, value)`
abbrev pub at_least_zero : ℤ → ℕ
at_least_zero (pos n) = n
at_least_zero (negsuc n) = 0

-- `problem.get("detail", default)`
abbrev pub detail_or : String → Option Problem → String
detail_or default none = default
detail_or default (some p) = elim p.detail [ none ↦ default | some d ↦ d ]

module _ (a : Acme) (now : ℕ) where
  parse_number : String → Option ℤ → Result (Option ℕ)
  parse_number value (some n) = elim (a.after_seconds now (at_least_zero n)) [
    | err e ↦ err e
    | ok at ↦ ok (some at)
  ]
  parse_number value none = elim (a.date_of value) [ err e ↦ err e | ok at ↦ ok (some at) ]

  unfoldable pub parse_retry_after : Option String → Result (Option ℕ)
  unfolding parse_number
  parse_retry_after none = ok none
  parse_retry_after (some value) =
      if value == "" then ok none else parse_number value (a.int_of value)

  problem_at : StatusAnswer → Result (Option ℕ) → Error
  problem_at r (err e) = e
  problem_at r (ok retry_at) =
      order_error (translate_problem r.problem) (detail_or "ACME request failed" r.problem) retry_at

  -- what `_raise_problem` raises
  unfoldable pub problem_error : StatusAnswer → Error
  unfolding problem_at parse_retry_after translate_problem
  problem_error r = problem_at r (parse_retry_after r.retry_after)
