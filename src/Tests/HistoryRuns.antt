-- ===== src/Tests/HistoryRuns.antt =====
-- A job from its draft to its deletion, and a recovery that an ACME answer stops.
use certmon.Prelude.{◌≡◌, refl, find, All, true, none, some, List, [], ◌∷◌}
use certmon.Models.{draft, issuing}
use certmon.Db.{Job, Database, empty, state_changed}
use certmon.Db.Jobs.{get_job, list_events}
use certmon.Renewals.History.Service.{Request, create, move, apply}
use certmon.Tests.Data.{names}
use certmon.Outcome.{ok}
use certmon.Renewals.Identifiers.{normalize_identifiers}
use certmon.Renewals.Identifiers.Accepted.{Gives, normalize_identifiers-Gives}

abbrev pub opened : Request
opened = create none names 1 "j1" "10.0.0.7" 443 "acme" (some "A.b" ∷ []) "p" none none []

abbrev pub draft_job : Job
draft_job = record {
  id = "j1";
  endpoint_host = "10.0.0.7";
  endpoint_port = 443;
  issuer_type = "acme";
  state = draft;
  version = 0;
  identifiers = "A.b" ∷ [];
  profile = "p";
  environment = none;
  dns_provider = none;
  certificate_id = none;
  error_code = none;
  error_message = none;
  metadata = [];
  created_at = 1;
  updated_at = 1;
}

abbrev issuing_job : Job
issuing_job = record draft_job { state = issuing; version = 1; updated_at = 2 }

abbrev moved : Request
moved = move none 2 "j1" draft 0 issuing []

abbrev pub draft_store : Database
draft_store = record empty { jobs = draft_job ∷ [] }

pub opened_store : apply opened empty ≡ draft_store
unfolding apply certmon.Renewals.create_job certmon.Permissions.authorize
    certmon.Renewals.Identifiers.normalize_identifiers certmon.Db.Jobs.create_job find
opened_store = refl

abbrev issuing_store : Database
issuing_store = record empty {
  jobs = issuing_job ∷ [];
  events = record { job_id = some "j1"; body = state_changed draft issuing; created_at = 2 } ∷ [];
}

moved_store : apply moved draft_store ≡ issuing_store
unfolding apply certmon.Renewals.transition certmon.Permissions.authorize
    certmon.Models.validate_transition certmon.Db.Jobs.transition_job
    certmon.Db.Jobs.has_unsupported certmon.Db.Jobs.conditional_update certmon.Db.Jobs.row_check
    certmon.Prelude.count certmon.Db.Jobs.breaks_reference certmon.Prelude.update
    certmon.Db.Jobs.advance
moved_store = refl

normalized :
    normalize_identifiers names (some " *.A.b. " ∷ none ∷ some "c.d" ∷ []) true
    ≡ ok ("*.A.b" ∷ "c.d" ∷ [])
unfolding normalize_identifiers
normalized = refl

normalize_identifiers-Gives_example :
    All (λ x. Gives names x (some " *.A.b. " ∷ none ∷ some "c.d" ∷ [])) ("*.A.b" ∷ "c.d" ∷ [])
normalize_identifiers-Gives_example =
    normalize_identifiers-Gives names (some " *.A.b. " ∷ none ∷ some "c.d" ∷ [])
      ("*.A.b" ∷ "c.d" ∷ []) normalized
