-- ===== src/Tests/UploadRuns.antt =====
-- Uploads, their audit events, and the credentials of a device.
use certmon.Prelude.{
  ◌≡◌, refl, ◌++◌, delete, ◌||◌, ◌&&◌, true, false, none, some, List, [], ◌∷◌, All, length,
  contains, count, inr, is_none, String,
}
use certmon.Csrf.{csrf_token_for_session, validate_csrf, validate_csrf-token}
use Prim.Native.String
use certmon.Tests.Data.{plain}
use certmon.Outcome.{ok}
use certmon.Db.{Database, AuditEvent, names, text, empty}
use certmon.Audit.{record_event}
use certmon.Audit.Redaction.{IsRedacted, record_event-IsRedacted}
use certmon.Uploads.{Outcome, recorded_runs, completed, completed_key, finish}
use certmon.Uploads.Runs.{has_succeeded, events_of, finish_once, finish-audits, finish-completed}
use certmon.Credentials.{Given, ordered_credentials, ordered_credentials-first_of_each}

abbrev outcomes : List Outcome
outcomes =
    record {
      ok = true;
      selector = "10.0.0.7";
      certificate_id = "c1";
      status = "verified";
      nic = none;
    }
    ∷ record {
      ok = false;
      selector = "10.0.0.8";
      certificate_id = "c2";
      status = "offline";
      nic = none;
    }
    ∷ []

abbrev queue : Database
queue = record empty { settings = (completed_key, names ("c0" ∷ [])) ∷ [] }

finish_once_example :
    finish 9 "toolbelt" "run" [] false (finish 5 "direct" "run" outcomes true queue).1
    ≡ (ok tt, (finish 5 "direct" "run" outcomes true queue).1)
finish_once_example = finish_once "run" 5 9 "direct" "toolbelt" outcomes [] true false queue

unrecorded : contains "run" (recorded_runs queue) ≡ false
unfolding recorded_runs certmon.Db.Settings.get_setting certmon.Db.Settings.lookup
unrecorded = refl

finish-audits_example :
    ((finish 5 "direct" "run" outcomes true queue).0 ≡ ok tt)
    × ((finish 5 "direct" "run" outcomes true queue).1.audit_events
        ≡ queue.audit_events ++ events_of 5 "direct" "run" outcomes)
finish-audits_example = finish-audits "run" 5 "direct" outcomes true queue unrecorded

finish-completed_example :
    contains "c1" (completed (finish 5 "direct" "run" outcomes true queue).1)
    ≡ (contains "c1" (completed queue) || (true && has_succeeded "c1" outcomes))
finish-completed_example = finish-completed "run" 5 "direct" outcomes true queue "c1" unrecorded

abbrev logged : AuditEvent
logged = record {
  event_type = "login";
  username = none;
  source_ip = none;
  target = none;
  success = true;
  details = ("Api-Token", text "[redacted]") ∷ [];
  created_at = 1;
}

logged-IsRedacted : All IsRedacted (logged ∷ [])
logged-IsRedacted = ((inr refl, tt), tt)

record_event-IsRedacted_example :
    All IsRedacted
      (record_event 2 "reset" none none none true
        (("new_password", text "hunter2") ∷ [])
        (record empty { audit_events = logged ∷ [] })).1.audit_events
record_event-IsRedacted_example =
    record_event-IsRedacted 2 "reset" none none none true (("new_password", text "hunter2") ∷ [])
      (record empty { audit_events = logged ∷ [] }) logged-IsRedacted

abbrev given : Given
given = record { username = some ""; password = some "extron" }

-- the pair of the device is the factory's, so it is tried once, and that of the group after it
abbrev pair : Given
pair = record { username = some "root"; password = some "pw" }

ordered_credentials-first_of_each_example :
    ordered_credentials (some given) (some pair)
    ≡ record { username = "admin"; password = "extron" }
      ∷ record { username = "root"; password = "pw" }
      ∷ []
unfolding delete
ordered_credentials-first_of_each_example =
    ordered_credentials-first_of_each (some given) (some pair)

abbrev header : String
header = "secretkey"

passes : validate_csrf plain String.◌++◌ "secret" "POST" (some header) (some "key") ≡ ok true
unfolding validate_csrf certmon.Prelude.all certmon.Prelude.codes
passes = refl

validate_csrf-token_example :
    (some header ≡ csrf_token_for_session plain String.◌++◌ "secret" (some "key"))
    × (is_none (csrf_token_for_session plain String.◌++◌ "secret" (some "key")) ≡ false)
validate_csrf-token_example =
    validate_csrf-token plain String.◌++◌ "secret" "POST" (some header) (some "key") refl passes
