-- ===== src/Db/Audit.antt =====
-- The table `audit_events` of certmon/db.py. The rows are in the order of their ids.
use mathlib.Core.List.{reverse}
use certmon.Prelude.{
  ℕ, zero, suc, String, Bool, true, Option, none, some, List, [], ◌∷◌, ◌++◌, count, delete, ltb,
}
use certmon.Outcome.{ok, modify, transaction}
use certmon.Db.{AuditEvent, text, num, Database, Query, Details}

unfoldable pub append_audit : AuditEvent → Database → Database
append_audit e db = record db { audit_events = db.audit_events ++ e ∷ [] }

unfoldable pub record_audit_event :
    ℕ → String → Option String → Option String → Option String → Bool → Details → Query Unit
unfolding transaction append_audit
record_audit_event now event_type username source_ip target success details = transaction (
    modify (
      append_audit (record {
        event_type = event_type;
        username = username;
        source_ip = source_ip;
        target = target;
        success = success;
        details = details;
        created_at = now;
      })))

unfoldable pub take {ℓ} : {A : Type ℓ} → ℕ → List A → List A
take zero xs = []
take (suc n) [] = []
take (suc n) (x ∷ xs) = x ∷ take n xs

-- newest first; no limit returns every row
unfoldable pub list_audit_events : Option ℕ → Database → List AuditEvent
unfolding take
list_audit_events none db = reverse db.audit_events
list_audit_events (some limit) db = take limit (reverse db.audit_events)

abbrev pub older : ℕ → AuditEvent → Bool
older cutoff e = ltb e.created_at cutoff

-- The cutoff is stored as the text that was given for it.
unfoldable pub delete_audit_before : ℕ → ℕ → String → Option String → Option String → Query ℕ
unfolding transaction append_audit
delete_audit_before now cutoff cutoff_text username source_ip = transaction (λ db. (
  ok (count (older cutoff) db.audit_events),
  append_audit
      (record {
        event_type = "audit_history_deleted";
        username = username;
        source_ip = source_ip;
        target = some cutoff_text;
        success = true;
        details =
            ("before_utc", text cutoff_text)
            ∷ ("deleted_count", num (count (older cutoff) db.audit_events))
            ∷ [];
        created_at = now;
      })
      (record db { audit_events = delete (older cutoff) db.audit_events }),
))
