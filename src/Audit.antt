-- ===== src/Audit.antt =====
-- certmon/audit.py: `AuditService`, which redacts the details of an event.
pub mod Redaction
use Prim.Native.Char.{code}
use Prim.Native.String
use certmon.Prelude.{
  ℕ, String, Bool, ◌==◌, ◌||◌, Option, none, some, List, [], ◌∷◌, if◌then◌else◌, eqb, lower_code,
  codes, within,
}
use certmon.Db.{AuditEvent, Value, text, Details, Database, Query}
use certmon.Db.Audit.{record_audit_event, list_audit_events}

-- The code points of `key.lower()`, as far as a search for ASCII letters sees them: the Kelvin sign
-- is the one letter outside ASCII whose lower case is inside.
unfoldable pub lowered : String → List ℕ
lowered String.[] = []
lowered (String.◌∷◌ c s) = (if eqb (code c) 8490 then b'k' else lower_code (code c)) ∷ lowered s

-- the test of a key in `_redact`
unfoldable pub is_sensitive : String → Bool
unfolding lowered codes within
is_sensitive key =
    within (codes "password") (lowered key)
    || within (codes "token") (lowered key)
    || within (codes "secret") (lowered key)

unfoldable pub redact : Details → Details
redact [] = []
redact ((key, value) ∷ details) =
    (key, if is_sensitive key then text "[redacted]" else value) ∷ redact details

-- `user`: an account, by its name if it has one, or anything else by its text
pub data Actor : Type 0 where
  account : Option String → Actor
  other : String → Actor

unfoldable pub username : Option Actor → Option String
username none = none
username (some (account name)) = name
username (some (other name)) = if name == "" then none else some name

unfoldable pub record_event :
    ℕ → String → Option Actor → Option String → Option String → Bool → Details → Query Unit
unfolding username redact
record_event now event_type user source_ip target success details =
    record_audit_event now event_type (username user) source_ip target success (redact details)

unfoldable pub list_events : ℕ → Database → List AuditEvent
list_events limit db = list_audit_events (some limit) db
