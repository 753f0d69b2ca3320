-- ===== src/Audit/Redaction.antt =====
-- What `AuditService.record` stores.
use Prim.Native.Char.{Char, code}
use certmon.Prelude.{
  ℕ, ◌+◌, String, Bool, true, false, ◌≡◌, refl, ◌⊎◌, inl, inr, Option, List, [], ◌∷◌, ◌++◌, All,
  Bool-cases, ◌&&◌, ◌||◌, leb, eqb, arith, prefix_codes, within, codes,
}
use certmon.Db.{AuditEvent, Value, text, Details, Database}
use certmon.Audit.{Actor, is_sensitive, redact, record_event, lowered}

-- a lower-case letter, or its upper case
abbrev pub same_letter : Char → Char → Bool
same_letter l c = eqb (code c) (code l) || eqb (code c + 32) (code l)

-- whether a text begins with a word, in whatever case
abbrev pub begins_with : String → String → Bool
begins_with String.[] s = true
begins_with (String.◌∷◌ l word) String.[] = false
begins_with (String.◌∷◌ l word) (String.◌∷◌ c s) = same_letter l c && begins_with word s

-- whether a word stands somewhere in a text, in whatever case
abbrev pub mentions : String → String → Bool
mentions word String.[] = begins_with word String.[]
mentions word (String.◌∷◌ c s) = begins_with word (String.◌∷◌ c s) || mentions word s

-- a key that mentions a password, a token or a secret has the placeholder as its value
abbrev pub Hidden : String × Value → Type 0
Hidden (key, value) =
    ((mentions "password" key || (mentions "token" key || mentions "secret" key)) ≡ false)
    ⊎ (value ≡ text "[redacted]")

abbrev pub IsRedacted : AuditEvent → Type 0
IsRedacted e = All Hidden e.details

abbrev all_lower : String → Bool
all_lower String.[] = true
all_lower (String.◌∷◌ l word) = (leb b'a' (code l) && leb (code l) b'z') && all_lower word

begins_with-prefix_codes :
    (word s : String)
    → all_lower word ≡ true
    → begins_with word s ≡ true
    → prefix_codes (codes word) (lowered s) ≡ true
unfolding prefix_codes codes lowered
begins_with-prefix_codes String.[] s l h = refl
begins_with-prefix_codes (String.◌∷◌ n word) String.[] l h = ground (arith, h)
begins_with-prefix_codes (String.◌∷◌ n word) (String.◌∷◌ c s) l h =
    ground (arith, begins_with-prefix_codes word s, l, h)

mentions-within :
    (word s : String)
    → all_lower word ≡ true
    → mentions word s ≡ true
    → within (codes word) (lowered s) ≡ true
unfolding within lowered
mentions-within word String.[] l h = begins_with-prefix_codes word String.[] l h
mentions-within word (String.◌∷◌ c s) l h =
    ground (arith, begins_with-prefix_codes word (String.◌∷◌ c s) l, mentions-within word s l, h)

not_sensitive :
    (key : String)
    → is_sensitive key ≡ false
    → (mentions "password" key || (mentions "token" key || mentions "secret" key)) ≡ false
unfolding is_sensitive
not_sensitive key h = ground (
  arith,
  h,
  mentions-within "password" key refl,
  mentions-within "token" key refl,
  mentions-within "secret" key refl,
)

redact-Hidden : (details : Details) → All Hidden (redact details)
unfolding redact
redact-Hidden [] = tt
redact-Hidden ((key, value) ∷ details) = (
  elim (Bool-cases (is_sensitive key)) [
    | inl e ↦ inr (rw e refl)
    | inr e ↦ inl (not_sensitive key e)
  ],
  redact-Hidden details,
)

All-append :
    (P : AuditEvent → Type 0) (xs : List AuditEvent) (x : AuditEvent)
    → All P xs
    → P x
    → All P (xs ++ x ∷ [])
All-append P [] x h k = (k, tt)
All-append P (y ∷ xs) x (h, hs) k = (h, All-append P xs x hs k)

-- `AuditService.record` stores no value under a key of the details that mentions `password`, `token`
-- or `secret`, with each letter in either case: if every stored event has the placeholder there, so
-- has every event after the call, whatever details were given. The keys are those of the details
-- themselves, not of objects within them.
pub record_event-IsRedacted :
    (now : ℕ) (event_type : String) (user : Option Actor) (source_ip target : Option String)
    (success : Bool) (details : Details) (db : Database)
    → All IsRedacted db.audit_events
    → All IsRedacted
        (record_event now event_type user source_ip target success details db).1.audit_events
unfolding record_event certmon.Db.Audit.record_audit_event
record_event-IsRedacted now event_type user source_ip target success details db h =
    All-append IsRedacted db.audit_events _ h (redact-Hidden details)
