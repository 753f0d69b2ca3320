-- ===== src/Dns/Manual.antt =====
-- certmon/dns/manual.py: `ManualDNSProvider`. `resolver` asks the name servers of a name for its
-- texts, or raises; `now` is the clock.
use certmon.Prelude.{
  ℕ, ◌+◌, String, Bool, true, false, not, ◌≡◌, refl, ◌==◌, eq_iff, ◌&&◌, ◌||◌, arith, none, some,
  List, [], ◌∷◌, if◌then◌else◌, count, bit, contains, leb, rstrip_dots, rstrip_dots_idem,
}
use certmon.Outcome.{Result, ok, err, challenge_expired}
use certmon.Db.{PresentedRecord}
use certmon.Orchestrator.{Challenge, CleanupResult}

abbrev pub same_challenge : Challenge → Challenge → Bool
same_challenge a b = a.fqdn == b.fqdn && a.value == b.value

abbrev pub has_challenge : Challenge → List Challenge → Bool
has_challenge c [] = false
has_challenge c (d ∷ ds) = same_challenge c d || has_challenge c ds

-- the key of a record, without the dots that end its name
unfoldable pub challenge_key : Challenge → Challenge
unfolding rstrip_dots
challenge_key r = record { fqdn = rstrip_dots r.fqdn; value = r.value }

abbrev pub challenge_keys : List Challenge → List Challenge
challenge_keys [] = []
challenge_keys (r ∷ rs) = challenge_key r ∷ challenge_keys rs

-- the loop over the keys, with those seen so far
unfoldable pub unseen : List Challenge → List Challenge → List Challenge
unseen seen [] = []
unseen seen (k ∷ ks) =
    let skip = unseen seen ks in
    let keep = unseen (k ∷ seen) ks in if has_challenge k seen then skip else k ∷ keep

-- `_deduplicate`
unfoldable pub deduplicate : List Challenge → List Challenge
unfolding unseen
deduplicate records = unseen [] (challenge_keys records)

abbrev pub present_all : ℕ → List Challenge → List PresentedRecord
present_all expires_at [] = []
present_all expires_at (k ∷ ks) =
    record {
      fqdn = rstrip_dots k.fqdn;
      value = k.value;
      provider = "manual";
      expires_at = some expires_at;
      zone_id = none;
      record_id = none;
    }
    ∷ present_all expires_at ks

unfoldable pub present : ℕ → ℕ → List Challenge → List PresentedRecord
unfolding deduplicate
present now ttl_seconds records = present_all (now + ttl_seconds) (deduplicate records)

abbrev pub has_expired : ℕ → PresentedRecord → Bool
has_expired now r = elim r.expires_at [ none ↦ false | some at ↦ leb at now ]

abbrev pub any_expired : ℕ → List PresentedRecord → Bool
any_expired now [] = false
any_expired now (r ∷ rs) = has_expired now r || any_expired now rs

unfoldable pub visibility :
    (String → Result (List String)) → List PresentedRecord → Result (List Bool)
visibility resolver [] = ok []
visibility resolver (r ∷ rs) = elim (resolver r.fqdn) [
  | err e ↦ err e
  | ok values ↦ elim (visibility resolver rs) [
    | err e ↦ err e
    | ok seen ↦ ok (contains r.value values ∷ seen)
  ]
]

unfoldable pub check_visibility :
    ℕ → (String → Result (List String)) → List PresentedRecord → Result (List Bool)
unfolding visibility
check_visibility now resolver presented =
    if any_expired now presented then err challenge_expired else visibility resolver presented

abbrev pub cleanup : List PresentedRecord → Result CleanupResult
cleanup presented = ok (record { cleaned = 0; errors = [] })

same_challenge_congr :
    (a b c : Challenge) → same_challenge a b ≡ true → same_challenge a c ≡ same_challenge b c
same_challenge_congr a b c h = ground (
  arith,
  h,
  eq_iff a.fqdn b.fqdn,
  eq_iff a.value b.value,
  eq_iff a.fqdn c.fqdn,
  eq_iff b.fqdn c.fqdn,
  eq_iff a.value c.value,
  eq_iff b.value c.value,
)

has_challenge_congr :
    (a b : Challenge) (cs : List Challenge)
    → same_challenge a b ≡ true
    → has_challenge a cs ≡ has_challenge b cs
has_challenge_congr a b [] h = refl
has_challenge_congr a b (c ∷ cs) h =
    rw (same_challenge_congr a b c h, has_challenge_congr a b cs h) refl

-- whether the records to publish have a name and a value, whatever dots end the name
abbrev pub has_trimmed : String → String → List Challenge → Bool
has_trimmed fqdn value [] = false
has_trimmed fqdn value (r ∷ rs) =
    (fqdn == rstrip_dots r.fqdn && value == r.value) || has_trimmed fqdn value rs

abbrev pub is_record : String → String → PresentedRecord → Bool
is_record fqdn value r = fqdn == r.fqdn && value == r.value

count-unseen :
    (expires_at : ℕ) (fqdn value : String) (seen records : List Challenge)
    → count (is_record fqdn value) (present_all expires_at (unseen seen (challenge_keys records)))
      ≡ bit (
          not (has_challenge (record { fqdn = fqdn; value = value }) seen)
          && has_trimmed fqdn value records)
unfolding unseen count challenge_key
count-unseen at fqdn value seen [] = ground arith
count-unseen at fqdn value seen (r ∷ rs) =
    let k : Challenge = record { fqdn = fqdn; value = value } in
    let j = challenge_key r in
    ground (
      arith,
      rstrip_dots_idem r.fqdn,
      count-unseen at fqdn value seen rs,
      count-unseen at fqdn value (j ∷ seen) rs,
      has_challenge_congr k j seen,
    )

-- The challenges of an order are published once each: of the records that `present` makes, one has
-- a given name and value if a challenge has that value and that name up to the dots that end it,
-- however often and with whatever final dots, and none otherwise.
pub count-present :
    (now ttl_seconds : ℕ) (fqdn value : String) (records : List Challenge)
    → count (is_record fqdn value) (present now ttl_seconds records)
      ≡ bit (has_trimmed fqdn value records)
unfolding present deduplicate
count-present now ttl_seconds fqdn value records =
    count-unseen (now + ttl_seconds) fqdn value [] records
