-- ===== src/Acme/Replays.antt =====
-- The orchestrator (certmon/renewals.py) with the account and order services of
-- certmon/acme_service.py.
use certmon.Prelude.{List}
use certmon.Db.{Secret, Database}
use certmon.Db.Jobs.{get_job, list_events}
use certmon.Renewals.History.{IsTraced}
use certmon.Orchestrator.Served.{
  Call, service, start, continue_dns, stop, retry, IsOrderly, settings-IsTraced,
}
use certmon.Acme.{Acme}
use certmon.Acme.Served.{with_acme, with_acme-Kept, IsApart}

-- a call whose account and order services are those of certmon/acme_service.py
unfoldable pub through_acme : Acme → Call → Call
through_acme a (service r) = service r
through_acme a (start c s now id email agreed) = start c (with_acme a now s) now id email agreed
through_acme a (continue_dns c s now id) = continue_dns c (with_acme a now s) now id
through_acme a (stop c s now id) = stop c (with_acme a now s) now id
through_acme a (retry c s now id) = retry c (with_acme a now s) now id

secrets-IsTraced :
    (m : List Secret) (db : Database) → IsTraced db → IsTraced (record db { secrets = m })
unfolding get_job list_events
secrets-IsTraced m db h = record { unique = h.unique; traced = h.traced; orphans = h.orphans }

apart : IsApart IsTraced
apart = record { settings = settings-IsTraced; secrets = secrets-IsTraced }

pub through_acme-IsOrderly : (a : Acme) (c : Call) → IsOrderly (through_acme a c)
unfolding through_acme
through_acme-IsOrderly a (service r) = tt
through_acme-IsOrderly a (start c s now id email agreed) = with_acme-Kept IsTraced apart a now s
through_acme-IsOrderly a (continue_dns c s now id) = with_acme-Kept IsTraced apart a now s
through_acme-IsOrderly a (stop c s now id) = with_acme-Kept IsTraced apart a now s
through_acme-IsOrderly a (retry c s now id) = with_acme-Kept IsTraced apart a now s
