-- ===== src/Orchestrator/Served.antt =====
-- Any sequence of requests to the job service and to the orchestrator of certmon/renewals.py.
use certmon.Prelude.{ℕ, String, Bool, ◌≡◌, Option, some, List, [], ◌∷◌, All}
use certmon.Permissions.{Permission}
use certmon.Models.{draft}
use certmon.Db.{Job, Setting, Certificate, Database, empty}
use certmon.Db.Jobs.{get_job, list_events}
use certmon.Renewals.History.{IsTraced, replay}
use certmon.Renewals.History.Service
use certmon.Renewals.History.Service.{
  apply, apply-IsTraced, empty-IsTraced, transition-IsTraced, cancel-IsTraced,
}
use certmon.Orchestrator.{World, Services}
use certmon.Orchestrator.Flow.{start_acme, continue_manual_dns, cancel_acme, retry_cleanup}
use certmon.Orchestrator.Rules.{Kept, Writes}
use certmon.Orchestrator.Histories.{
  keeps_start_acme, keeps_continue_manual_dns, keeps_cancel_acme, keeps_retry_cleanup,
}

pub data Call : Type 1 where
  service : Service.Request → Call
  start : Option (List Permission) → Services → ℕ → String → Option String → Bool → Call
  continue_dns : Option (List Permission) → Services → ℕ → String → Call
  stop : Option (List Permission) → Services → ℕ → String → Call
  retry : Option (List Permission) → Services → ℕ → String → Call

unfoldable pub perform : Call → World → World
unfolding apply
perform (service r) w = record w { database = apply r w.database }
perform (start c s now id email agreed) w = (start_acme c s now id email agreed w).1
perform (continue_dns c s now id) w = (continue_manual_dns c s now id w).1
perform (stop c s now id) w = (cancel_acme c s now id w).1
perform (retry c s now id) w = (retry_cleanup c s now id w).1

unfoldable pub perform_all : List Call → World → World
unfolding perform
perform_all [] w = w
perform_all (c ∷ cs) w = perform_all cs (perform c w)

-- The order service of a call writes nothing that a history depends on.
abbrev pub IsOrderly : Call → Type 0
IsOrderly (service r) = Unit
IsOrderly (start c s now id email agreed) = Kept IsTraced s
IsOrderly (continue_dns c s now id) = Kept IsTraced s
IsOrderly (stop c s now id) = Kept IsTraced s
IsOrderly (retry c s now id) = Kept IsTraced s

pub settings-IsTraced :
    (m : List (String × Setting)) (db : Database)
    → IsTraced db
    → IsTraced (record db { settings = m })
unfolding get_job list_events
settings-IsTraced m db h = record { unique = h.unique; traced = h.traced; orphans = h.orphans }

certificates-IsTraced :
    (cs : List Certificate) (db : Database)
    → IsTraced db
    → IsTraced (record db { certificates = cs })
unfolding get_job list_events
certificates-IsTraced cs db h = record { unique = h.unique; traced = h.traced; orphans = h.orphans }

Writes-IsTraced : (current : Option (List Permission)) (now : ℕ) → Writes IsTraced current now
Writes-IsTraced current now = record {
  move = λ id from v new us db h. transition-IsTraced current db h now id from v new us;
  abandon = λ id db h. cancel-IsTraced current db h now id;
  settings = settings-IsTraced;
  certificates = certificates-IsTraced;
}

pub perform-IsTraced :
    (c : Call) (w : World) → IsOrderly c → IsTraced w.database → IsTraced (perform c w).database
unfolding perform
perform-IsTraced (service r) w k h = apply-IsTraced r w.database h
perform-IsTraced (start c s now id email agreed) w k h =
    keeps_start_acme IsTraced c s now k (Writes-IsTraced c now) id email agreed w h
perform-IsTraced (continue_dns c s now id) w k h =
    keeps_continue_manual_dns IsTraced c s now k (Writes-IsTraced c now) id w h
perform-IsTraced (stop c s now id) w k h =
    keeps_cancel_acme IsTraced c s now k (Writes-IsTraced c now) id w h
perform-IsTraced (retry c s now id) w k h =
    keeps_retry_cleanup IsTraced c s now k (Writes-IsTraced c now) id w h

perform_keeps :
    (cs : List Call) (w : World)
    → All IsOrderly cs
    → IsTraced w.database
    → IsTraced (perform_all cs w).database
unfolding perform_all
perform_keeps [] w ks h = h
perform_keeps (c ∷ cs) w (k, ks) h = perform_keeps cs (perform c w) ks (perform-IsTraced c w k h)

-- After any calls of the job service and the ACME orchestrator on an empty database, in any order,
-- successful or not, where the calls of the account and order services keep the histories that they
-- find: the logged state changes of every stored job start at `draft`, each starts where the one
-- before it ended and is an allowed transition, and the last one ends in the state of the job.
pub perform_all-replays :
    (cs : List Call) (store : certmon.Artifacts.Store) (id : String) (j : Job)
    → All IsOrderly cs
    → let db = (perform_all cs (record { database = empty; store = store })).database in
      get_job id db ≡ some j → replay draft (list_events id db) ≡ some j.state
perform_all-replays cs store id j ks e =
    (perform_keeps cs (record { database = empty; store = store }) ks empty-IsTraced).traced id j e
