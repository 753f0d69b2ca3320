-- ===== src/Deployment/Replays.antt =====
-- The job service, the orchestrator, the services of certmon/acme_service.py and the deployment of
-- certificates (certmon/deployment.py) together.
use certmon.Prelude.{ℕ, String, ◌≡◌, Option, some, none, List, [], ◌∷◌}
use certmon.Permissions.{Permission}
use certmon.Models.{draft, deployment_pending, deployed}
use certmon.Db.{Job, empty}
use certmon.Db.Jobs.{get_job, list_events}
use certmon.Renewals.History.{IsTraced, replay}
use certmon.Renewals.History.Notes.{record_event-IsTraced, compare_and_set_job-IsTraced}
use certmon.Renewals.History.Service.{transition-IsTraced, empty-IsTraced}
use certmon.Artifacts.{Store}
use certmon.Orchestrator.{World}
use certmon.Orchestrator.Served.{Call, perform, perform-IsTraced}
use certmon.Acme.{Acme}
use certmon.Acme.Replays.{through_acme, through_acme-IsOrderly}
use certmon.Deployment.{Device, Deployer, cleared}
use certmon.Deployment.Rules.{keeps_deploy}
use certmon.Deployment.Service.{deploy}

pub data Step : Type 1 where
  call : Acme → Call → Step
  deployment : Option (List Permission) → Deployer → ℕ → Device → String → Option String → Step

unfoldable pub take_step : Step → World → World
unfolding perform through_acme
take_step (call a c) w = perform (through_acme a c) w
take_step (deployment current d now device certificate id) w =
    (deploy current d now device certificate id w).1

unfoldable pub run_steps : List Step → World → World
unfolding take_step
run_steps [] w = w
run_steps (s ∷ ss) w = run_steps ss (take_step s w)

step-IsTraced : (s : Step) (w : World) → IsTraced w.database → IsTraced (take_step s w).database
unfolding take_step
step-IsTraced (call a c) w h = perform-IsTraced (through_acme a c) w (through_acme-IsOrderly a c) h
step-IsTraced (deployment current d now device certificate id) w h =
    keeps_deploy IsTraced current d now device
      (λ id from v us db h. transition-IsTraced current db h now id from v deployment_pending us)
      (λ id v us db h. compare_and_set_job-IsTraced now id deployment_pending v us db h)
      (λ kind details id db h. record_event-IsTraced now kind details db h id)
      (λ _ id v db h. transition-IsTraced current db h now id deployment_pending v deployed cleared)
      certificate id w h

steps-IsTraced :
    (ss : List Step) (w : World) → IsTraced w.database → IsTraced (run_steps ss w).database
unfolding run_steps
steps-IsTraced [] w h = h
steps-IsTraced (s ∷ ss) w h = steps-IsTraced ss (take_step s w) (step-IsTraced s w h)

-- After any requests to the job service, to the ACME orchestrator and for the deployment of a
-- certificate on an empty database, in any order, successful or not, whatever the ACME server, the
-- DNS provider, the devices, their verifier and the clock answer: the logged state changes of every
-- stored job start at `draft`, each starts where the one before it ended and is an allowed
-- transition, and the last one ends in the state of the job.
pub run_steps-replays :
    (ss : List Step) (store : Store) (id : String) (j : Job)
    → let db = (run_steps ss (record { database = empty; store = store })).database in
      get_job id db ≡ some j → replay draft (list_events id db) ≡ some j.state
run_steps-replays ss store id j e =
    (steps-IsTraced ss (record { database = empty; store = store }) empty-IsTraced).traced id j e

-- After any requests to the job service (create, transition, abandon, remove, recover), to the ACME
-- orchestrator and for the deployment of a certificate on an empty database, in any order, successful
-- or not: a job that is not stored, because it never was or because it has been removed, has no
-- events.
pub run_steps-orphans :
    (ss : List Step) (store : Store) (id : String)
    → let db = (run_steps ss (record { database = empty; store = store })).database in
      get_job id db ≡ none → list_events id db ≡ []
run_steps-orphans ss store id e =
    (steps-IsTraced ss (record { database = empty; store = store }) empty-IsTraced).orphans id e
