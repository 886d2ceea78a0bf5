-- ===== src/Start.antt =====
-- The start of the program: what `main` of `cmd/simpleci/main.go` does with the stores, the queues and the
-- scheduler before it serves requests, and `InitializeRunQueues` of `internal/service/pipeline_service.go`.
pub mod Ready
mod Examples
use simple_ci.Base.{ℕ, String, Bool, List}
use simple_ci.Base.Errors.{Error, Result, ok, err, panic}
use simple_ci.Base.Exec.{Exec, pure, ◌>>=◌, ◌>>◌}
use simple_ci.Store.{Pipeline}
use simple_ci.Store.Driver.{statement}
use simple_ci.Store.Runs.Interface.{RunStore}
use simple_ci.Store.Tables.Pipelines as Store
use simple_ci.Users.{Bcrypt, Console, or_empty, initialize_superuser}
use simple_ci.Fleet as Service
use simple_ci.Pipelines.Queues as Queues
use simple_ci.Pipelines.Schedules.{App, Cron, on_db, on_queues}
use simple_ci.Pipelines.Schedules.Tasks.{schedule_pipelines}

-- `log.Fatal`
abbrev pub fatal_on : {A : Type 0} → Result A → Result A
fatal_on (ok x) = ok x
fatal_on _ = panic

module _ {rs : RunStore} where
  -- The error is not looked at: at a second start the agent is there.
  abbrev pub ignored : {A : Type 0} → Exec (App rs) A → Exec (App rs) (Unit {0})
  ignored m a = (ok tt, (m a).1)

  abbrev pub or_fatal : {A : Type 0} → Exec (App rs) A → Exec (App rs) A
  or_fatal m a = let (r, b) = m a in (fatal_on r, b)

  unfoldable pub initialize_run_queues : ℕ → Exec (App rs) (Unit {0})
  initialize_run_queues queue_size = do
    pipelines ← on_db (or_empty (statement Store.list_pipelines))
    on_queues (Queues.initialize_run_queues (ok pipelines) queue_size)

  unfoldable pub start : Bool → Bcrypt → Console → String → ℕ → Cron → ℕ → Exec (App rs) (Unit {0})
  unfolding initialize_run_queues
  start windows bcrypt console salt now c queue_size = do
    ignored (on_db (Service.create_controller_agent windows))
    or_fatal (initialize_run_queues queue_size)
    on_db (initialize_superuser bcrypt console salt now)
    schedule_pipelines c
