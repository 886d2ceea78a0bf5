-- ===== src/Start/Examples.antt =====
-- A start of the program over one pipeline with a schedule, as in `cmd/simpleci/main.go`.
use simple_ci.Base.{◌≡◌, refl, ℕ, ◌==◌, any, map, [], ◌∷◌, none, some, true, false, if◌then◌else◌}
use simple_ci.Base.Errors.{message, ok, err}
use simple_ci.Store.{Pipeline}
use simple_ci.Store.Driver.{statement}
use simple_ci.Store.Runs.Sqlite.{Db, new_run}
use simple_ci.Store.Runs.Sqlite.Laws.{sqlite_run_store}
use simple_ci.Store.Table
use simple_ci.Store.Tables.{Tables}
use simple_ci.Store.Tables.Fleet as Agents
use simple_ci.Store.Tables.Pipelines as Rows
use simple_ci.Store.Tables.Users as Accounts
use simple_ci.Fleet as Service
use simple_ci.RunQueue.Channels.{new_run_queue}
use simple_ci.Users.{Console, initialize_superuser}
use simple_ci.Users.Examples as Users
use simple_ci.Pipelines.Queues.{lookup, ids_of, initialize_run_queues}
use simple_ci.Pipelines.Schedules.{App, Cron, blocked, list_scheduled_pipelines}
use simple_ci.Pipelines.Schedules.Tasks.{schedule_pipelines}
use simple_ci.Pipelines.Schedules.Tasks.Resumed.{target}
use simple_ci.Start.{start}
use simple_ci.Start.Ready.{new_program, start_ok}

abbrev nightly : Pipeline
nightly = record {
  pipeline_id = 1;
  pipeline_agent_id = 1;
  name = "app";
  description = "";
  repository = "me/app";
  script_path = "ci.yml";
  schedule = some "0 4 * * *";
  schedule_branch = some "main";
  schedule_job_id = some "old";
}

abbrev stored : Tables
stored = record Users.tables { pipelines = record { rows = nightly ∷ []; last_id = 1 } }

-- A run that was waiting when the program stopped.
abbrev runs : Db
runs = record { stored = record { rows = new_run 1 5 1 "main" ∷ []; last_id = 1 }; refusals = [] }

abbrev no_console : Console
no_console = record { username = err (message "EOF"); password = err (message "EOF") }

abbrev cron : Cron
cron = record { new_job = λ schedule. ok "new"; is_uuid = λ id. true }

abbrev started : App sqlite_run_store
started =
    (start {rs = sqlite_run_store} false Users.plain no_console "salt" 7 cron 3
      (new_program sqlite_run_store stored runs)).1

start_ok_example :
    ((j : ℕ)
      → lookup j started.service.queues ≡ (
          if any (λ i. j == i) (ids_of (nightly ∷ []))
          then some (record { queue = new_run_queue 3; goroutines = 1 })
          else none))
    × (map target started.jobs ≡ (1, some "main") ∷ [])
    × (started.runs ≡ runs)
unfolding start statement Service.create_controller_agent Rows.list_pipelines blocked
    initialize_run_queues initialize_superuser Accounts.list_superusers
    Agents.create_controller_agent schedule_pipelines list_scheduled_pipelines
    Rows.list_scheduled_pipelines Rows.update_pipeline_schedule_job_id Table.find
start_ok_example =
    start_ok sqlite_run_store false Users.plain no_console "salt" 7 cron 3 stored runs started refl
