-- ===== src/Pipelines/Examples.antt =====
-- Pipelines, their queues, schedules and runs: `internal/service/pipeline_service.go` and
-- `internal/handler/pipelines.go`.
use simple_ci.Base.{
  max, map, suc, Option, ◌≡◌, refl, ℕ, String, List, [], ◌∷◌, none, some, true, false, find_by,
}
use simple_ci.Base.Errors.{ok}
use simple_ci.Store.{Run, Pipeline, queued}
use simple_ci.Store.Table
use simple_ci.Store.Driver.{statement}
use simple_ci.Store.Runs.Sqlite.{Db, create_pipeline_run, insert, new_run}
use simple_ci.Store.Runs.Sqlite.Laws.{sqlite_run_store}
use simple_ci.Store.Tables.{Tables}
use simple_ci.Store.Tables.Pipelines as Store
use simple_ci.RunQueue.Channels.{new_run_queue, enqueue}
use simple_ci.Pipelines.Queues.{Slot, Service, lookup, get_pipeline_run_queue, shutdown_run_queue}
use simple_ci.Pipelines.Queues.Laws.{free, shutdown_run_queue_blocks}
use simple_ci.Pipelines.Queues.Calls.{AllReturn, calls-Returns}
use simple_ci.Pipelines.Schedules.{App, Job, Cron, update_pipeline_schedule, without}
use simple_ci.Security.{to_bytes}
use simple_ci.Pipelines.Requests.{RunParams}
use simple_ci.Pipelines.Streams.{
  Round, request_done, message, nothing, Reads, get_pipeline_run_sse, get_pipeline_run_output,
  get_pipeline_run_status, streams_lem, taken,
}
use simple_ci.Pipelines.Requests.{start_run, post_pipeline_run_webhook_trigger}
use mathlib.Core.List.{Perm, reverse, reverse_perm}
use simple_ci.Store.Runs.Lists.{runs_of, listed}
use simple_ci.Store.Table.{Table}
use simple_ci.Pipelines.RunPages.{RunsView}
use simple_ci.Pipelines.RunPages.Cover.{with_runs, Shows, gather, pages_cover}
use simple_ci.Pipelines.Requests.Runs.{start_run_stores, webhook_needs_key}

abbrev pipeline : Pipeline
pipeline = record {
  pipeline_id = 1;
  pipeline_agent_id = 2;
  name = "app";
  description = "";
  repository = "me/app";
  script_path = "ci.yml";
  schedule = some "0 4 * * *";
  schedule_branch = some "main";
  schedule_job_id = some "job";
}

abbrev tables : Tables
tables = record {
  users = record { rows = []; last_id = 0 };
  sessions = [];
  credentials = record { rows = []; last_id = 0 };
  agents = record { rows = []; last_id = 0 };
  pipelines = record { rows = pipeline ∷ []; last_id = 1 };
  api_keys = record { rows = []; last_id = 0 };
}

abbrev queues : List (ℕ × Slot)
queues = (1, record { queue = new_run_queue 3; goroutines = 1 }) ∷ []

abbrev no_runs : Db
no_runs = record { stored = record { rows = []; last_id = 0 }; refusals = [] }

abbrev old_job : Job
old_job = record { job_id = "job"; pipeline = 1; branch = some "main"; resumed = true }

abbrev app : App sqlite_run_store
app = record {
  db = record { stored = tables; refusals = [] };
  runs = no_runs;
  service = free queues;
  jobs = old_job ∷ [];
  stuck = false;
}

abbrev cron : Cron
cron = record { new_job = λ schedule. ok "new"; is_uuid = λ id. true }

abbrev first_run : Run
first_run = new_run 1 5 1 "main"

shutdown_run_queue_blocks_example : shutdown_run_queue 1 (free queues) ≡ none
shutdown_run_queue_blocks_example = shutdown_run_queue_blocks 1 (free queues)

calls-Returns_example : AllReturn 2 3 (1 ∷ 2 ∷ []) (pipeline ∷ []) first_run queues
calls-Returns_example = calls-Returns 2 3 (1 ∷ 2 ∷ []) (pipeline ∷ []) first_run queues

abbrev one_accepted : Service
one_accepted =
    free ((1, record { queue = (enqueue first_run (new_run_queue 3)).1; goroutines = 1 }) ∷ [])

start_run_stores_example :
    (sqlite_run_store.row
        (start_run {rs = sqlite_run_store}
          (record { user = none; hx = true })
          5
          "main"
          pipeline
          app).1.runs
        1
      ≡ some first_run)
    × (first_run.status ≡ queued)
    × (first_run.run_pipeline_id ≡ 1)
    × (first_run.branch ≡ "main")
    × (sqlite_run_store.row no_runs 1 ≡ none)
unfolding create_pipeline_run insert new_run statement
start_run_stores_example =
    start_run_stores sqlite_run_store (record { user = none; hx = true }) 5 "main" pipeline app
      first_run (create_pipeline_run 5 1 "main" no_runs).1 tt refl

abbrev triggered : App sqlite_run_store
triggered =
    (post_pipeline_run_webhook_trigger {rs = sqlite_run_store} 5 "guess"
      (ok (record { pipeline_id = 1; run_id = 0; branch = "" }))
      (record { user = none; hx = false }) app).1

webhook_needs_key_example :
    (triggered.runs ≡ no_runs) × (triggered.service ≡ free queues) × (triggered.db.stored ≡ tables)
unfolding find_by
webhook_needs_key_example =
    webhook_needs_key sqlite_run_store 5 "guess"
      (ok (record { pipeline_id = 1; run_id = 0; branch = "" }))
      (record { user = none; hx = false }) app refl

abbrev new_schedule : Option String
new_schedule = some "0 5 * * *"

abbrev new_branch : Option String
new_branch = some "dev"

abbrev rescheduled : App sqlite_run_store
rescheduled =
    (update_pipeline_schedule {rs = sqlite_run_store} (some cron) 1 new_schedule new_branch app).1

abbrev asked : RunParams
asked = record { pipeline_id = 1; run_id = 1; branch = "" }

abbrev rounds : List (Round String)
rounds = message "a\nb" ∷ nothing ∷ message "" ∷ request_done ∷ message "c" ∷ []

abbrev line : Run → Option (List ℕ)
line r = some (97 ∷ [])

streams_lem_example :
    Reads
      (get_pipeline_run_sse line
        (message first_run ∷ [])
        (ok asked)
        (record { user = none; hx = true })
        app)
      app
      line
      (message first_run ∷ [])
    × Reads
        (get_pipeline_run_output rounds (ok asked) (record { user = none; hx = true }) app)
        app
        (λ out. some (to_bytes out))
        rounds
    × Reads
        (get_pipeline_run_status line
          (message first_run ∷ [])
          (ok asked)
          (record { user = none; hx = true })
          app)
        app
        line
        (message first_run ∷ [])
unfolding simple_ci.Pipelines.Schedules.blocked get_pipeline_run_queue lookup taken to_bytes
streams_lem_example =
    streams_lem line line (message first_run ∷ []) rounds asked (record { user = none; hx = true })
      (record { queue = new_run_queue 3; goroutines = 1 }) app app ((refl, tt), tt)
      ((refl, (refl, (refl, tt))), tt) ((refl, tt), tt) refl

-- Two runs of the pipeline and one of another, the newest first on the page.
abbrev some_runs : Table Run
some_runs = record {
  rows = new_run 1 5 1 "main" ∷ new_run 2 6 4 "main" ∷ new_run 3 7 1 "dev" ∷ [];
  last_id = 3;
}

pages_cover_example :
    (view : ℕ → RunsView) × ((n : ℕ)
      → ((view n).current ≡ suc n)
        × Shows reverse 1
            (record { user = none; hx = true })
            (with_runs reverse 1 some_runs app)
            (suc n)
            (view n))
    × Perm (gather (λ n. (view n).runs) 0 (max 1 (view 0).pages)) (map listed (runs_of 1 some_runs))
unfolding Table.find
pages_cover_example =
    pages_cover reverse 1 (record { user = none; hx = true }) some_runs app reverse_perm refl
