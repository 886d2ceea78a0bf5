-- ===== src/Pipelines/Schedules.antt =====
-- The rest of `PipelineService` of `internal/service/pipeline_service.go`, with
-- `Tasks` for what the jobs do. gocron is a list of jobs; what it
-- says to a schedule, and the id it gives, is a parameter.
pub mod Tasks
pub mod Laws
pub mod Changes
pub mod Secrets
use simple_ci.Base.{
  ◌≡◌, refl, ℕ, suc, String, ◌is◌, ◌<>◌, decimal, List, [], ◌∷◌, ◌++◌, filter, not, Bool, true,
  false, Option, none, some, is_some, ◌==◌, ◌&&◌, if◌then◌else◌,
}
use simple_ci.Base.Errors.{Error, message, wrap, is_no_rows, Result, ok, err, panic}
use simple_ci.Base.Exec.{Exec, pure, raise, lift, gets, modify, ◌>>=◌, ◌>>◌}
use simple_ci.Store.{Run, Pipeline, PipelineRunData, Agent, ApiKey}
use simple_ci.Store.Driver.{Driven, statement}
use simple_ci.Store.Runs.Interface.{RunStore}
use simple_ci.Store.Tables.Fleet as Fleet
use simple_ci.Store.Tables.Pipelines as Store
use simple_ci.Users.{Db, or_empty}
use simple_ci.Pipelines.Queues.{
  Service, add_run_queue, start_run_queue, remove_run_queue, enqueue_run,
}

-- A job of the scheduler: its task creates and enqueues a run of the branch. `resumed` is set for a
-- job of `SchedulePipelines`, whose task goes on when the run could not be created.
pub record Job : Type 0 where
  pub job_id : String
  pub pipeline : ℕ
  pub branch : Option String
  pub resumed : Bool

pub record Cron : Type 0 where
  -- `NewJob` of a schedule, with the id of the job
  pub new_job : String → Result String
  -- `uuid.MustParse` does not panic
  pub is_uuid : String → Bool

module _ (rs : RunStore) where
  open rs use {State}

  pub record App : Type 0 where
    pub db : Db
    pub runs : State
    pub service : Service
    pub jobs : List Job
    -- the calls that never came back
    pub stuck : Bool

module _ {rs : RunStore} where
  open rs use {State}

  abbrev pub on_db : {A : Type 0} → Exec Db A → Exec (App rs) A
  on_db m a = let (r, db) = m a.db in (r, record a { db = db })

  abbrev pub on_runs : {A : Type 0} → Exec State A → Exec (App rs) A
  on_runs m a = let (r, s) = m a.runs in (r, record a { runs = s })

  unfoldable pub blocked : {A : Type 0} → App rs → Option (Result A × Service) → Result A × App rs
  blocked a none = (panic, record a { stuck = true })
  blocked a (some (r, s)) = (r, record a { service = s })

  -- A call that never returns ends what the caller does, as a panic would.
  abbrev pub on_queues : {A : Type 0} → (Service → Option (Result A × Service)) → Exec (App rs) A
  on_queues m a = blocked a (m a.service)

abbrev pub deref : {A : Type 0} → Option A → Result A
deref none = panic
deref (some a) = ok a

abbrev pub wrap_error : {A : Type 0} → String → Result A → Result A
wrap_error m (ok a) = ok a
wrap_error m (err e) = err (wrap m e)
wrap_error m panic = panic

decrypted : (String → Result (List ℕ)) → PipelineRunData → Result PipelineRunData
decrypted decrypt prd = elim prd.ssh_private_key_hash [
  | none ↦ ok prd
  | some hash ↦ elim (decrypt hash) [
    | ok key ↦ ok (record prd { ssh_private_key = key })
    | err e ↦ err e
    | panic ↦ panic
  ]
]

abbrev pub without : String → List Job → List Job
without id = filter (λ j. not (j.job_id is id))

module _ {rs : RunStore} where
  pub create_pipeline : ℕ → ℕ → String → String → String → String → Exec (App rs) Pipeline
  create_pipeline queue_size agent name description repository script_path = do
    p ← on_db (statement (Store.create_pipeline agent name description repository script_path))
    on_queues (add_run_queue p.pipeline_id queue_size)
    on_queues (start_run_queue p.pipeline_id)
    pure p

  unfoldable pub get_pipeline_by_id : ℕ → Exec (App rs) Pipeline
  get_pipeline_by_id id = on_db (statement (Store.read_pipeline_by_id id))

  pub get_pipeline_and_agents : ℕ → Exec (App rs) (Pipeline × List Agent)
  get_pipeline_and_agents id = do
    p ← on_db (statement (Store.read_pipeline_by_id id))
    agents ← on_db (or_empty (statement Fleet.list_agents))
    pure (p, agents)

  pub get_pipeline_run_data : (String → Result (List ℕ)) → ℕ → Exec (App rs) PipelineRunData
  unfolding decrypted
  get_pipeline_run_data decrypt id = do
    prd ← on_db (statement (Store.read_pipeline_run_data id))
    lift (decrypted decrypt prd)

  pub list_pipelines_and_agents : Exec (App rs) (List Pipeline × List Agent)
  list_pipelines_and_agents = do
    pipelines ← on_db (or_empty (statement Store.list_pipelines))
    agents ← on_db (or_empty (statement Fleet.list_agents))
    pure (pipelines, agents)

  unfoldable pub list_scheduled_pipelines : Exec (App rs) (List Pipeline)
  list_scheduled_pipelines = on_db (or_empty (statement Store.list_scheduled_pipelines))

  pub delete_pipeline : ℕ → Exec (App rs) (Unit {0})
  delete_pipeline id = do
    on_db (statement (Store.delete_pipeline id))
    on_queues (remove_run_queue id)

  unfoldable pub add_job : Job → Exec (App rs) (Unit {0})
  add_job j = modify λ a. record a { jobs = a.jobs ++ j ∷ [] }

  unfoldable pub schedule_pipeline_run :
      Option Cron → ℕ → String → String → Exec (App rs) (Option String)
  unfolding add_job
  schedule_pipeline_run none id schedule branch = pure none
  schedule_pipeline_run (some c) id schedule branch = do
    job ← lift (wrap_error "error scheduling pipeline job: " (c.new_job schedule))
    add_job (record { job_id = job; pipeline = id; branch = some branch; resumed = false })
    pure (some job)

  unfoldable pub reschedule :
      Option Cron → Option String → Option String → Pipeline → Exec (App rs) (Unit {0})
  reschedule cron schedule branch p = do
    s ← lift (deref schedule)
    b ← lift (deref branch)
    job ← schedule_pipeline_run cron p.pipeline_id s b
    on_db (statement (Store.update_pipeline_schedule p.pipeline_id schedule branch job))

  -- That the job could not be removed is logged only, and the database is not told.
  unfoldable pub unschedule : Cron → Pipeline → Exec (App rs) (Unit {0})
  unschedule c p = do
    job ← lift (deref p.schedule_job_id)
    if c.is_uuid job then modify (λ a. record a { jobs = without job a.jobs }) else lift panic

  unfoldable pub change_schedule :
      Option Cron → Option String → Option String → Pipeline → Exec (App rs) (Unit {0})
  unfolding reschedule unschedule
  change_schedule none schedule branch p = reschedule none schedule branch p
  change_schedule (some c) schedule branch p =
      if not (is_some schedule) && is_some p.schedule
      then unschedule c p
      else reschedule (some c) schedule branch p

  unfoldable pub update_pipeline_schedule :
      Option Cron → ℕ → Option String → Option String → Exec (App rs) (Unit {0})
  unfolding change_schedule
  update_pipeline_schedule cron id schedule branch =
      on_db (statement (Store.read_pipeline_by_id id)) >>= change_schedule cron schedule branch

  unfoldable pub create_pipeline_run : ℕ → ℕ → String → Exec (App rs) Run
  create_pipeline_run now pipeline branch = on_runs (rs.create_pipeline_run now pipeline branch)
