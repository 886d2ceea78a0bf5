-- ===== src/Pipelines/Schedules/Tasks.antt =====
-- What a job of the scheduler does, in `SchedulePipelineRun` of
-- `internal/service/pipeline_service.go` and in `SchedulePipelines` of
-- `internal/handler/pipelines.go`, which also starts the jobs again with the program.
pub mod Resumed
use simple_ci.Base.{ℕ, List, [], ◌∷◌, Bool, true, String, Option, none, some, if◌then◌else◌}
use simple_ci.Base.Errors.{Result, ok, err, panic}
use simple_ci.Base.Exec.{Exec, pure, lift, ◌>>◌}
use simple_ci.Store.{Run, Pipeline}
use simple_ci.Store.Driver.{statement}
use simple_ci.Store.Runs.Interface.{RunStore}
use simple_ci.Store.Tables.Pipelines as Store
use simple_ci.Pipelines.Queues.{enqueue_run}
use simple_ci.Pipelines.Schedules.{
  App, Job, Cron, on_db, on_queues, add_job, list_scheduled_pipelines, create_pipeline_run,
}

unfoldable pub logged : Result (Unit {0}) → Result (Unit {0})
logged panic = panic
logged _ = ok tt

module _ {rs : RunStore} where
  run_created : Bool → Result Run → Exec (App rs) (Unit {0})
  unfolding logged
  run_created resumed (ok r) a = let (x, a') = on_queues (enqueue_run r) a in (logged x, a')
  run_created resumed (err e) a = (if resumed then panic else ok tt, a)
  run_created resumed panic a = (panic, a)

  -- The task of a job. `EnqueueRun` follows the run that it is given, which a resumed job hands on
  -- even if it is nil.
  pub run_job : ℕ → Job → Exec (App rs) (Unit {0})
  unfolding run_created create_pipeline_run
  run_job now j a = elim j.branch [
    | none ↦ (panic, a)
    | some branch ↦
        let (r, a') = create_pipeline_run now j.pipeline branch a in run_created j.resumed r a'
  ]

  -- A job that the scheduler took or refused.
  unfoldable pub resume_with : Pipeline → Result String → Exec (App rs) (Unit {0})
  unfolding add_job logged
  resume_with p (ok id) a =
      let job : Job = record {
        job_id = id;
        pipeline = p.pipeline_id;
        branch = p.schedule_branch;
        resumed = true;
      } in
      let (done, a') = add_job job a in
      let (x, a'') =
        on_db (statement (Store.update_pipeline_schedule_job_id p.pipeline_id (some id))) a' in
      (logged x, a'')
  resume_with p (err e) a = (panic, a)
  resume_with p panic a = (panic, a)

  unfoldable pub resume_at : Cron → Pipeline → Option String → Exec (App rs) (Unit {0})
  unfolding resume_with
  resume_at c p none a = (panic, a)
  resume_at c p (some schedule) a = resume_with p (c.new_job schedule) a

  unfoldable pub schedule_one : Cron → Pipeline → Exec (App rs) (Unit {0})
  unfolding resume_at
  schedule_one c p = resume_at c p p.schedule

  unfoldable pub schedule_each : Cron → List Pipeline → Exec (App rs) (Unit {0})
  unfolding schedule_one
  schedule_each c [] = pure tt
  schedule_each c (p ∷ ps) = schedule_one c p >> schedule_each c ps

  unfoldable pub schedule_listed : Cron → Result (List Pipeline) → Exec (App rs) (Unit {0})
  unfolding schedule_each
  schedule_listed c (ok ps) = schedule_each c ps
  schedule_listed c (err e) = lift panic
  schedule_listed c panic = lift panic

  -- `log.Fatal` ends the program. A schedule that the scheduler refuses leaves `job` nil, and `job.ID()` follows it.
  unfoldable pub schedule_pipelines : Cron → Exec (App rs) (Unit {0})
  unfolding schedule_listed
  schedule_pipelines c a = let (r, a') = list_scheduled_pipelines a in schedule_listed c r a'
