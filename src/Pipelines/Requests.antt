-- ===== src/Pipelines/Requests.antt =====
-- The handlers of `internal/handler/pipelines.go` that change or read pipelines and start runs.
-- Echo's binding of the parameters is an argument; `trim` is `strings.TrimSpace`.
pub mod Runs
use simple_ci.Base.{
  ℕ, String, ◌<>◌, ◌is◌, ◌==◌, decimal, List, Bool, true, false, Option, none, some, if◌then◌else◌,
}
use simple_ci.Base.Errors.{Error, message, is_no_rows, Result, ok, err, panic}
use simple_ci.Base.Exec.{Exec, pure, lift, ◌>>=◌}
use simple_ci.Store.{Run, Pipeline}
use simple_ci.Store.Driver.{statement}
use simple_ci.Store.Runs.Interface.{RunStore}
use simple_ci.Store.Tables.Pipelines as Store
use simple_ci.Web.{
  Reply, hx_redirect, page, toast, no_content, http_error, Visit, new_error, attempt,
  is_unique_constraint_error,
}
use simple_ci.Pipelines.Queues.{enqueue_run}
use simple_ci.Pipelines.Schedules as Service
use simple_ci.Pipelines.Schedules.{App, Cron, on_db, on_queues}

-- `internal/handler/params.go`
pub record PipelineParams : Type 0 where
  pub pipeline_id : ℕ
  pub pipeline_agent_id : ℕ
  pub name : String
  pub description : String
  pub repository : String
  pub script_path : String
  pub schedule : Option String
  pub schedule_branch : Option String

pub record RunParams : Type 0 where
  pub pipeline_id : ℕ
  pub run_id : ℕ
  pub branch : String

abbrev invalid_data : Visit → Error → Reply
invalid_data v e = new_error v (some e) 400 "invalid pipeline data"

abbrev not_found_or : String → ℕ → Visit → Error → Reply
not_found_or text status v e =
    if is_no_rows e
    then new_error v (some e) status "pipeline not found"
    else new_error v (some e) 500 text

abbrev not_created : Visit → String → Error → Reply
not_created v name e =
    if is_unique_constraint_error e
    then new_error v (some e) 409 ("An pipeline with the name " <> name <> " already exists")
    else new_error v (some e) 500 "Unable to create pipeline"

abbrev pub run_path : Pipeline → Run → String
run_path p r = "/app/pipelines/" <> decimal p.pipeline_id <> "/runs/" <> decimal r.run_id

module _ {rs : RunStore} where
  pub get_pipelines_page : Visit → Exec (App rs) Reply
  get_pipelines_page v =
      attempt Service.list_pipelines_and_agents
        (λ e.
          if is_no_rows e
          then page "PipelinesPage"
          else new_error v (some e) 500 "something went wrong listing pipelines")
        (λ ps. pure (page "PipelinesPage"))

  pub post_pipeline : ℕ → Result PipelineParams → Visit → Exec (App rs) Reply
  post_pipeline queue_size bound v = attempt (lift bound) (invalid_data v) λ pp.
      attempt
        (Service.create_pipeline queue_size pp.pipeline_agent_id pp.name pp.description
          pp.repository pp.script_path)
        (not_created v pp.name) (λ p. pure (page "PipelineCard"))

  pub get_pipeline_page : Result PipelineParams → Visit → Exec (App rs) Reply
  get_pipeline_page bound v = attempt (lift bound) (invalid_data v) λ pp.
      attempt (Service.get_pipeline_and_agents pp.pipeline_id)
        (not_found_or "something went wrong getting pipeline data" 404 v)
        (λ p. pure (page "PipelinePage"))

  pub patch_pipeline : (String → String) → Result PipelineParams → Visit → Exec (App rs) Reply
  patch_pipeline trim bound v = attempt (lift bound) (invalid_data v) λ pp.
      attempt
        (on_db (
          statement (
            Store.update_pipeline pp.pipeline_id pp.pipeline_agent_id (trim pp.name)
              (trim pp.description) pp.repository (trim pp.script_path))))
        (not_found_or "something went wrong updating the pipeline" 404 v)
        (λ done. pure (toast "Pipeline updated"))

  pub patch_pipeline_schedule : Option Cron → Result PipelineParams → Visit → Exec (App rs) Reply
  patch_pipeline_schedule cron bound v = attempt (lift bound) (invalid_data v) λ pp.
      attempt (Service.update_pipeline_schedule cron pp.pipeline_id pp.schedule pp.schedule_branch)
        (λ e.
          if is_no_rows e
          then new_error v (some e) 400 "invalid pipeline id"
          else new_error v (some e) 500 "unable to update pipeline schedule")
        (λ done. pure (toast "pipeline schedule updated"))

  pub delete_pipeline : Result PipelineParams → Visit → Exec (App rs) Reply
  delete_pipeline bound v = attempt (lift bound) (invalid_data v) λ pp.
      if pp.pipeline_id == 0
      then pure (new_error v (some (message "pipeline id was zero")) 400 "invalid pipeline id")
      else attempt (Service.get_pipeline_by_id pp.pipeline_id)
          (not_found_or "unable to delete pipeline" 404 v)
          (λ p.
            attempt (Service.delete_pipeline p.pipeline_id)
              (λ e. new_error v (some e) 500 "unable to delete pipeline")
              (λ done. pure (hx_redirect "/app/pipelines")))

  -- The run is stored before the queue is asked.
  pub start_run : Visit → ℕ → String → Pipeline → Exec (App rs) Reply
  start_run v now branch p =
      attempt (Service.create_pipeline_run now p.pipeline_id branch)
        (λ e. new_error v (some e) 500 "unable to create pipeline run")
        (λ r.
          attempt (on_queues (enqueue_run r))
            (λ e. new_error v (some e) 500 "pipeline run queue is full")
            (λ done. pure (hx_redirect (run_path p r))))

  pub post_pipeline_run : ℕ → Result RunParams → Visit → Exec (App rs) Reply
  unfolding start_run
  post_pipeline_run now bound v = attempt (lift bound) (invalid_data v) λ rp.
      attempt (Service.get_pipeline_by_id rp.pipeline_id)
        (λ e. new_error v (some e) 500 "unable to read pipeline data") (start_run v now rp.branch)

  trigger : ℕ → String → Pipeline → Exec (App rs) Reply
  trigger now branch p =
      attempt (Service.create_pipeline_run now p.pipeline_id branch)
        (λ e. http_error 500 "unable to create run" none)
        (λ r.
          attempt (on_queues (enqueue_run r))
            (λ e. http_error 500 "pipeline run queue is full" (some e)) (λ done. pure no_content))

  -- `key` is the header of the request. The branch is `main` if none is given.
  pub post_pipeline_run_webhook_trigger :
      ℕ → String → Result RunParams → Visit → Exec (App rs) Reply
  unfolding trigger
  post_pipeline_run_webhook_trigger now key bound v =
      attempt (lift bound) (λ e. http_error 400 "invalid pipeline data" none)
        λ rp.
          attempt (on_db (statement (Store.read_api_key_by_value key)))
            (λ e. http_error 400 "invalid api key" none)
            λ k.
              attempt (Service.get_pipeline_by_id rp.pipeline_id)
                (λ e. http_error 404 "pipeline not found" none)
                (trigger now (if rp.branch is "" then "main" else rp.branch))
