-- ===== src/Pipelines/RunPages.antt =====
-- The handlers of `internal/handler/pipelines.go` that show runs and cancel one, with the methods of
-- `PipelineService` behind them. The order of the rows of a query is the parameter `latest_first`.
pub mod Cover
use simple_ci.Base.{
  ℕ, String, ◌==◌, List, Bool, Option, none, some, length, take, ltb, map, if◌then◌else◌,
}
use simple_ci.Base.Errors.{Error, is_no_rows, Result, ok, err, panic}
use simple_ci.Base.Exec.{Exec, pure, lift, ◌>>=◌}
use simple_ci.Store.{Run, Pipeline}
use simple_ci.Store.Runs.Lists as Lists
use simple_ci.Store.Runs.Sqlite as Runs
use simple_ci.Store.Runs.Sqlite.Laws.{sqlite_run_store}
use simple_ci.Store.Tables.{pipeline_key, has_key}
use simple_ci.RunQueue.Channels.Cancel.{Cancels, cancel_run}
use simple_ci.Users.{or_empty}
use simple_ci.Web.{Reply, page, toast, Visit, new_error, attempt}
use simple_ci.Web.Paging.{max_runs_per_page, max_pages, offset, current_page}
use simple_ci.Pipelines.Queues.{Slot, get_pipeline_run_queue}
use simple_ci.Pipelines.Schedules as Service
use simple_ci.Pipelines.Schedules.{App, on_runs, on_queues}
use simple_ci.Pipelines.Requests.{PipelineParams, RunParams}

-- `internal/handler/params.go`; a page before the first is not a number here.
pub record ListRunsParams : Type 0 where
  pub pipeline_id : ℕ
  pub page : ℕ

-- What the templates of the runs are given.
pub record RunsView : Type 0 where
  pub runs : List Run
  pub pipeline_id : ℕ
  pub current : ℕ
  pub pages : ℕ

abbrev pub Site : Type 0
Site = App sqlite_run_store

abbrev otherwise : ℕ → String → Visit → Error → Reply
otherwise status text v e = new_error v (some e) status text

pub get_pipeline_run_page : Result RunParams → Visit → Exec Site Reply
get_pipeline_run_page bound v =
    attempt (lift bound) (otherwise 500 "unablea to get pipeline run page" v) λ rp.
      attempt (on_runs (Runs.read_run_by_id rp.run_id)) (otherwise 500 "unable to read run data" v)
        (λ r. pure (page (if v.hx then "PipelineRunPageMain" else "PipelineRunPage")))

-- `runs[0:3]`
abbrev first_three : List Run → List Run
first_three runs = if ltb 3 (length runs) then take 3 runs else runs

pub get_pipeline_runs : (List Run → Reply) → Result RunParams → Visit → Exec Site Reply
get_pipeline_runs render bound v =
    attempt (lift bound) (otherwise 400 "invalid pipeline data" v) λ rp.
      attempt (on_runs (Lists.list_pipeline_runs rp.pipeline_id))
        (otherwise 400 "unable to list pipeline runs" v) (λ runs. pure (render (first_three runs)))

pub get_pipeline_card_content : Result PipelineParams → Visit → Exec Site Reply
get_pipeline_card_content bound v =
    attempt (lift bound) (otherwise 400 "invalid pipeline id" v) λ pp.
      attempt (Service.get_pipeline_by_id pp.pipeline_id)
        (λ e.
          if is_no_rows e
          then new_error v (some e) 404 "pipeline not found"
          else new_error v (some e) 500 "unable to read pipeline by id")
        (λ p. pure (page "PipelineCardContent"))

zero_if_absent : Result ℕ → Result ℕ
zero_if_absent (ok n) = ok n
zero_if_absent (err e) = if is_no_rows e then ok 0 else err e
zero_if_absent panic = panic

module _ (latest_first : List Run → List Run) where
  pub get_latest_pipeline_runs : (List Run → Reply) → Result RunParams → Visit → Exec Site Reply
  get_latest_pipeline_runs render bound v =
      attempt (lift bound) (otherwise 400 "invalid pipeline data" v) λ rp.
        attempt (on_runs (Lists.list_latest_pipeline_runs latest_first rp.pipeline_id 3))
          (otherwise 400 "unable to list pipeline runs" v) (λ runs. pure (render runs))

  abbrev pub known : ℕ → Site → Bool
  known id a = has_key pipeline_key id a.db.stored.pipelines

  abbrev one_page : ℕ → ℕ → Exec Site (List Run)
  one_page id number a =
      on_runs
        (Lists.list_pipeline_runs_paginated latest_first (known id a) id max_runs_per_page
          (offset number))
        a

  abbrev counted : ℕ → Exec Site ℕ
  counted id a = let (r, a') = on_runs (Lists.count_pipeline_runs id) a in (zero_if_absent r, a')

  -- The part that both pages share.
  runs_page : ListRunsParams → ℕ → (RunsView → Reply) → Visit → Exec Site Reply
  unfolding zero_if_absent
  runs_page lrp current render v =
      attempt (counted lrp.pipeline_id) (otherwise 500 "unable to count pipeline runs" v) λ count.
        attempt (or_empty (one_page lrp.pipeline_id lrp.page))
          (otherwise 500 "error listing pipeline runs" v)
          (λ runs. pure (
            render (record {
              runs = runs;
              pipeline_id = lrp.pipeline_id;
              current = current;
              pages = max_pages count;
            })))

  -- `render` stands for the templates `RunsMain` or `RunsPage`.
  pub get_pipeline_runs_page : (RunsView → Reply) → Result ListRunsParams → Visit → Exec Site Reply
  unfolding runs_page
  get_pipeline_runs_page render bound v =
      attempt (lift bound) (otherwise 400 "invalid request data" v)
        λ lrp. runs_page lrp (current_page lrp.page) render v

  -- `render` stands for the template `RunsPagination`.
  pub get_pipeline_runs_list : (RunsView → Reply) → Result ListRunsParams → Visit → Exec Site Reply
  unfolding runs_page
  get_pipeline_runs_list render bound v =
      attempt (lift bound) (otherwise 400 "invalid request data" v)
        λ lrp. runs_page lrp lrp.page render v

-- The cancel maps of the queues, by pipeline, beside the rest.
pub record Cancelling : Type 0 where
  pub app : Site
  pub cancels : ℕ → Cancels

abbrev on_app : {A : Type 0} → Exec Site A → Exec Cancelling A
on_app m c = let (r, a) = m c.app in (r, record c { app = a })

-- `rq.CancelRun(rp.RunID)`
abbrev cancel_in : ℕ → ℕ → Exec Cancelling (Unit {0})
cancel_in id run_id c =
    let (r, m) = cancel_run run_id (c.cancels id) in
    (r, record c { cancels = λ j. if j == id then m else c.cancels j })

abbrev cancel_found : RunParams → Option Slot → Exec Cancelling Reply
cancel_found rp none = pure (toast "pipline run queue not found")
cancel_found rp (some slot) =
    cancel_in rp.pipeline_id rp.run_id >>= λ done. pure (toast "cancelling run...")

pub post_cancel_pipeline_run : Result RunParams → Visit → Exec Cancelling Reply
post_cancel_pipeline_run bound v =
    attempt (lift bound) (otherwise 400 "invalid pipeline or run ID" v)
      λ rp. on_app (on_queues (get_pipeline_run_queue rp.pipeline_id)) >>= cancel_found rp
