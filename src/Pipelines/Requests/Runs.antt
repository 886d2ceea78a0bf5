-- ===== src/Pipelines/Requests/Runs.antt =====
-- Which runs the handlers of `internal/handler/pipelines.go` start, and which they do not.
use simple_ci.Base.{
  ◌≡◌, refl, ap, ◌∙◌, inl, inr, ℕ, String, true, Option, none, some, find_by, ◌==◌, ==_iff,
}
use simple_ci.Base.Errors.{Error, Result, ok, err, panic}
use simple_ci.Base.Exec.{pure}
use simple_ci.Store.{Run, Pipeline, queued}
use simple_ci.Store.Driver.{statement_outcome}
use simple_ci.Store.Runs.Interface.{RunStore, Creates}
use simple_ci.Store.Tables.{or_no_rows}
use simple_ci.Store.Tables.Pipelines as Store
use simple_ci.Web.{Reply, hx_redirect, new_error, Visit, attempt, branch}
use simple_ci.Pipelines.Queues.{Service, enqueue_run}
use simple_ci.Pipelines.Schedules as Service
use simple_ci.Pipelines.Schedules.{App, on_db, on_runs, on_queues, blocked}
use simple_ci.Pipelines.Requests.{RunParams, run_path, start_run, post_pipeline_run_webhook_trigger}

module _ (rs : RunStore) where
  open rs use {State, row, IsSound}

  answered_runs :
      (otherwise : Error → Reply) (done : Reply) (a : App rs)
      (o : Option (Result (Unit {0}) × Service))
      → (branch otherwise (λ x. pure done) (blocked a o).0 (blocked a o).1).1.runs ≡ a.runs
  unfolding blocked
  answered_runs otherwise done a none = refl
  answered_runs otherwise done a (some (ok x, s)) = refl
  answered_runs otherwise done a (some (err e, s)) = refl
  answered_runs otherwise done a (some (panic, s)) = refl

  abbrev after_create : Visit → Pipeline → App rs → Result Run × State → State
  after_create v p a q =
      (branch (λ e. new_error v (some e) 500 "unable to create pipeline run")
        (λ r.
          attempt (on_queues (enqueue_run r))
            (λ e. new_error v (some e) 500 "pipeline run queue is full")
            (λ done. pure (hx_redirect (run_path p r))))
        q.0 (record a { runs = q.1 })).1.runs

  -- If the store creates the run of a request, the run is a new one of the pipeline and the
  -- branch, and it is stored as queued afterwards whatever the run queue says, also when that is
  -- full.
  pub start_run_stores :
      (v : Visit) (now : ℕ) (name : String) (p : Pipeline) (a : App rs) (r : Run) (s : State)
      → IsSound a.runs
      → rs.create_pipeline_run now p.pipeline_id name a.runs ≡ (ok r, s)
      → (row (start_run v now name p a).1.runs r.run_id ≡ some r)
        × (r.status ≡ queued)
        × (r.run_pipeline_id ≡ p.pipeline_id)
        × (r.branch ≡ name)
        × (row a.runs r.run_id ≡ none)
  unfolding start_run Service.create_pipeline_run
  start_run_stores v now name p a r s sound h =
      let c = created (rs.create_lem now p.pipeline_id name a.runs sound) h in
      let self : (r.run_id == r.run_id) ≡ true = (==_iff r.run_id r.run_id).1 refl in
      let kept : (start_run v now name p a).1.runs ≡ s =
        ap (after_create v p a) h
        ∙ answered_runs (λ e. new_error v (some e) 500 "pipeline run queue is full")
            (hx_redirect (run_path p r)) (record a { runs = s }) (enqueue_run r a.service) in
      (ap (λ t. row t r.run_id) kept ∙ c.4 r.run_id ∙ rw self refl, c.1, c.2, c.3, c.0)
    where
      created :
          {q : Result Run × State}
          → Creates row p.pipeline_id name a.runs q
          → q ≡ (ok r, s)
          → Creates row p.pipeline_id name a.runs (ok r, s)
      created c e = rw e at c

  -- A webhook with a key that is not stored starts nothing: no run is created, no queue is touched
  -- and no other row changes.
  pub webhook_needs_key :
      (now : ℕ) (key : String) (bound : Result RunParams) (v : Visit) (a : App rs)
      → find_by (Store.has_value key) a.db.stored.api_keys.rows ≡ none
      → let a' = (post_pipeline_run_webhook_trigger now key bound v a).1 in
        (a'.runs ≡ a.runs) × (a'.service ≡ a.service) × (a'.db.stored ≡ a.db.stored)
  unfolding post_pipeline_run_webhook_trigger Store.read_api_key_by_value
  webhook_needs_key now key (err e) v a missing = (refl, refl, refl)
  webhook_needs_key now key panic v a missing = (refl, refl, refl)
  webhook_needs_key now key (ok rp) v a missing =
      elim (statement_outcome (Store.read_api_key_by_value key) a.db) [
        | inl (e, r, s) ↦ rw r (refl, refl, s)
        | inr (r, s) ↦ rw (r ∙ ap or_no_rows missing) (refl, refl, s)
      ]
