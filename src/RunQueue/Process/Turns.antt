-- ===== src/RunQueue/Process/Turns.antt =====
-- One turn of the loop of `Run` in `internal/service/run_queue.go`: the sends on `rq.done`, and the
-- end of a run whose processing failed.
use mathlib.Core.Option
use mathlib.Core.Option.{some-injective, none-ne-some}
use simple_ci.Base.{◌≡◌, refl, sym, ap, ◌∙◌, inl, inr, ℕ, suc, some, [], ◌∷◌, ◌++◌, arith}
use simple_ci.Base.Errors.{Result-cases, Error, Result, ok, err, panic}
use simple_ci.Base.Exec.{Exec, continue, ◌>>=◌}
use simple_ci.Store.{Run, PipelineRunData}
use simple_ci.Store.Runs.Interface.{RunStore, Reads, ended}
use simple_ci.RunQueue.Site.{Site, configure}
use simple_ci.RunQueue.Process.{
  World, process_run, start_run, execute_run, handle_processing_failed, handle_run, finish_run,
  status_of_error, resolve, run_on_agent, run_on_controller, fail_message,
}
use simple_ci.RunQueue.Process.Passing.{agent-Quiet, controller-Quiet}
use simple_ci.RunQueue.Process.Lifecycle.{updated, process-start}

-- A part of `processRun` that succeeds has sent on `rq.done`, and one that fails has not.
abbrev counted : Result (Unit {0}) → ℕ → ℕ
counted (ok _) n = suc n
counted _ n = n

read_same :
    (rs : RunStore) (k : ℕ) (s : rs.State) (p : Result Run × rs.State)
    → Reads rs.row k s p
    → rs.row p.1 k ≡ rs.row s k
read_same rs k s (ok r, t) h = h.1 k
read_same rs k s (err e, t) h = h k
read_same rs k s (panic, t) h = absurd h

module _ (rs : RunStore) (site : Site) where
  open rs use {State, row}

  abbrev Counts : Exec (World State) (Unit {0}) → World State → Type 0
  Counts m w = (m w).1.dones ≡ counted (m w).0 w.dones

  finish_dones : (r : Run) (w : World State) → Counts (finish_run rs site r) w
  unfolding finish_run
  finish_dones r w = ground arith

  start_dones : (run : Run) (w : World State) → (start_run rs site run w).1.dones ≡ w.dones
  unfolding start_run
  start_dones run w = ground arith

  execute_dones :
      (prd : PipelineRunData) (r : Run) (w : World State) → Counts (execute_run rs site prd r) w
  unfolding execute_run
  execute_dones prd r w =
      let w1 = record w { statuses = w.statuses ++ r ∷ [] } in
      let a = run_on_agent rs site prd r w1 in
      let c = run_on_controller rs site prd r w1 in
      let qa = (agent-Quiet rs site prd r w1).1 in
      let qc = (controller-Quiet rs site prd r w1).1 in
      let fa = finish_dones r a.1 in let fc = finish_dones r c.1 in ground (arith, qa, qc, fa, fc)

  rest_dones :
      (run : Run) (prd : PipelineRunData) (w : World State)
      → Counts (start_run rs site run >>= execute_run rs site prd) w
  rest_dones run prd w = go (start_run rs site run w) (start_dones run w)
    where
      go :
          (p : Result Run × World State)
          → p.1.dones ≡ w.dones
          → (continue p.0 (execute_run rs site prd) p.1).1.dones
            ≡ counted (continue p.0 (execute_run rs site prd) p.1).0 w.dones
      go (ok r, u) e = execute_dones prd r u ∙ ap (counted (execute_run rs site prd r u).0) e
      go (err x, u) e = e
      go (panic, u) e = e

  process_dones : (run : Run) (w : World State) → Counts (process_run rs site run) w
  unfolding process_run
  process_dones run w = elim (Result-cases site.run_data) [
    | inl (prd, e) ↦
        rw (process-start rs site run w e)
          (rest_dones run prd (record w { shell = configure prd.os_type w.shell }))
    | inr (inl (x, e)) ↦ ground (arith, e)
    | inr (inr e) ↦ ground (arith, e)
  ]

  -- A turn of the loop that does not panic sends exactly once on `rq.done`.
  pub handle_run-dones :
      (run : Run) (w v : World State) → handle_run rs site run w ≡ some v → v.dones ≡ suc w.dones
  unfolding handle_run handle_processing_failed
  handle_run-dones run w v h = let once = process_dones run w in ground (arith, once)

  -- When the processing of a run fails and the store takes the update, the run ends as cancelled if
  -- the error is a cancellation itself, and as failed otherwise, with the banner of a failure.
  pub handle_run_failed :
      (run r : Run) (e : Error) (w x : World State)
      → process_run rs site run w ≡ (err e, x)
      → row x.store run.run_id ≡ some r
      → (rs.update_pipeline_run_ended_on run.run_id
          (status_of_error e)
          run.artifacts
          (some site.ended_on)
          x.store).0
        ≡ ok tt
      → (v : World State) × (handle_run rs site run w ≡ some v)
        × (row v.store run.run_id
            ≡ some (ended (status_of_error e) run.artifacts (some site.ended_on) r))
        × (v.sent ≡ x.sent ++ fail_message ∷ [])
        × (v.dones ≡ suc w.dones)
  unfolding handle_run handle_processing_failed
  handle_run_failed run r e w x h has took =
      let k = run.run_id in
      let f = ended (status_of_error e) run.artifacts (some site.ended_on) in
      let u =
        rs.update_pipeline_run_ended_on k (status_of_error e) run.artifacts (some site.ended_on)
          x.store in
      let one = updated rs k f x.store u (rs.ended_lem _ _ _ _ x.store) took in
      let p = rs.read_run_by_id k u.1 in
      let same = read_same rs k u.1 p (rs.read_lem k u.1) in
      let same_dones : x.dones ≡ w.dones =
        sym (ap (λ q. q.1.dones) h)
        ∙ process_dones run w
        ∙ ap (λ (q : Result (Unit {0}) × World State). counted q.0 w.dones) h in
      (
        handle_processing_failed rs site e run x,
        ap (λ q. resolve rs site run q.0 q.1) h,
        same ∙ one ∙ ap (Option.map f) has,
        refl,
        ap suc same_dones,
      )
