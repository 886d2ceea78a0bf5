-- ===== src/RunQueue/Process/Frame.antt =====
-- What a run leaves alone in the store: `processRun` and `handleProcessingFailed` of
-- `internal/service/run_queue.go`.
use mathlib.Core.Option.{some-injective, none-ne-some}
use simple_ci.Base.{◌≢◌, ◌≡◌, refl, sym, ℕ, String, some, ◌++◌, [], ◌∷◌, List, arith}
use simple_ci.Base.Errors.{Error, Result, ok, err, panic}
use simple_ci.Base.Exec.{Exec, lift, modify, ◌>>=◌, Respects}
use simple_ci.Store.{Run, running, passed, PipelineRunData}
use simple_ci.Store.Runs.Interface.{RunStore, started, ended}
use simple_ci.RunQueue.Site.{Site, wrap_error, configure}
use simple_ci.RunQueue.Process.{
  World, process_run, start_run, execute_run, handle_processing_failed, handle_run, finish_run,
  status_of_error, resolve, run_on_agent, run_on_controller, connect_ssh,
}
use simple_ci.RunQueue.Process.Touches.{
  SameRun, Touches, Keeps-bind, Keeps-bind_ok, Touches-refl, Touches-trans, Updates-Touches,
  Reads-Touches, read-key,
}

module _ {S : Type 0} where
  -- The store is not called at all.
  abbrev Still : World S → World S → Type 0
  Still w v = v.store ≡ w.store

  abbrev IsStill : {A : Type 0} → Exec (World S) A → Type 0
  IsStill m = Respects Still m

module _ (rs : RunStore) (site : Site) where
  open rs use {State, row}

  connect-IsStill : (h : String) (key : List ℕ) → IsStill (connect_ssh rs site h key)
  unfolding connect_ssh
  connect-IsStill h key w = ground arith

  agent-IsStill : (prd : PipelineRunData) (r : Run) → IsStill (run_on_agent rs site prd r)
  unfolding run_on_agent
  agent-IsStill prd r w = ground arith

  controller-IsStill : (prd : PipelineRunData) (r : Run) → IsStill (run_on_controller rs site prd r)
  unfolding run_on_controller
  controller-IsStill prd r w = ground arith

  finish-Touches :
      (r : Run) (w : World State) → Touches rs r.run_id w.store (finish_run rs site r w).1.store
  unfolding finish_run
  finish-Touches r w =
      let u =
        rs.update_pipeline_run_ended_on r.run_id passed r.artifacts (some site.ended_on) w.store in
      let one =
        Updates-Touches rs r.run_id (ended passed r.artifacts (some site.ended_on)) w.store u
          (λ a. (refl, refl, refl, refl, refl)) (rs.ended_lem _ _ _ _ w.store) in
      let v = rs.read_run_by_id r.run_id u.1 in
      let two = Reads-Touches rs r.run_id u.1 v (rs.read_lem r.run_id u.1) in
      let both = Touches-trans rs r.run_id w.store u.1 v.1 one two in ground (arith, one, both)

  still-Touches : (k : ℕ) (w v : World State) → v.store ≡ w.store → Touches rs k w.store v.store
  still-Touches k w v e = rw e (Touches-refl rs k w.store)

  execute-Touches :
      (prd : PipelineRunData) (r : Run) (w : World State)
      → Touches rs r.run_id w.store (execute_run rs site prd r w).1.store
  unfolding execute_run
  execute-Touches prd r w =
      let w1 = record w { statuses = w.statuses ++ r ∷ [] } in
      let a = run_on_agent rs site prd r w1 in
      let c = run_on_controller rs site prd r w1 in
      let sa = agent-IsStill prd r w1 in
      let sc = controller-IsStill prd r w1 in
      let none_a = still-Touches r.run_id w1 a.1 sa in
      let none_c = still-Touches r.run_id w1 c.1 sc in
      let fa = Touches-trans rs r.run_id _ _ _ none_a (finish-Touches r a.1) in
      let fc = Touches-trans rs r.run_id _ _ _ none_c (finish-Touches r c.1) in
      ground (arith, none_a, none_c, fa, fc)

  start-Touches :
      (run : Run) (w : World State)
      → Touches rs run.run_id w.store (start_run rs site run w).1.store
  unfolding start_run
  start-Touches run w =
      let k = run.run_id in
      let u =
        rs.update_pipeline_run_started_on k site.workdir running (some site.started_on) w.store in
      let one =
        Updates-Touches rs k (started site.workdir running (some site.started_on)) w.store u
          (λ a. (refl, refl, refl, refl, refl)) (rs.started_lem _ _ _ _ w.store) in
      let v = rs.read_run_by_id k u.1 in
      let two = Reads-Touches rs k u.1 v (rs.read_lem k u.1) in
      let both = Touches-trans rs k w.store u.1 v.1 one two in ground (arith, one, both)

  start-key :
      (run r : Run) (w : World State) → (start_run rs site run w).0 ≡ ok r → r.run_id ≡ run.run_id
  unfolding start_run
  start-key run r w e =
      let k = run.run_id in
      let u =
        rs.update_pipeline_run_started_on k site.workdir running (some site.started_on) w.store in
      let v = rs.read_run_by_id k u.1 in read-key rs k u.1 r v (rs.read_lem k u.1) (ground arith)

  at_key :
      (r : Run) {k : ℕ}
      → r.run_id ≡ k
      → (prd : PipelineRunData) (w : World State)
      → Touches rs k w.store (execute_run rs site prd r w).1.store
  at_key r same prd w = rw (sym same) (execute-Touches prd r w)

  process-Touches :
      (run : Run) (w : World State)
      → Touches rs run.run_id w.store (process_run rs site run w).1.store
  unfolding process_run
  process-Touches run w =
      let k = run.run_id in
      let rest = λ (prd : PipelineRunData). start_run rs site run >>= execute_run rs site prd in
      let set_shell = λ (prd : PipelineRunData) (v : World State). record v {
        shell = configure prd.os_type v.shell;
      } in
      let rest_keeps = λ (prd : PipelineRunData).
        Keeps-bind_ok rs k (λ r. r.run_id ≡ k) (start_run rs site run) (execute_run rs site prd)
          (start-Touches run) (λ v r. start-key run r v) (λ r same. at_key r same prd) in
      Keeps-bind rs k
        (lift (wrap_error "err getting pipeline/agent/credential data: " site.run_data))
        (λ prd. modify (set_shell prd) >>= λ _. rest prd) (λ v. Touches-refl rs k v.store)
        (λ prd v. rest_keeps prd (set_shell prd v)) w

  failed-Touches :
      (e : Error) (run : Run) (w : World State)
      → Touches rs run.run_id w.store (handle_processing_failed rs site e run w).store
  unfolding handle_processing_failed
  failed-Touches e run w =
      let k = run.run_id in
      let u =
        rs.update_pipeline_run_ended_on k (status_of_error e) run.artifacts (some site.ended_on)
          w.store in
      let one =
        Updates-Touches rs k (ended (status_of_error e) run.artifacts (some site.ended_on)) w.store
          u (λ a. (refl, refl, refl, refl, refl)) (rs.ended_lem _ _ _ _ w.store) in
      let v = rs.read_run_by_id k u.1 in
      Touches-trans rs k w.store u.1 v.1 one (Reads-Touches rs k u.1 v (rs.read_lem k u.1))

  handle_run-Touches :
      (run : Run) (w v : World State)
      → handle_run rs site run w ≡ some v
      → Touches rs run.run_id w.store v.store
  unfolding handle_run
  handle_run-Touches run w v h = let p = process_run rs site run w in go p (process-Touches run w) h
    where
      go :
          (p : Result (Unit {0}) × World State)
          → Touches rs run.run_id w.store p.1.store
          → resolve rs site run p.0 p.1 ≡ some v
          → Touches rs run.run_id w.store v.store
      go (ok tt, w1) t h = rw (sym (some-injective w1 v h)) t
      go (err e, w1) t h =
          rw (sym (some-injective _ v h))
            (Touches-trans rs run.run_id _ _ _ t (failed-Touches e run w1))
      go (panic, w1) t h = absurd (none-ne-some v h)

  -- Whatever becomes of a run, a turn of the loop leaves every other stored run as it is, and of its
  -- own run the key, the pipeline, the branch and the time of creation, and the output apart from
  -- what is sent to `handleOutput`.
  pub handle_run_frame :
      (run : Run) (w v : World State) (j : ℕ)
      → j ≢ run.run_id
      → handle_run rs site run w ≡ some v
      → (row v.store j ≡ row w.store j) × SameRun (row w.store run.run_id) (row v.store run.run_id)
  handle_run_frame run w v j ne h = let t = handle_run-Touches run w v h in (t.others j ne, t.same)
