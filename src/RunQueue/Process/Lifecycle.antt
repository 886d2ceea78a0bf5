-- ===== src/RunQueue/Process/Lifecycle.antt =====
-- How a run of `internal/service/run_queue.go` ends: what the store, the subscribers and `rq.done`
-- are told when `processRun` returns, and when it returns an error.
use mathlib.Core.Option
use mathlib.Core.Option.{some-injective, none-ne-some}
use simple_ci.Base.{
  ◌≡◌, refl, sym, ap, ◌∙◌, Bool-cases, inl, inr, ℕ, suc, String, Option, none, some, ◌is◌, ◌==◌,
  if◌then◌else◌, true, [], ◌∷◌, ◌++◌, append_assoc, arith, ==_iff,
}
use simple_ci.Base.Errors.{Result-cases, Result, ok, err, panic}
use simple_ci.Base.Exec.{Exec, ◌>>=◌, >>=-eq-ok}
use simple_ci.Store.{Run, RunStatus, running, passed, PipelineRunData}
use simple_ci.Store.Runs.Interface.{RunStore, Updates, Reads, started, ended}
use simple_ci.RunQueue.Site.{Site, configure}
use simple_ci.RunQueue.Process.{
  World, process_run, start_run, execute_run, finish_run, run_on_agent, run_on_controller,
  pass_message,
}
use simple_ci.RunQueue.Process.Passing.{
  AgentPasses, ControllerPasses, agent_passes, controller_passes, agent-Quiet, controller-Quiet,
  Quiet,
}

module _ (rs : RunStore) where
  open rs use {State, row}

  pub updated :
      (k : ℕ) (f : Run → Run) (s : State) (p : Result (Unit {0}) × State)
      → Updates row k f s p
      → p.0 ≡ ok tt
      → row p.1 k ≡ Option.map f (row s k)
  updated k f s (ok u, t) h e =
      let self : (k == k) ≡ true = (==_iff k k).1 refl in h k ∙ rw self refl
  updated k f s (err x, t) h e = absurd (cc e)
  updated k f s (panic, t) h e = absurd h

  pub found :
      (k : ℕ) (s : State) (r : Run) (p : Result Run × State)
      → Reads row k s p
      → p.0 ≡ ok r
      → (row s k ≡ some r) × (row p.1 k ≡ some r)
  found k s r (ok r', t) h e =
      let same : some r' ≡ some r = ground arith in (h.0 ∙ same, h.1 k ∙ h.0 ∙ same)
  found k s r (err x, t) h e = absurd (cc e)
  found k s r (panic, t) h e = absurd h

  -- A row that an end was written to has that end.
  pub ended-Ended :
      (st : RunStatus) (a : Option String) (at : Option ℕ) (o : Option Run) (r : Run)
      → Option.map (ended st a at) o ≡ some r
      → (r.status ≡ st) × (r.ended_on ≡ at)
  ended-Ended st a at none r h = absurd (none-ne-some r h)
  ended-Ended st a at (some r0) r h =
      let e = some-injective (ended st a at r0) r h in
      (sym (ap (λ r. r.status) e), sym (ap (λ r. r.ended_on) e))

  started-Running :
      (workdir : String) (at : Option ℕ) (o : Option Run) (r : Run)
      → Option.map (started workdir running at) o ≡ some r
      → r.status ≡ running
  started-Running workdir at none r h = absurd (none-ne-some r h)
  started-Running workdir at (some r0) r h =
      sym (ap (λ r. r.status) (some-injective (started workdir running at r0) r h))

module _ (rs : RunStore) (site : Site) where
  open rs use {State, row}

  -- What a run that has ended in `w` leaves: its row, the last update and the word on `rq.done`.
  pub record Ended (k : ℕ) (st : RunStatus) (banner : String) (w v : World State) : Type 0 where
    pub final : Run
    pub stored : row v.store k ≡ some final
    pub status : final.status ≡ st
    pub ended_on : final.ended_on ≡ some site.ended_on
    pub told : v.statuses ≡ w.statuses ++ final ∷ []
    pub said : v.sent ≡ w.sent ++ banner ∷ []
    pub done : v.dones ≡ suc w.dones

  finish-Ended :
      (r : Run) (w v : World State)
      → finish_run rs site r w ≡ (ok tt, v)
      → Ended r.run_id passed pass_message w v
  unfolding finish_run
  finish-Ended r w v h =
      let k = r.run_id in
      let u = rs.update_pipeline_run_ended_on k passed r.artifacts (some site.ended_on) w.store in
      let one =
        updated rs k (ended passed r.artifacts (some site.ended_on)) w.store u
          (rs.ended_lem _ _ _ _ w.store) in
      let p = rs.read_run_by_id k u.1 in
      let two = λ (r' : Run). found rs k u.1 r' p (rs.read_lem k u.1) in
      elim (Result-cases p.0) [
        | inl (r', e) ↦
            let row_is = (two r' e).0 in
            let end =
              ended-Ended rs passed r.artifacts (some site.ended_on) (row w.store k) r'
                (ground (arith, one, row_is)) in
            record {
              final = r';
              stored = ground (arith, one, two r' e);
              status = end.0;
              ended_on = end.1;
              told = ground (arith, e);
              said = ground (arith, e);
              done = ground (arith, e);
            }
        | inr (inl (x, e)) ↦ absurd (ground (arith, e))
        | inr (inr e) ↦ absurd (ground (arith, e))
      ]

  -- A run is stored as running before anything else is done for it.
  start-Running :
      (run r : Run) (w v : World State)
      → start_run rs site run w ≡ (ok r, v)
      → (r.status ≡ running) × (r.run_id ≡ run.run_id) × Quiet w v × (v.shell ≡ w.shell)
  unfolding start_run
  start-Running run r w v h =
      let k = run.run_id in
      let f = started site.workdir running (some site.started_on) in
      let u =
        rs.update_pipeline_run_started_on k site.workdir running (some site.started_on) w.store in
      let one = updated rs k f w.store u (rs.started_lem _ _ _ _ w.store) in
      let p = rs.read_run_by_id k u.1 in
      let two = found rs k u.1 r p (rs.read_lem k u.1) in
      let row_is : Option.map f (row w.store k) ≡ some r = ground (arith, one, two) in
      let runs = started-Running rs site.workdir (some site.started_on) (row w.store k) r row_is in
      (runs, rs.row_key u.1 k r (ground (arith, two)), (ground arith, ground arith), ground arith)

  -- What is true when `processRun` has returned without an error.
  pub record Passed (run : Run) (w v : World State) : Type 0 where
    pub prd : PipelineRunData
    pub known : site.run_data ≡ ok prd
    pub script_passes :
        if prd.hostname is "localhost"
        then ControllerPasses rs site prd
        else AgentPasses rs site prd (configure prd.os_type w.shell)
    pub first : Run
    pub final : Run
    pub told : v.statuses ≡ w.statuses ++ first ∷ final ∷ []
    pub first_status : first.status ≡ running
    pub final_status : final.status ≡ passed
    pub ended_on : final.ended_on ≡ some site.ended_on
    pub stored : row v.store run.run_id ≡ some final
    pub done : v.dones ≡ suc w.dones

  pub process-start :
      (run : Run) (w : World State) {prd : PipelineRunData}
      → site.run_data ≡ ok prd
      → process_run rs site run w
        ≡ (start_run rs site run >>= execute_run rs site prd)
            (record w { shell = configure prd.os_type w.shell })
  unfolding process_run
  process-start run w e = rw e refl

  place_of : PipelineRunData → Run → Exec (World State) (Unit {0})
  place_of prd r =
      if prd.hostname is "localhost"
      then run_on_controller rs site prd r
      else run_on_agent rs site prd r

  place_passes :
      (prd : PipelineRunData) (r : Run) (w : World State)
      → (place_of prd r w).0 ≡ ok tt
      → (if prd.hostname is "localhost"
          then ControllerPasses rs site prd
          else AgentPasses rs site prd w.shell)
        × Quiet w (place_of prd r w).1
  unfolding place_of
  place_passes prd r w h = elim (Bool-cases (prd.hostname is "localhost")) [
    | inl e ↦ rw e (controller_passes rs site prd r w (rw e at h), controller-Quiet rs site prd r w)
    | inr e ↦ rw e ((agent_passes rs site prd r w (rw e at h)).1, agent-Quiet rs site prd r w)
  ]

  parts-Passed :
      (run r : Run) (prd : PipelineRunData) (w u x v : World State)
      → site.run_data ≡ ok prd
      → start_run rs site run (record w { shell = configure prd.os_type w.shell }) ≡ (ok r, u)
      → place_of prd r (record u { statuses = u.statuses ++ r ∷ [] }) ≡ (ok tt, x)
      → finish_run rs site r x ≡ (ok tt, v)
      → Passed run w v
  parts-Passed run r prd w u x v e hs hc hf =
      let run_is = start-Running run r (record w { shell = configure prd.os_type w.shell }) u hs in
      let script =
        place_passes prd r (record u { statuses = u.statuses ++ r ∷ [] }) (ap (λ p. p.0) hc) in
      let end = finish-Ended r x v hf in
      let told_x : x.statuses ≡ w.statuses ++ r ∷ [] =
        sym (ap (λ p. p.1.statuses) hc) ∙ script.1.0 ∙ ap (λ l. l ++ r ∷ []) run_is.2.0 in
      let dones_x : x.dones ≡ w.dones = sym (ap (λ p. p.1.dones) hc) ∙ script.1.1 ∙ run_is.2.1 in
      let told_v : v.statuses ≡ (w.statuses ++ r ∷ []) ++ end.final ∷ [] =
        end.told ∙ ap (λ l. l ++ end.final ∷ []) told_x in
      record {
        prd = prd;
        known = e;
        script_passes = rw (sym run_is.3) script.0;
        first = r;
        final = end.final;
        told = told_v ∙ append_assoc w.statuses (r ∷ []) (end.final ∷ []);
        first_status = run_is.0;
        final_status = end.status;
        ended_on = end.ended_on;
        stored = ap (row v.store) (sym run_is.1) ∙ end.stored;
        done = end.done ∙ ap suc dones_x;
      }

  -- A run that is processed without an error has its script read and every step of it passed, is
  -- stored as passed with the time of its end, has told its subscribers first that it is running
  -- and then that it has passed, and has sent once on `rq.done`.
  pub process_run-Passed :
      (run : Run) (w v : World State) → process_run rs site run w ≡ (ok tt, v) → Passed run w v
  unfolding process_run execute_run place_of
  process_run-Passed run w v h = elim (Result-cases site.run_data) [
    | inl (prd, e) ↦
        let (r, u, hs, he) =
          >>=-eq-ok (start_run rs site run) (execute_run rs site prd)
            (record w { shell = configure prd.os_type w.shell })
            (sym (process-start run w e) ∙ h) in
        let (t, x, hc, hf) =
          >>=-eq-ok (place_of prd r) (λ _. finish_run rs site r)
            (record u { statuses = u.statuses ++ r ∷ [] }) he in
        parts-Passed run r prd w u x v e hs hc hf
    | inr (inl (x, e)) ↦ absurd (ground (arith, e))
    | inr (inr e) ↦ absurd (ground (arith, e))
  ]
