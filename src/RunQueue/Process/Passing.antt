-- ===== src/RunQueue/Process/Passing.antt =====
-- What has happened when the script of a run has passed, on an agent and on the controller:
-- `processRun` of `internal/service/run_queue.go`.
use simple_ci.Base.{◌≡◌, inl, inr, none, arith}
use simple_ci.Base.Errors.{Result-cases, Result, ok}
use simple_ci.Script.{PipelineScript}
use simple_ci.Script.Stages.{
  Executor, agent_executor, controller_executor, execute_script_on_agent,
  execute_script_on_controller,
}
use simple_ci.Script.Stages.Outcome.{StagesPass, execute_stages_passes}
use simple_ci.Store.{Run, PipelineRunData}
use simple_ci.Store.Runs.Interface.{RunStore}
use simple_ci.RunQueue.Site.{Site, Shell, read_script_on_agent, read_script_on_controller}
use simple_ci.RunQueue.Process.{World, run_on_agent, run_on_controller, connect_ssh, place}

module _ {S : Type 0} where
  -- Nothing is told to the subscribers of the status, nor to `rq.done`.
  abbrev pub Quiet : World S → World S → Type 0
  Quiet w v = (v.statuses ≡ w.statuses) × (v.dones ≡ w.dones)

module _ (rs : RunStore) (site : Site) where
  open rs use {State, row}

  pub agent-Quiet :
      (prd : PipelineRunData) (r : Run) (w : World State) → Quiet w (run_on_agent rs site prd r w).1
  unfolding run_on_agent
  agent-Quiet prd r w = ground arith

  pub controller-Quiet :
      (prd : PipelineRunData) (r : Run) (w : World State)
      → Quiet w (run_on_controller rs site prd r w).1
  unfolding run_on_controller
  controller-Quiet prd r w = ground arith

  -- The script has been read, and all of its steps have ended without an error.
  abbrev pub ScriptPasses : Executor → Result PipelineScript → Type 0
  ScriptPasses x (ok ps) = StagesPass x 0 ps.stages
  ScriptPasses x _ = ⊥

  abbrev pub AgentPasses : PipelineRunData → Shell → Type 0
  AgentPasses prd sh =
      ScriptPasses (agent_executor sh.chain_op (place rs site prd) site.attempts site.schedule)
        (read_script_on_agent site sh prd.workspace prd.repository prd.script_path)

  abbrev pub ControllerPasses : PipelineRunData → Type 0
  ControllerPasses prd =
      ScriptPasses (controller_executor site.text site.attempts site.schedule)
        (read_script_on_controller site prd.workspace prd.repository prd.script_path)

  pub agent_passes :
      (prd : PipelineRunData) (r : Run) (w : World State)
      → (run_on_agent rs site prd r w).0 ≡ ok tt
      → (site.parse_private_key prd.ssh_private_key ≡ none) × AgentPasses prd w.shell
  unfolding run_on_agent connect_ssh execute_script_on_agent
  agent_passes prd r w h =
      elim (Result-cases
        (read_script_on_agent site w.shell prd.workspace prd.repository prd.script_path)) [
          | inl (ps, e) ↦
              let (rep, run, iff) =
                execute_stages_passes
                  (agent_executor w.shell.chain_op (place rs site prd) site.attempts site.schedule)
                  0 ps.stages in
              let fine : rep.error ≡ none = ground (arith, e, run) in
              (ground arith, rw e (iff.0 fine))
          | inr (inl (x, e)) ↦ absurd (ground (arith, e))
          | inr (inr e) ↦ absurd (ground (arith, e))
        ]

  pub controller_passes :
      (prd : PipelineRunData) (r : Run) (w : World State)
      → (run_on_controller rs site prd r w).0 ≡ ok tt
      → ControllerPasses prd
  unfolding run_on_controller execute_script_on_controller
  controller_passes prd r w h =
      elim (Result-cases
        (read_script_on_controller site prd.workspace prd.repository prd.script_path)) [
          | inl (ps, e) ↦
              let (rep, run, iff) =
                execute_stages_passes (controller_executor site.text site.attempts site.schedule) 0
                  ps.stages in
              let fine : rep.error ≡ none = ground (arith, e, run) in rw e (iff.0 fine)
          | inr (inl (x, e)) ↦ absurd (ground (arith, e))
          | inr (inr e) ↦ absurd (ground (arith, e))
        ]
