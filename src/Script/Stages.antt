-- ===== src/Script/Stages.antt =====
-- The loops of `executePipelineScriptOnAgent` and `executePipelineScriptOnController`, which
-- differ only in how they run a step. A step is the report that it ends with, and a message is taken
-- as soon as it is sent: a receiver of `rq.outputCh` that is gone, or a command that hangs, is not
-- in this model.
pub mod Batches
mod Collect
pub mod Equivalence
pub mod Outcome
use simple_ci.Base.{
  String, ◌<>◌, true, false, Option, none, some, List, [], ◌∷◌, ℕ, zero, suc, get_elem?, length,
}
use simple_ci.Script.{Step, Stage, PipelineScript}
use simple_ci.Script.Report.{Report, send, pass, ◌>>◌}
use simple_ci.Script.Group.{run_group}
use simple_ci.Script.Worker.{Attempt, Place, execute_step_on_agent, execute_step_on_controller}

-- How step number `j` of stage number `i` ends, and how its group is scheduled.
pub record Executor : Type 0 where
  pub execute : ℕ → ℕ → Step → Report
  pub schedule : ℕ → ℕ → List ℕ

abbrev pub starting : Step → String
starting s = "    |    |    Executing step '" <> s.step <> "'\n"

abbrev pub passed : Step → String
passed s = "    |    |    STEP '" <> s.step <> "' PASSED\n"

-- The body of a step, in a goroutine or not.
unfoldable pub run_step : Executor → ℕ → ℕ → Step → Report
run_step x i j s = do send (starting s); x.execute i j s; send (passed s)

-- `steps` and `sii`: the parallel steps from position `j` on. One round for each step.
unfoldable pub collect : ℕ → List Step → ℕ → List Step × ℕ
collect zero steps j = ([], j)
collect (suc fuel) steps j = elim (get_elem? steps j) [
  | none ↦ ([], j)
  | some s ↦ elim s.parallel [
    | false ↦ ([], j)
    | true ↦ let (more, j') = collect fuel steps (suc j) in (s ∷ more, j')
  ]
]

-- The goroutines of a group whose first step has position `j`.
unfoldable pub threads : Executor → ℕ → ℕ → List Step → List Report
threads x i j [] = []
threads x i j (s ∷ ss) = run_step x i j s ∷ threads x i (suc j) ss

abbrev pub and_then : Report → Option Report → Option Report
and_then r none = none
and_then r (some next) = some (r >> next)

-- The loop on `si`. `none` means that the fuel ran out.
unfoldable pub stage_loop : Executor → ℕ → ℕ → List Step → ℕ → Option Report
unfolding collect
stage_loop x i zero steps si = none
stage_loop x i (suc fuel) steps si = elim (get_elem? steps si) [
  | none ↦ some pass
  | some cur ↦ elim cur.parallel [
    | true ↦
        let (more, sii) = collect (length steps) steps (suc si) in
        let group = run_group (x.schedule i si) (threads x i si (cur ∷ more)) in
        and_then group (stage_loop x i fuel steps sii)
    | false ↦ and_then (run_step x i si cur) (stage_loop x i fuel steps (suc si))
  ]
]

-- One round for each step of the stage, and one to leave the loop.
unfoldable pub execute_steps : Executor → ℕ → List Step → Option Report
execute_steps x i steps = stage_loop x i (suc (length steps)) steps 0

abbrev pub starting_stage : Stage → String
starting_stage s = "    |    Executing pipeline stage '" <> s.stage <> "'\n"

abbrev pub passed_stage : Stage → String
passed_stage s = "    |    STAGE '" <> s.stage <> "' PASSED\n"

abbrev surround : String → Option Report → String → Option Report
surround before none after = none
surround before (some r) after = some (send before >> (r >> send after))

abbrev then_stages : Option Report → Option Report → Option Report
then_stages none rest = none
then_stages (some r) rest = and_then r rest

-- The loop on `ps.Stages`, from stage number `i` on.
unfoldable pub execute_stages : Executor → ℕ → List Stage → Option Report
execute_stages x i [] = some pass
execute_stages x i (s ∷ ss) =
    then_stages (surround (starting_stage s) (execute_steps x i s.steps) (passed_stage s))
      (execute_stages x (suc i) ss)

abbrev pub agent_executor : String → Place → (ℕ → ℕ → Attempt) → (ℕ → ℕ → List ℕ) → Executor
agent_executor chain_op p attempts schedule = record {
  execute = λ i j s. execute_step_on_agent chain_op p (attempts i j) s.timeout_seconds s.script;
  schedule = schedule;
}

-- `text` is how the command of a script prints.
abbrev pub controller_executor : (String → String) → (ℕ → ℕ → Attempt) → (ℕ → ℕ → List ℕ) → Executor
controller_executor text attempts schedule = record {
  execute =
      λ i j s. execute_step_on_controller (text s.script) (attempts i j) s.timeout_seconds s.script;
  schedule = schedule;
}

-- `executePipelineScriptOnAgent`; the attempts are by stage and step.
unfoldable pub execute_script_on_agent :
    String → Place → (ℕ → ℕ → Attempt) → (ℕ → ℕ → List ℕ) → PipelineScript → Option Report
execute_script_on_agent chain_op p attempts schedule ps =
    execute_stages (agent_executor chain_op p attempts schedule) 0 ps.stages

-- `executePipelineScriptOnController`
unfoldable pub execute_script_on_controller :
    (String → String) → (ℕ → ℕ → Attempt) → (ℕ → ℕ → List ℕ) → PipelineScript → Option Report
execute_script_on_controller text attempts schedule ps =
    execute_stages (controller_executor text attempts schedule) 0 ps.stages
