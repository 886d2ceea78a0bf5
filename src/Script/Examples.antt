-- ===== src/Script/Examples.antt =====
-- A script of two stages, the first with two parallel steps of which the second fails, for the
-- executors of `internal/service/run_queue.go`.
use simple_ci.Base.{
  ◌≡◌, ◌↔◌, String, ◌is◌, List, [], ◌∷◌, Option, none, some, true, false, if◌then◌else◌,
}
use simple_ci.Base.Errors.{Error, message}
use mathlib.Core.List.{Perm}
use simple_ci.Script.{Step, Stage}
use simple_ci.Script.Report.{Report}
use simple_ci.Script.Group.{join_all}
use simple_ci.Script.Group.Schedules.{join_all-perm}
use simple_ci.Script.Stages.{Executor, execute_stages}
use simple_ci.Script.Stages.Equivalence.{run_stages, execute_stages-eq-run_stages}
use simple_ci.Script.Stages.Outcome.{
  StagesPass, execute_stages_passes, execute_stages-append_failed,
}

abbrev report : String → Option Error → Report
report text e = record { output = text ∷ []; error = e }

abbrev broken : Error
broken = message "exit status 1"

abbrev parallel_step : String → Step
parallel_step name = record { step = name; script = name; timeout_seconds = 5; parallel = true }

abbrev executor : Executor
executor = record {
  execute = λ i j s. report s.script (if s.script is "lint" then some broken else none);
  schedule = λ i j. 1 ∷ 0 ∷ 1 ∷ [];
}

abbrev build : Stage
build = record {
  stage = "build";
  steps = parallel_step "test" ∷ parallel_step "lint" ∷ [];
  artifacts = "";
}

abbrev deploy : Stage
deploy = record {
  stage = "deploy";
  steps = record { step = "ship"; script = "ship"; timeout_seconds = 5; parallel = false } ∷ [];
  artifacts = "out";
}

abbrev pair : List Report
pair = report "test" none ∷ report "lint" (some broken) ∷ []

join_all-perm_example :
    Perm (join_all (1 ∷ 0 ∷ 1 ∷ []) pair).sent ("test" ∷ "lint" ∷ [])
    × Perm (join_all (1 ∷ 0 ∷ 1 ∷ []) pair).errs (broken ∷ [])
join_all-perm_example = join_all-perm (1 ∷ 0 ∷ 1 ∷ []) pair

execute_stages-eq-run_stages_example :
    execute_stages executor 0 (build ∷ deploy ∷ [])
    ≡ some (run_stages executor 0 (build ∷ deploy ∷ []))
execute_stages-eq-run_stages_example = execute_stages-eq-run_stages executor 0 (build ∷ deploy ∷ [])

execute_stages_passes_example :
    (r : Report) × (execute_stages executor 0 (build ∷ deploy ∷ []) ≡ some r)
    × ((r.error ≡ none) ↔ StagesPass executor 0 (build ∷ deploy ∷ []))
execute_stages_passes_example = execute_stages_passes executor 0 (build ∷ deploy ∷ [])

build_fails : ¬ StagesPass executor 0 (build ∷ [])
build_fails h = absurd (cc (h.0.1.0))

execute_stages-append_failed_example :
    execute_stages executor 0 (build ∷ deploy ∷ []) ≡ execute_stages executor 0 (build ∷ [])
execute_stages-append_failed_example =
    execute_stages-append_failed executor 0 (build ∷ []) (deploy ∷ []) build_fails
