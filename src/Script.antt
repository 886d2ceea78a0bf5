-- ===== src/Script.antt =====
-- The pipeline script (`internal/service/pipeline_script.go`) and its execution
-- (`internal/service/run_queue.go`). `Report` is what the execution sends and how it ends,
-- `Worker` runs one step, `Group` runs parallel steps, `Stages` are the loops over a script.
pub mod Report
pub mod Worker
pub mod Group
pub mod Stages
mod Examples
use simple_ci.Base.{ℕ, String, Bool, List}

-- A time-out is a number of seconds; a negative one has run out at once, like 0.
pub record Step : Type 0 where
  pub step : String
  pub script : String
  pub timeout_seconds : ℕ
  pub parallel : Bool

pub record Stage : Type 0 where
  pub stage : String
  pub steps : List Step
  pub artifacts : String

pub record PipelineScript : Type 0 where
  pub stages : List Stage
  pub artifacts : String
