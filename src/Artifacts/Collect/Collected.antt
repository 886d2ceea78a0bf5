-- ===== src/Artifacts/Collect/Collected.antt =====
-- What a collection of artifacts leaves: `CollectPipelineRunArtifacts` of
-- `internal/service/pipeline_service.go`.
use simple_ci.Base.{◌≡◌, ℕ, suc, String, ◌is◌, List, [], ◌∷◌, ◌++◌, true, if◌then◌else◌, ◌⊎◌}
use simple_ci.Base.Errors.{ok}
use simple_ci.Base.Exec.{Exec}
use simple_ci.Security.{Gcm}
use simple_ci.Script.{Stage, PipelineScript}
use simple_ci.Artifacts.{FilePath, Node, Disk, Local, stage_path}
use simple_ci.Artifacts.Download.{files_of, dirs_of, Adds}
use simple_ci.Artifacts.Collect.{Collecting, exists, run_dir}
use simple_ci.Artifacts.Collect.Kept.{Kept}
use simple_ci.Artifacts.Remote.{Far, Found, base_dir, connect}

module _ (remote : String → Node) where
  -- The files of the stages that have artifacts, each stage in a directory of its own.
  pub stage_files : FilePath → ℕ → List Stage → List (FilePath × List ℕ)
  stage_files p i [] = []
  stage_files p i (s ∷ ss) =
      (if s.artifacts is "" then [] else files_of (stage_path p i s) (remote s.artifacts))
      ++ stage_files p (suc i) ss

  pub stage_dirs : FilePath → ℕ → List Stage → List FilePath
  stage_dirs p i [] = []
  stage_dirs p i (s ∷ ss) =
      (if s.artifacts is "" then [] else dirs_of (stage_path p i s) (remote s.artifacts))
      ++ stage_dirs p (suc i) ss

module _ (disk : Disk) (far : Far) (gcm : Gcm) (key : List ℕ) where
  abbrev pub tree : FilePath → String → Node
  tree base artifacts = far.remote (base ++ artifacts ∷ [])

  -- What is fetched for a run into the directory `p`.
  abbrev pub Fetched : Found → FilePath → Local → Local → Type 0
  Fetched f p l m =
      (exists p l ≡ true) × (m ≡ l)
      ⊎ (base : FilePath) × (ps : PipelineScript) × (base_dir f ≡ ok base)
        × (connect far gcm key f base ≡ ok ps)
        × Adds (stage_files (tree base) p 0 ps.stages) (p ∷ stage_dirs (tree base) p 0 ps.stages) l
            m

  abbrev Fetches : Found → FilePath → Collecting → Collecting → Type 0
  Fetches f p c d = (p ≡ run_dir f) × (d.app ≡ c.app) × Fetched f p c.local d.local
