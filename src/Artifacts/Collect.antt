-- ===== src/Artifacts/Collect.antt =====
-- `CollectPipelineRunArtifacts` of `internal/service/pipeline_service.go`. What the agent, the YAML
-- parser and `path.Join` do is a parameter.
pub mod Kept
pub mod Collected
use simple_ci.Base.{
  ℕ, decimal, ◌is◌, none, some, List, [], ◌∷◌, ◌++◌, any, Bool, true, false, ◌&&◌, if◌then◌else◌,
}
use simple_ci.Base.Errors.{ok}
use simple_ci.Base.Exec.{Exec, pure, lift, ◌>>◌, ◌>>=◌}
use simple_ci.Security.{Gcm}
use simple_ci.Store.Driver.{statement}
use simple_ci.Store.Runs.Sqlite as Runs
use simple_ci.Store.Runs.Sqlite.Laws.{sqlite_run_store}
use simple_ci.Store.Tables.Fleet as Store
use simple_ci.Users.{to_result}
use simple_ci.Fleet.{deref}
use simple_ci.Pipelines.Schedules.{App, on_db, on_runs, get_pipeline_by_id}
use simple_ci.Artifacts.Remote.{Far, Found, base_dir, connect}
use simple_ci.Artifacts.{FilePath, Disk, Local, make_dir, collect_stages}

pub record Collecting : Type 0 where
  pub app : App sqlite_run_store
  pub local : Local

abbrev pub on_app : {A : Type 0} → Exec (App sqlite_run_store) A → Exec Collecting A
on_app m c = let (r, a) = m c.app in (r, record c { app = a })

abbrev pub on_local : {A : Type 0} → Exec Local A → Exec Collecting A
on_local m c = let (r, l) = m c.local in (r, record c { local = l })

same_path : FilePath → FilePath → Bool
same_path [] [] = true
same_path (x ∷ xs) (y ∷ ys) = (x is y) && same_path xs ys
same_path _ _ = false

-- `util.PathExists` of a directory
unfoldable pub exists : FilePath → Local → Bool
unfolding same_path
exists p l = any (same_path p) l.dirs

unfoldable pub look_up : ℕ → ℕ → Exec Collecting Found
look_up pipeline_id run_id = do
  p ← on_app (get_pipeline_by_id pipeline_id)
  a ← on_app (on_db (statement (Store.read_agent_by_id p.pipeline_agent_id)))
  k ← lift (deref a.agent_credential_id)
  c ← on_app (on_db (statement (Store.read_credential_by_id k)))
  r ← on_app (on_runs (Runs.read_run_by_id run_id))
  pure (record { pipeline = p; agent = a; credential = c; run = r })

abbrev pub run_dir : Found → FilePath
run_dir f = "artifacts" ∷ decimal f.run.run_id ∷ []

module _ (disk : Disk) where
  -- `os.Mkdir("artifacts")`, whose error is not looked at
  unfoldable pub root_dir : Exec Local (Unit {0})
  root_dir l =
      if exists ("artifacts" ∷ []) l then (ok tt, l) else elim (disk.mkdir ("artifacts" ∷ [])) [
        | none ↦ make_dir ("artifacts" ∷ []) l
        | some e ↦ (ok tt, l)
      ]

  module _ (far : Far) (gcm : Gcm) (key : List ℕ) where
    -- Into a directory that has been made.
    unfoldable pub fill : Found → Exec Collecting FilePath
    fill f = do
      base ← lift (base_dir f)
      ps ← lift (connect far gcm key f base)
      on_local (
          collect_stages disk (λ artifacts. far.remote (base ++ artifacts ∷ [])) (run_dir f) 0
            ps.stages)
      pure (run_dir f)

    -- A directory of the run that is there is what was collected before.
    unfoldable pub fetch : Found → Exec Collecting FilePath
    unfolding fill
    fetch f c =
        if exists (run_dir f) c.local
        then (ok (run_dir f), c)
        else (lift (to_result (disk.mkdir (run_dir f)))
              >> (on_local (make_dir (run_dir f)) >> fill f))
            c

    unfoldable pub collect_pipeline_run_artifacts : ℕ → ℕ → Exec Collecting FilePath
    unfolding root_dir look_up fetch
    collect_pipeline_run_artifacts pipeline_id run_id = do
      on_local root_dir
      f ← look_up pipeline_id run_id
      fetch f
