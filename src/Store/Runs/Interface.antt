-- ===== src/Store/Runs/Interface.antt =====
-- `RunWriter` and `RunReader` of `internal/service/pipeline_service.go`: the calls that the run
-- queue and the pipeline service make, and what a call leaves behind.
use mathlib.Core.Option
use simple_ci.Base.{◌≡◌, ℕ, String, ◌<>◌, Option, none, some, ◌==◌, if◌then◌else◌}
use simple_ci.Base.Errors.{Result, ok, err, panic}
use simple_ci.Base.Exec.{Exec}
use simple_ci.Store.{Run, RunStatus, queued}

-- What each statement does to the row that it names.
abbrev pub started : String → RunStatus → Option ℕ → Run → Run
started workdir status at r = record r {
  working_directory = some workdir;
  status = status;
  started_on = at;
}

abbrev pub ended : RunStatus → Option String → Option ℕ → Run → Run
ended status artifacts at r = record r { status = status; artifacts = artifacts; ended_on = at }

abbrev pub text_or_empty : Option String → String
text_or_empty none = ""
text_or_empty (some s) = s

abbrev pub appended : String → Run → Run
appended out r = record r { output = some (text_or_empty r.output <> out) }

module _ {S : Type 0} (row : S → ℕ → Option Run) where
  -- The rows afterwards are as before, but for an update of row `k`; an error changes nothing.
  abbrev pub Updates : {A : Type 0} → ℕ → (Run → Run) → S → Result A × S → Type 0
  Updates k f s (ok _, s') =
      (j : ℕ) → row s' j ≡ (if j == k then Option.map f (row s j) else row s j)
  Updates k f s (err _, s') = (j : ℕ) → row s' j ≡ row s j
  Updates k f s (panic, s') = ⊥

  -- A read finds the row or fails, and changes nothing.
  abbrev pub Reads : ℕ → S → Result Run × S → Type 0
  Reads k s (ok r, s') = (row s k ≡ some r) × ((j : ℕ) → row s' j ≡ row s j)
  Reads k s (err _, s') = (j : ℕ) → row s' j ≡ row s j
  Reads k s (panic, s') = ⊥

  -- A new row has a key of its own, and is a queued run of the pipeline.
  abbrev pub Creates : ℕ → String → S → Result Run × S → Type 0
  Creates pipeline branch s (ok r, s') =
      (row s r.run_id ≡ none)
      × (r.status ≡ queued)
      × (r.run_pipeline_id ≡ pipeline)
      × (r.branch ≡ branch)
      × ((j : ℕ) → row s' j ≡ (if j == r.run_id then some r else row s j))
  Creates pipeline branch s (err _, s') = (j : ℕ) → row s' j ≡ row s j
  Creates pipeline branch s (panic, s') = ⊥

pub record RunStore : Type 1 where
  pub State : Type 0
  pub row : State → ℕ → Option Run
  pub IsSound : State → Type 0
  pub row_key : (s : State) (k : ℕ) (r : Run) → row s k ≡ some r → r.run_id ≡ k
  -- the time of the call, the pipeline and the branch
  pub create_pipeline_run : ℕ → ℕ → String → Exec State Run
  pub read_run_by_id : ℕ → Exec State Run
  pub update_pipeline_run_started_on : ℕ → String → RunStatus → Option ℕ → Exec State (Unit {0})
  pub update_pipeline_run_ended_on :
      ℕ → RunStatus → Option String → Option ℕ → Exec State (Unit {0})
  pub append_pipeline_run_output : ℕ → String → Exec State (Unit {0})
  pub create_lem :
      (now p : ℕ) (b : String) (s : State)
      → IsSound s
      → Creates row p b s (create_pipeline_run now p b s)
  pub read_lem : (k : ℕ) (s : State) → Reads row k s (read_run_by_id k s)
  pub started_lem :
      (k : ℕ) (w : String) (st : RunStatus) (at : Option ℕ) (s : State)
      → Updates row k (started w st at) s (update_pipeline_run_started_on k w st at s)
  pub ended_lem :
      (k : ℕ) (st : RunStatus) (a : Option String) (at : Option ℕ) (s : State)
      → Updates row k (ended st a at) s (update_pipeline_run_ended_on k st a at s)
  pub append_lem :
      (k : ℕ) (out : String) (s : State)
      → Updates row k (appended out) s (append_pipeline_run_output k out s)
