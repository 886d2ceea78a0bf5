-- ===== src/Store/Runs/Lists.antt =====
-- The queries of `internal/store/run_sqlitestore.go` that list and count runs. In which order SQLite
-- gives the rows of a query with `order by created_on desc` is the parameter `latest_first`.
use simple_ci.Base.{
  ℕ, List, none, length, take, drop, filter, Bool, false, ◌==◌, map, if◌then◌else◌, [],
}
use simple_ci.Base.Exec.{Exec, gets}
use simple_ci.Store.{Run}
use simple_ci.Store.Table.{Table}
use simple_ci.Store.Driver.{statement}
use simple_ci.Store.Runs.Sqlite.{Db}

abbrev pub of_pipeline : ℕ → Run → Bool
of_pipeline id r = r.run_pipeline_id == id

abbrev pub runs_of : ℕ → Table Run → List Run
runs_of id t = filter (of_pipeline id) t.rows

unfoldable pub list_pipeline_runs : ℕ → Exec Db (List Run)
list_pipeline_runs id = statement (gets (runs_of id))

unfoldable pub count_pipeline_runs : ℕ → Exec Db ℕ
count_pipeline_runs id = statement (gets (λ t. length (runs_of id t)))

-- The columns of the page of runs; those that are not selected are nil or zero.
abbrev pub listed : Run → Run
listed r = record r { working_directory = none; output = none; artifacts = none; archive = false }

module _ (latest_first : List Run → List Run) where
  unfoldable pub list_latest_pipeline_runs : ℕ → ℕ → Exec Db (List Run)
  list_latest_pipeline_runs id limit =
      statement (gets (λ t. take limit (latest_first (runs_of id t))))

  -- `known` says whether the pipeline is stored: the query joins the runs with the pipelines.
  unfoldable pub list_pipeline_runs_paginated : Bool → ℕ → ℕ → ℕ → Exec Db (List Run)
  list_pipeline_runs_paginated known id limit offset = statement (
      gets (λ t.
        if known then map listed (take limit (drop offset (latest_first (runs_of id t)))) else []))
