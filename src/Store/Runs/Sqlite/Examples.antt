-- ===== src/Store/Runs/Sqlite/Examples.antt =====
-- The run store of `internal/store/run_sqlitestore.go` with one run.
use simple_ci.Base.{[], ◌∷◌, none, some, false, refl, arith}
use simple_ci.Store.{Run, queued, passed}
use simple_ci.Store.Table
use simple_ci.Store.Runs.Interface.{started, ended, appended, Updates, Reads, Creates}
use simple_ci.Store.Runs.Sqlite.{
  Db, row, IsSound, create_pipeline_run, read_run_by_id, update_pipeline_run_started_on,
  update_pipeline_run_ended_on, append_pipeline_run_output,
}
use simple_ci.Store.Runs.Sqlite.Laws.{run_statements-Contract}

abbrev one_run : Run
one_run = record {
  run_id = 1;
  run_pipeline_id = 7;
  branch = "main";
  working_directory = none;
  output = some "line\n";
  artifacts = none;
  status = queued;
  created_on = 3;
  started_on = none;
  ended_on = none;
  archive = false;
}

abbrev db : Db
db = record { stored = record { rows = one_run ∷ []; last_id = 1 }; refusals = [] }

db-IsSound : IsSound db
unfolding Table.find
db-IsSound = (omega arith, refl, tt)

run_statements-Contract_example :
    Creates row 1 "main" db (create_pipeline_run 5 1 "main" db)
    × Reads row 1 db (read_run_by_id 1 db)
    × Updates row 1
        (started "main" passed (some 9))
        db
        (update_pipeline_run_started_on 1 "main" passed (some 9) db)
    × Updates row 1
        (ended passed none (some 9))
        db
        (update_pipeline_run_ended_on 1 passed none (some 9) db)
    × Updates row 1 (appended "main") db (append_pipeline_run_output 1 "main" db)
run_statements-Contract_example =
    run_statements-Contract 1 5 "main" passed none (some 9) db db-IsSound
