-- ===== src/Store/Runs/Sqlite.antt =====
-- `RunSQLiteStore` of `internal/store/run_sqlitestore.go`.
pub mod Laws
mod Examples
use simple_ci.Base.{
  ◌≡◌, refl, ℕ, suc, ◌+◌, String, ◌<>◌, Option, none, some, ◌==◌, if◌then◌else◌, List, [], ◌∷◌,
  ◌++◌, false, arith, Option-cases, inl, inr,
}
use simple_ci.Base.Errors.{Error, no_rows, Result, ok, err, panic}
use simple_ci.Base.Exec.{Exec, pure, raise, gets, modify, ◌>>=◌, ◌>>◌}
use simple_ci.Store.{Run, RunStatus, queued}
use simple_ci.Store.Driver.{Driven, statement}
use simple_ci.Store.Table
use simple_ci.Store.Table.{Table}
use simple_ci.Store.Runs.Interface.{started, ended, appended, Updates, Reads, Creates, RunStore}

abbrev pub Db : Type 0
Db = Driven (Table Run)

abbrev pub key : Run → ℕ
key r = r.run_id

unfoldable pub new_run : ℕ → ℕ → ℕ → String → Run
new_run id now pipeline branch = record {
  run_id = id;
  run_pipeline_id = pipeline;
  branch = branch;
  working_directory = none;
  output = none;
  artifacts = none;
  status = queued;
  created_on = now;
  started_on = none;
  ended_on = none;
  archive = false;
}

unfoldable pub insert : ℕ → ℕ → String → Exec (Table Run) Run
unfolding new_run
insert now pipeline branch t =
    let r = new_run (suc t.last_id) now pipeline branch in
    (ok r, record { rows = t.rows ++ r ∷ []; last_id = suc t.last_id })

unfoldable pub or_no_rows : Option Run → Result Run
or_no_rows none = err no_rows
or_no_rows (some r) = ok r

unfoldable pub select : ℕ → Exec (Table Run) Run
unfolding or_no_rows
select id t = (or_no_rows (Table.find key id t.rows), t)

-- An `update` that names no row is no error.
unfoldable pub update : ℕ → (Run → Run) → Exec (Table Run) (Unit {0})
update id f t = (ok tt, record t { rows = Table.update key id f t.rows })

delete : ℕ → Exec (Table Run) (Unit {0})
delete id t = (ok tt, record t { rows = Table.remove key id t.rows })

unfoldable pub create_pipeline_run : ℕ → ℕ → String → Exec Db Run
create_pipeline_run now pipeline branch = statement (insert now pipeline branch)

unfoldable pub read_run_by_id : ℕ → Exec Db Run
read_run_by_id id = statement (select id)

unfoldable pub update_pipeline_run_started_on :
    ℕ → String → RunStatus → Option ℕ → Exec Db (Unit {0})
update_pipeline_run_started_on id workdir status at =
    statement (update id (started workdir status at))

unfoldable pub update_pipeline_run_ended_on :
    ℕ → RunStatus → Option String → Option ℕ → Exec Db (Unit {0})
update_pipeline_run_ended_on id status artifacts at =
    statement (update id (ended status artifacts at))

abbrev pub set_output : Run → String → Run → Run
set_output r out a = record a { output = (appended out r).output }

-- The transaction reads the row and writes its output back with the new text behind it.
unfoldable pub append : ℕ → String → Exec (Table Run) (Unit {0})
append id out t = (select id >>= λ r. update r.run_id (set_output r out)) t

unfoldable pub append_pipeline_run_output : ℕ → String → Exec Db (Unit {0})
append_pipeline_run_output id out = statement (append id out)

pub delete_pipeline_run : ℕ → Exec Db (Unit {0})
delete_pipeline_run id = statement (delete id)

abbrev pub row : Db → ℕ → Option Run
row db id = Table.find key id db.stored.rows

abbrev pub IsSound : Db → Type 0
IsSound db = Table.Fresh key db.stored.last_id db.stored.rows
