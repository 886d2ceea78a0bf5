-- ===== src/Store/Runs/Sqlite/Laws.antt =====
-- The run store of `internal/store/run_sqlitestore.go` keeps what `RunStore` promises.
use mathlib.Core.Option
use simple_ci.Base.{
  ◌≡◌, refl, ℕ, suc, String, Option, none, some, ◌==◌, if◌then◌else◌, List, [], ◌∷◌, ◌++◌, arith,
  Option-cases, inl, inr, Bool-cases, ==_iff, ◌∙◌,
}
use simple_ci.Base.Errors.{Error}
use simple_ci.Store.{Run, RunStatus}
use simple_ci.Store.Driver.{statement, statement_cases}
use simple_ci.Store.Table
use simple_ci.Store.Table.{Table}
use simple_ci.Store.Runs.Interface.{started, ended, appended, Updates, Reads, Creates, RunStore}
use simple_ci.Store.Runs.Sqlite.{
  Db, key, or_no_rows, new_run, select, update, insert, append, set_output, row, IsSound,
  create_pipeline_run, read_run_by_id, update_pipeline_run_started_on, update_pipeline_run_ended_on,
  append_pipeline_run_output,
}

update-Updates :
    (k : ℕ) (f : Run → Run) (db : Db)
    → ((r : Run) → (f r).run_id ≡ r.run_id)
    → Updates row k f db (statement (update k f) db)
unfolding update
update-Updates k f db same =
    statement_cases (Updates row k f db) (update k f) db (λ e qs j. refl)
      (λ qs j. Table.find-update key k j f db.stored.rows same)

found-Reads :
    (k : ℕ) (db : Db) (qs : List (Option Error)) (o : Option Run)
    → row db k ≡ o
    → Reads row k db (or_no_rows o, record { stored = db.stored; refusals = qs })
unfolding or_no_rows
found-Reads k db qs none e = λ j. refl
found-Reads k db qs (some r) e = (e, λ j. refl)

pub read-Reads : (k : ℕ) (db : Db) → Reads row k db (read_run_by_id k db)
unfolding read_run_by_id select
read-Reads k db =
    statement_cases (Reads row k db) (select k) db (λ e qs j. refl)
      λ qs. found-Reads k db qs (row db k) refl

written_lem :
    (k j : ℕ) (out : String) (r : Run) (db : Db)
    → row db k ≡ some r
    → Table.find key j (Table.update key k (set_output r out) db.stored.rows)
      ≡ (if j == k then Option.map (appended out) (row db j) else row db j)
written_lem k j out r db e = elim (Bool-cases (j == k)) [
  | inl same ↦
      let eq : j ≡ k = (==_iff j k).0 same in
      Table.find-update key k j (set_output r out) db.stored.rows (λ a. refl)
      ∙ rw (same, eq, e) refl
  | inr other ↦
      Table.find-update key k j (set_output r out) db.stored.rows (λ a. refl) ∙ rw other refl
]

pub started-Updates :
    (k : ℕ) (w : String) (st : RunStatus) (at : Option ℕ) (db : Db)
    → Updates row k (started w st at) db (update_pipeline_run_started_on k w st at db)
unfolding update_pipeline_run_started_on
started-Updates k w st at db = update-Updates k (started w st at) db (λ r. refl)

pub ended-Updates :
    (k : ℕ) (st : RunStatus) (a : Option String) (at : Option ℕ) (db : Db)
    → Updates row k (ended st a at) db (update_pipeline_run_ended_on k st a at db)
unfolding update_pipeline_run_ended_on
ended-Updates k st a at db = update-Updates k (ended st a at) db (λ r. refl)

pub append-Updates :
    (k : ℕ) (out : String) (db : Db)
    → Updates row k (appended out) db (append_pipeline_run_output k out db)
unfolding append_pipeline_run_output append select update
append-Updates k out db =
    statement_cases (Updates row k (appended out) db) (append k out) db (λ e qs j. refl)
      λ qs. elim (Option-cases (row db k)) [
        | inl missing ↦ rw (missing, or_no_rows) (λ j. refl)
        | inr (r, e) ↦
            let eq : r.run_id ≡ k = Table.key-find key k db.stored.rows e in
            rw (e, or_no_rows) (rw eq (λ j. written_lem k j out r db e))
      ]

pub create-Creates :
    (now p : ℕ) (b : String) (db : Db)
    → IsSound db
    → Creates row p b db (create_pipeline_run now p b db)
unfolding create_pipeline_run insert new_run
create-Creates now p b db sound =
    statement_cases (Creates row p b db) (insert now p b) db (λ e qs j. refl)
      λ qs. (above, refl, refl, refl, λ j. found j)
  where
    k : ℕ
    k = suc db.stored.last_id

    above : row db k ≡ none
    above = Table.find_above key k db.stored.last_id db.stored.rows sound (omega arith)

    found :
        (j : ℕ)
        → Table.find key j (db.stored.rows ++ new_run k now p b ∷ [])
          ≡ (if j == k then some (new_run k now p b) else row db j)
    found j = elim (Bool-cases (j == k)) [
      | inl same ↦
          let eq : j ≡ k = (==_iff j k).0 same in
          rw same (rw eq (Table.find-append key k db.stored.rows (new_run k now p b) above refl))
      | inr other ↦
          rw other (Table.find-append_ne key j db.stored.rows (new_run k now p b) (ground arith))
    ]

pub row_key : (db : Db) (k : ℕ) (r : Run) → row db k ≡ some r → r.run_id ≡ k
row_key db k r e = Table.key-find key k db.stored.rows e

abbrev pub sqlite_run_store : RunStore
sqlite_run_store = record {
  State = Db;
  row = row;
  IsSound = IsSound;
  row_key = row_key;
  create_pipeline_run = create_pipeline_run;
  read_run_by_id = read_run_by_id;
  update_pipeline_run_started_on = update_pipeline_run_started_on;
  update_pipeline_run_ended_on = update_pipeline_run_ended_on;
  append_pipeline_run_output = append_pipeline_run_output;
  create_lem = create-Creates;
  read_lem = read-Reads;
  started_lem = started-Updates;
  ended_lem = ended-Updates;
  append_lem = append-Updates;
}

-- On a sound table each update changes the row that it names and no other, appending adds to the
-- output of that row, a read finds the row or fails, a new row has a new key, and a call that the
-- database refuses changes nothing.
pub run_statements-Contract :
    (k now : ℕ) (text : String) (st : RunStatus) (a : Option String) (at : Option ℕ) (db : Db)
    → IsSound db
    → Creates row k text db (create_pipeline_run now k text db)
      × Reads row k db (read_run_by_id k db)
      × Updates row k (started text st at) db (update_pipeline_run_started_on k text st at db)
      × Updates row k (ended st a at) db (update_pipeline_run_ended_on k st a at db)
      × Updates row k (appended text) db (append_pipeline_run_output k text db)
run_statements-Contract k now text st a at db sound = (
  create-Creates now k text db sound,
  read-Reads k db,
  started-Updates k text st at db,
  ended-Updates k st a at db,
  append-Updates k text db,
)
