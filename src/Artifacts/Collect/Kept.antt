-- ===== src/Artifacts/Collect/Kept.antt =====
-- What the reads at the start of `CollectPipelineRunArtifacts` of
-- `internal/service/pipeline_service.go` leave as it was.
use simple_ci.Base.{◌≡◌, refl, ◌∙◌, ℕ}
use simple_ci.Base.Exec.{Exec, lift, ◌>>=◌, Respects, Respects-bind}
use simple_ci.Store.Driver.{Driven, statement, statement_cases}
use simple_ci.Store.Tables.{Tables}
use simple_ci.Store.Runs.Sqlite as Runs
use simple_ci.Store.Tables.Fleet as Store
use simple_ci.Store.Tables.Pipelines as Rows
use simple_ci.Fleet.{deref}
use simple_ci.Store.Runs.Sqlite.Laws.{sqlite_run_store}
use simple_ci.Pipelines.Schedules.{App, on_db, on_runs, get_pipeline_by_id}
use simple_ci.Artifacts.Collect.{Collecting, on_app, look_up}

-- All rows, the run queues and the jobs stay; what the driver will refuse next does not count.
abbrev pub AppKept : App sqlite_run_store → App sqlite_run_store → Type 0
AppKept a b =
    (b.db.stored ≡ a.db.stored)
    × (b.runs.stored ≡ a.runs.stored)
    × (b.service ≡ a.service)
    × (b.jobs ≡ a.jobs)

-- So do the files.
abbrev pub Kept : Collecting → Collecting → Type 0
Kept c d = AppKept c.app d.app × (d.local ≡ c.local)

Kept-refl : (c : Collecting) → Kept c c
Kept-refl c = ((refl, refl, refl, refl), refl)

Kept-trans : (c d e : Collecting) → Kept c d → Kept d e → Kept c e
Kept-trans c d e h k = ((k.0.0 ∙ h.0.0, k.0.1 ∙ h.0.1, k.0.2 ∙ h.0.2, k.0.3 ∙ h.0.3), k.1 ∙ h.1)

then-Kept :
    {A B : Type 0} (m : Exec Collecting A) (f : A → Exec Collecting B)
    → Respects Kept m
    → ((a : A) → Respects Kept (f a))
    → Respects Kept (m >>= f)
then-Kept = Respects-bind Kept Kept-refl Kept-trans

-- A statement that leaves the data alone.
statement-stored :
    {D A : Type 0} (m : Exec D A) (db : Driven D)
    → ((d : D) → (m d).1 ≡ d)
    → (statement m db).1.stored ≡ db.stored
statement-stored m db reads =
    statement_cases (λ p. p.1.stored ≡ db.stored) m db (λ e qs. refl) (λ qs. reads db.stored)

query-Kept :
    {A : Type 0} (m : Exec Tables A)
    → ((t : Tables) → (m t).1 ≡ t)
    → Respects Kept (on_app (on_db (statement m)))
query-Kept m reads c = ((statement-stored m c.app.db reads, refl, refl, refl), refl)

run-Kept : (id : ℕ) → Respects Kept (on_app (on_runs (Runs.read_run_by_id id)))
unfolding Runs.read_run_by_id Runs.select
run-Kept id c = ((refl, statement-stored (Runs.select id) c.app.runs (λ t. refl), refl, refl), refl)

pub look_up-Kept : (pipeline_id run_id : ℕ) → Respects Kept (look_up pipeline_id run_id)
unfolding look_up get_pipeline_by_id Store.read_agent_by_id Store.read_credential_by_id
    Rows.read_pipeline_by_id
look_up-Kept pipeline_id run_id =
    then-Kept (on_app (get_pipeline_by_id pipeline_id)) _
      (query-Kept (Rows.read_pipeline_by_id pipeline_id) (λ t. refl))
      λ p.
        then-Kept (on_app (on_db (statement (Store.read_agent_by_id p.pipeline_agent_id)))) _
          (query-Kept (Store.read_agent_by_id p.pipeline_agent_id) (λ t. refl))
          λ a. then-Kept (lift (deref a.agent_credential_id)) _ Kept-refl λ k.
            then-Kept (on_app (on_db (statement (Store.read_credential_by_id k)))) _
              (query-Kept (Store.read_credential_by_id k) (λ t. refl))
              λ x.
                then-Kept (on_app (on_runs (Runs.read_run_by_id run_id))) _ (run-Kept run_id)
                  λ r. Kept-refl
