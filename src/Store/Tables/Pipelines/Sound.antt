-- ===== src/Store/Tables/Pipelines/Sound.antt =====
-- The statements of `internal/store/pipeline_sqlitestore.go` and `api_key_sqlitestore.go` keep the
-- tables sound.
use simple_ci.Base.{
  ◌≡◌, refl, ℕ, suc, String, Option, none, some, [], ◌∷◌, true, not, any, All, All-append, arith,
  Bool-cases, inl, inr, ◌||◌,
}
use simple_ci.Base.Errors.{unique_constraint, foreign_key_constraint}
use simple_ci.Base.Exec.{continue}
use simple_ci.Store.{Credential, Agent, Pipeline, ApiKey}
use simple_ci.Store.Table
use simple_ci.Store.Table.{Table}
use simple_ci.Store.Tables.{
  Tables, agent_key, pipeline_key, api_key_key, has_key, or_no_rows, added,
}
use simple_ci.Store.Tables.Keys.{
  differs, Unique-append, Unique-remove, All-remove, All-update, update_missing,
}
use simple_ci.Store.Tables.Fleet.{update_table, remove_row}
use simple_ci.Store.Tables.Pipelines.{
  new_pipeline, add_pipeline, create_pipeline, set_pipeline, update_pipelines, update_pipeline,
  delete_pipeline, free_job, set_schedule, set_job, update_pipeline_schedule,
  update_pipeline_schedule_job_id, has_value, add_api_key, create_api_key, read_api_key_by_id,
  delete_key, delete_api_key,
}
use simple_ci.Store.Tables.Invariant.{
  FleetSound, IsSound, KeepsSound, constrained-IsSound, key_value,
}

abbrev OnAgent : Table Agent → Pipeline → Type 0
OnAgent agents p = has_key agent_key p.pipeline_agent_id agents ≡ true

-- Only the rows of the pipelines change.
with_pipelines :
    (cs : Table Credential) (agents : Table Agent) (ps qs : Table Pipeline)
    → FleetSound cs agents ps
    → Table.Fresh pipeline_key qs.last_id qs.rows
    → All (OnAgent agents) qs.rows
    → FleetSound cs agents qs
with_pipelines cs agents ps qs f fresh on = record {
  fresh_credentials = f.fresh_credentials;
  fresh_agents = f.fresh_agents;
  fresh_pipelines = fresh;
  agents_refer = f.agents_refer;
  pipelines_refer = on;
  unique_names = f.unique_names;
}

create_pipeline-Keeps :
    (agent : ℕ) (name text repo path : String)
    → KeepsSound (create_pipeline agent name text repo path)
unfolding create_pipeline
create_pipeline-Keeps agent name text repo path t h =
    let p = new_pipeline (suc t.pipelines.last_id) agent name text repo path in
    let ps = t.pipelines in
    constrained-IsSound (has_key agent_key agent t.agents) foreign_key_constraint (add_pipeline p) t
      h
      λ there. (
        h.0,
        with_pipelines t.credentials t.agents ps (added p ps) h.1
            (Table.append-Fresh pipeline_key ps.last_id ps.rows p h.1.fresh_pipelines refl)
            (All-append (OnAgent t.agents) ps.rows (p ∷ []) h.1.pipelines_refer (there, tt)),
        h.2,
      )

updated-IsSound :
    (k : ℕ) (f : Pipeline → Pipeline) (t : Tables)
    → IsSound t
    → ((p : Pipeline) → (f p).pipeline_id ≡ p.pipeline_id)
    → All (OnAgent t.agents) (Table.update pipeline_key k f t.pipelines.rows)
    → IsSound (update_pipelines k f t).1
updated-IsSound k f t h same on =
    let ps = t.pipelines in
    (
      h.0,
      with_pipelines t.credentials t.agents ps (update_table pipeline_key k f ps) h.1
          (Table.update-Fresh pipeline_key k ps.last_id f ps.rows same h.1.fresh_pipelines) on,
      h.2,
    )

update_pipeline-Keeps :
    (k agent : ℕ) (name text repo path : String)
    → KeepsSound (update_pipeline k agent name text repo path)
unfolding update_pipeline
update_pipeline-Keeps k agent name text repo path t h =
    let f = set_pipeline agent name text repo path in
    let rows = t.pipelines.rows in
    let present = has_key pipeline_key k t.pipelines in
    constrained-IsSound (not present || has_key agent_key agent t.agents) foreign_key_constraint
      (update_pipelines k f) t h
      λ allowed.
        updated-IsSound k f t h (λ p. refl)
          (elim (Bool-cases present) [
            | inl e ↦
                All-update pipeline_key (OnAgent t.agents) k f rows
                  (λ p on. ground (arith, allowed, e)) h.1.pipelines_refer
            | inr e ↦
                rw (update_missing pipeline_key k f rows (ground (arith, e))) h.1.pipelines_refer
          ])

delete_pipeline-Keeps : (k : ℕ) → KeepsSound (delete_pipeline k)
unfolding delete_pipeline
delete_pipeline-Keeps k t h =
    let ps = t.pipelines in
    (
      h.0,
      with_pipelines t.credentials t.agents ps (remove_row pipeline_key k ps) h.1
          (Table.remove-Fresh pipeline_key k ps.last_id ps.rows h.1.fresh_pipelines)
          (All-remove pipeline_key (OnAgent t.agents) k ps.rows h.1.pipelines_refer),
      h.2,
    )

schedule-Keeps :
    (k : ℕ) (schedule branch job : Option String)
    → KeepsSound (update_pipeline_schedule k schedule branch job)
unfolding update_pipeline_schedule
schedule-Keeps k schedule branch job t h =
    let f = set_schedule schedule branch job in
    constrained-IsSound (free_job job k t) unique_constraint (update_pipelines k f) t h λ free.
      updated-IsSound k f t h (λ p. refl)
        (All-update pipeline_key (OnAgent t.agents) k f t.pipelines.rows (λ p on. on)
          h.1.pipelines_refer)

job-Keeps : (k : ℕ) (job : Option String) → KeepsSound (update_pipeline_schedule_job_id k job)
unfolding update_pipeline_schedule_job_id
job-Keeps k job t h =
    let f = set_job job in
    constrained-IsSound (free_job job k t) unique_constraint (update_pipelines k f) t h λ free.
      updated-IsSound k f t h (λ p. refl)
        (All-update pipeline_key (OnAgent t.agents) k f t.pipelines.rows (λ p on. on)
          h.1.pipelines_refer)

create_api_key-Keeps : (now : ℕ) (value : String) → KeepsSound (create_api_key now value)
unfolding create_api_key
create_api_key-Keeps now value t h =
    let keys = t.api_keys in
    let k : ApiKey = record { id = suc keys.last_id; value = value; created_on = now } in
    constrained-IsSound (not (any (has_value value) keys.rows)) unique_constraint (add_api_key k) t
      h
      λ free. (
        h.0,
        h.1,
        record {
          fresh_keys = Table.append-Fresh api_key_key keys.last_id keys.rows k h.2.fresh_keys refl;
          unique_values =
              Unique-append key_value keys.rows k
                (differs key_value value keys.rows (ground (arith, free))) h.2.unique_values;
        },
      )

delete_api_key-Keeps : (k : ℕ) → KeepsSound (delete_api_key k)
unfolding delete_api_key read_api_key_by_id
delete_api_key-Keeps k t h = go (Table.find api_key_key k t.api_keys.rows)
  where
    go : (o : Option ApiKey) → IsSound (continue (or_no_rows o) delete_key t).1
    go none = h
    go (some a) =
        let keys = t.api_keys in
        (
          h.0,
          h.1,
          record {
            fresh_keys = Table.remove-Fresh api_key_key a.id keys.last_id keys.rows h.2.fresh_keys;
            unique_values = Unique-remove api_key_key key_value a.id keys.rows h.2.unique_values;
          },
        )

-- Every statement of the pipeline and API key stores keeps the tables sound: every pipeline runs on
-- an agent that is there, key values are taken once and keys are new.
pub pipeline_statements-IsSound :
    (k agent now : ℕ) (name text repo path : String) (schedule branch job : Option String)
    (t : Tables)
    → IsSound t
    → IsSound (create_pipeline agent name text repo path t).1
      × IsSound (update_pipeline k agent name text repo path t).1
      × IsSound (delete_pipeline k t).1
      × IsSound (update_pipeline_schedule k schedule branch job t).1
      × IsSound (update_pipeline_schedule_job_id k job t).1
      × IsSound (create_api_key now name t).1
      × IsSound (delete_api_key k t).1
pipeline_statements-IsSound k agent now name text repo path schedule branch job t h = (
  create_pipeline-Keeps agent name text repo path t h,
  update_pipeline-Keeps k agent name text repo path t h,
  delete_pipeline-Keeps k t h,
  schedule-Keeps k schedule branch job t h,
  job-Keeps k job t h,
  create_api_key-Keeps now name t h,
  delete_api_key-Keeps k t h,
)
