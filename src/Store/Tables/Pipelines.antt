-- ===== src/Store/Tables/Pipelines.antt =====
-- `PipelineSQLiteStore` and `APIKeySQLiteStore` of `internal/store`, a statement for each method.
pub mod Sound
pub mod Created
use simple_ci.Base.{
  ℕ, suc, String, Option, none, some, List, [], ◌∷◌, Bool, true, false, not, is_some, ◌is◌, ◌==◌,
  any, filter, find_by, ◌||◌, ◌&&◌, if◌then◌else◌,
}
use simple_ci.Base.Errors.{
  Error, no_rows, unique_constraint, foreign_key_constraint, Result, ok, err,
}
use simple_ci.Base.Exec.{Exec, ◌>>=◌, continue}
use simple_ci.Store.{Credential, Agent, Pipeline, PipelineRunData, ApiKey}
use simple_ci.Store.Table
use simple_ci.Store.Table.{Table}
use simple_ci.Store.Tables.{
  Tables, credential_key, agent_key, pipeline_key, api_key_key, or_no_rows, added, has_key, refers,
  constrained,
}
use simple_ci.Store.Tables.Fleet.{update_table, remove_row}

-- Pipelines.
abbrev add_pipeline : Pipeline → Exec Tables Pipeline
add_pipeline p t = (ok p, record t { pipelines = added p t.pipelines })

new_pipeline : ℕ → ℕ → String → String → String → String → Pipeline
new_pipeline id agent name description repository script_path = record {
  pipeline_id = id;
  pipeline_agent_id = agent;
  name = name;
  description = description;
  repository = repository;
  script_path = script_path;
  schedule = none;
  schedule_branch = none;
  schedule_job_id = none;
}

unfoldable pub create_pipeline : ℕ → String → String → String → String → Exec Tables Pipeline
unfolding new_pipeline
create_pipeline agent name description repository script_path t =
    let p = new_pipeline (suc t.pipelines.last_id) agent name description repository script_path in
    constrained (has_key agent_key agent t.agents) foreign_key_constraint (add_pipeline p) t

unfoldable pub read_pipeline_by_id : ℕ → Exec Tables Pipeline
read_pipeline_by_id id t = (or_no_rows (Table.find pipeline_key id t.pipelines.rows), t)

abbrev credential_of : Option ℕ → Tables → Option Credential
credential_of none t = none
credential_of (some k) t = Table.find credential_key k t.credentials.rows

abbrev username_of : Option Credential → Option String
username_of none = none
username_of (some c) = some c.username

abbrev hash_of : Option Credential → Option String
hash_of none = none
hash_of (some c) = some c.ssh_private_key_hash

abbrev id_of : Option Credential → Option ℕ
id_of none = none
id_of (some c) = some c.credential_id

abbrev pub joined : Pipeline → Agent → Option Credential → PipelineRunData
joined p a c = record {
  pipeline_id = p.pipeline_id;
  agent_id = a.agent_id;
  os_type = a.os_type;
  credential_id = id_of c;
  repository = p.repository;
  script_path = p.script_path;
  hostname = a.hostname;
  workspace = a.workspace;
  username = username_of c;
  ssh_private_key_hash = hash_of c;
  ssh_private_key = [];
}

abbrev with_agent : Pipeline → Option Agent → Tables → Option PipelineRunData
with_agent p none t = none
with_agent p (some a) t = some (joined p a (credential_of a.agent_credential_id t))

abbrev run_data_of : Option Pipeline → Tables → Option PipelineRunData
run_data_of none t = none
run_data_of (some p) t = with_agent p (Table.find agent_key p.pipeline_agent_id t.agents.rows) t

-- The join with the agents, and the left join with the credentials. No column is the private key.
pub read_pipeline_run_data : ℕ → Exec Tables PipelineRunData
read_pipeline_run_data id t =
    (or_no_rows (run_data_of (Table.find pipeline_key id t.pipelines.rows) t), t)

abbrev pub set_pipeline : ℕ → String → String → String → String → Pipeline → Pipeline
set_pipeline agent name description repository script_path p = record p {
  pipeline_agent_id = agent;
  name = name;
  description = description;
  repository = repository;
  script_path = script_path;
}

abbrev update_pipelines : ℕ → (Pipeline → Pipeline) → Exec Tables (Unit {0})
update_pipelines id f t =
    (ok tt, record t { pipelines = update_table pipeline_key id f t.pipelines })

pub update_pipeline : ℕ → ℕ → String → String → String → String → Exec Tables (Unit {0})
update_pipeline id agent name description repository script_path t =
    constrained (not (has_key pipeline_key id t.pipelines) || has_key agent_key agent t.agents)
      foreign_key_constraint
      (update_pipelines id (set_pipeline agent name description repository script_path)) t

-- The runs of the pipeline, which are not here, lose their reference to it: `on delete set null`.
pub delete_pipeline : ℕ → Exec Tables (Unit {0})
delete_pipeline id t = (ok tt, record t { pipelines = remove_row pipeline_key id t.pipelines })

unfoldable pub list_pipelines : Exec Tables (List Pipeline)
list_pipelines t = (ok t.pipelines.rows, t)

unfoldable pub list_scheduled_pipelines : Exec Tables (List Pipeline)
list_scheduled_pipelines t = (ok (filter (λ p. is_some p.schedule) t.pipelines.rows), t)

abbrev job_is : Option String → ℕ → Pipeline → Bool
job_is none id p = false
job_is (some j) id p = elim p.schedule_job_id [
  | none ↦ false
  | some i ↦ (i is j) && not (p.pipeline_id == id)
]

-- Job ids are unique; `null` is not.
abbrev free_job : Option String → ℕ → Tables → Bool
free_job job id t =
    not (has_key pipeline_key id t.pipelines) || not (any (job_is job id) t.pipelines.rows)

abbrev pub set_schedule : Option String → Option String → Option String → Pipeline → Pipeline
set_schedule schedule branch job p = record p {
  schedule = schedule;
  schedule_branch = branch;
  schedule_job_id = job;
}

unfoldable pub update_pipeline_schedule :
    ℕ → Option String → Option String → Option String → Exec Tables (Unit {0})
update_pipeline_schedule id schedule branch job t =
    constrained (free_job job id t) unique_constraint
      (update_pipelines id (set_schedule schedule branch job)) t

abbrev set_job : Option String → Pipeline → Pipeline
set_job job p = record p { schedule_job_id = job }

unfoldable pub update_pipeline_schedule_job_id : ℕ → Option String → Exec Tables (Unit {0})
update_pipeline_schedule_job_id id job t =
    constrained (free_job job id t) unique_constraint (update_pipelines id (set_job job)) t

-- API keys.
abbrev pub has_value : String → ApiKey → Bool
has_value value k = k.value is value

abbrev add_api_key : ApiKey → Exec Tables ApiKey
add_api_key k t = (ok k, record t { api_keys = added k t.api_keys })

-- `now` is `current_timestamp`.
pub create_api_key : ℕ → String → Exec Tables ApiKey
create_api_key now value t =
    let k : ApiKey = record { id = suc t.api_keys.last_id; value = value; created_on = now } in
    constrained (not (any (has_value value) t.api_keys.rows)) unique_constraint (add_api_key k) t

pub read_api_key_by_id : ℕ → Exec Tables ApiKey
read_api_key_by_id id t = (or_no_rows (Table.find api_key_key id t.api_keys.rows), t)

unfoldable pub read_api_key_by_value : String → Exec Tables ApiKey
read_api_key_by_value value t = (or_no_rows (find_by (has_value value) t.api_keys.rows), t)

abbrev delete_key : ApiKey → Exec Tables (Unit {0})
delete_key k t = (ok tt, record t { api_keys = remove_row api_key_key k.id t.api_keys })

-- The transaction reads the key first, so that a key which is not there is an error.
pub delete_api_key : ℕ → Exec Tables (Unit {0})
delete_api_key id = read_api_key_by_id id >>= delete_key

pub list_api_keys : Exec Tables (List ApiKey)
list_api_keys t = (ok t.api_keys.rows, t)
