-- ===== src/Store/Tables/Fleet.antt =====
-- `CredentialSQLiteStore` and `AgentSQLiteStore` of `internal/store`, a statement for each method.
pub mod Controller
pub mod Credentials
pub mod Created
pub mod Agents
use simple_ci.Base.{
  ℕ, suc, String, Option, none, some, List, [], ◌∷◌, Bool, true, false, not, is_some, ◌is◌, ◌==◌,
  any, filter, find_by, ◌||◌, ◌&&◌, if◌then◌else◌,
}
use simple_ci.Base.Errors.{
  Error, no_rows, unique_constraint, foreign_key_constraint, Result, ok, err,
}
use simple_ci.Base.Exec.{Exec, ◌>>=◌, continue}
use simple_ci.Store.{Credential, Agent, Pipeline, PipelineRunData, ApiKey}
use simple_ci.Store.Table
use simple_ci.Store.Table.{Table}
use simple_ci.Store.Tables.{
  Tables, credential_key, agent_key, pipeline_key, api_key_key, or_no_rows, added, has_key, refers,
  constrained,
}

abbrev pub update_table : {A : Type 0} → (A → ℕ) → ℕ → (A → A) → Table A → Table A
update_table key id f t = record { rows = Table.update key id f t.rows; last_id = t.last_id }

abbrev pub remove_row : {A : Type 0} → (A → ℕ) → ℕ → Table A → Table A
remove_row key id t = record { rows = Table.remove key id t.rows; last_id = t.last_id }

-- Credentials.
unfoldable pub create_credential : String → String → String → Exec Tables Credential
create_credential username description hash t =
    let c : Credential = record {
      credential_id = suc t.credentials.last_id;
      username = username;
      description = description;
      ssh_private_key_hash = hash;
    } in
    (ok c, record t { credentials = added c t.credentials })

unfoldable pub read_credential_by_id : ℕ → Exec Tables Credential
read_credential_by_id id t = (or_no_rows (Table.find credential_key id t.credentials.rows), t)

abbrev describe : String → String → Credential → Credential
describe username description c = record c { username = username; description = description }

pub update_credential : ℕ → String → String → Exec Tables (Unit {0})
update_credential id username description t = (
  ok tt,
  record t {
    credentials = update_table credential_key id (describe username description) t.credentials;
  },
)

abbrev pub uses_credential : ℕ → Agent → Bool
uses_credential id a = elim a.agent_credential_id [ none ↦ false | some k ↦ k == id ]

abbrev pub remove_credential : ℕ → Exec Tables (Unit {0})
remove_credential id t =
    (ok tt, record t { credentials = remove_row credential_key id t.credentials })

-- `on delete restrict`
unfoldable pub delete_credential : ℕ → Exec Tables (Unit {0})
delete_credential id t =
    constrained
      (not (has_key credential_key id t.credentials && any (uses_credential id) t.agents.rows))
      foreign_key_constraint (remove_credential id) t

pub list_credentials : Exec Tables (List Credential)
list_credentials t = (ok t.credentials.rows, t)

-- Agents.
abbrev has_name : String → Agent → Bool
has_name name a = a.name is name

new_agent : ℕ → Option ℕ → String → String → String → String → String → Agent
new_agent id credential name hostname workspace description os_type = record {
  agent_id = id;
  agent_credential_id = credential;
  name = name;
  hostname = hostname;
  workspace = workspace;
  description = description;
  os_type = os_type;
}

abbrev add_agent : Agent → Exec Tables Agent
add_agent a t = (ok a, record t { agents = added a t.agents })

unfoldable pub insert_agent : (ℕ → Agent) → Exec Tables Agent
insert_agent make t =
    let a = make (suc t.agents.last_id) in
    constrained (not (any (has_name a.name) t.agents.rows)) unique_constraint
      (constrained (refers credential_key a.agent_credential_id t.credentials)
        foreign_key_constraint (add_agent a))
      t

-- `windows` is `runtime.GOOS == "windows"`.
unfoldable pub create_controller_agent : Bool → Exec Tables Agent
unfolding insert_agent new_agent
create_controller_agent windows = insert_agent (λ id.
    new_agent id none "Localhost" "localhost" "runs"
      "Agent to run pipelines on the controller machine." (if windows then "windows" else "unix"))

unfoldable pub create_agent : ℕ → String → String → String → String → String → Exec Tables Agent
unfolding insert_agent new_agent
create_agent credential name hostname workspace description os_type =
    insert_agent (λ id. new_agent id (some credential) name hostname workspace description os_type)

unfoldable pub read_agent_by_id : ℕ → Exec Tables Agent
read_agent_by_id id t = (or_no_rows (Table.find agent_key id t.agents.rows), t)

abbrev other_has_name : String → ℕ → Agent → Bool
other_has_name name id a = (a.name is name) && not (a.agent_id == id)

abbrev set_agent : ℕ → String → String → String → String → String → Agent → Agent
set_agent credential name hostname workspace description os_type a = record a {
  agent_credential_id = some credential;
  name = name;
  hostname = hostname;
  workspace = workspace;
  description = description;
  os_type = os_type;
}

abbrev update_agents : ℕ → (Agent → Agent) → Exec Tables (Unit {0})
update_agents id f t = (ok tt, record t { agents = update_table agent_key id f t.agents })

-- The constraints count only if there is a row to update.
pub update_agent : ℕ → ℕ → String → String → String → String → String → Exec Tables (Unit {0})
update_agent id credential name hostname workspace description os_type t =
    let absent = not (has_key agent_key id t.agents) in
    constrained (absent || not (any (other_has_name name id) t.agents.rows)) unique_constraint
      (constrained (absent || has_key credential_key credential t.credentials)
        foreign_key_constraint
        (update_agents id (set_agent credential name hostname workspace description os_type)))
      t

abbrev pub runs_on : ℕ → Pipeline → Bool
runs_on id p = p.pipeline_agent_id == id

abbrev pub remove_agent : ℕ → Exec Tables (Unit {0})
remove_agent id t = (ok tt, record t { agents = remove_row agent_key id t.agents })

unfoldable pub delete_agent : ℕ → Exec Tables (Unit {0})
delete_agent id t =
    constrained (not (has_key agent_key id t.agents && any (runs_on id) t.pipelines.rows))
      foreign_key_constraint (remove_agent id) t

pub list_agents : Exec Tables (List Agent)
list_agents t = (ok t.agents.rows, t)
