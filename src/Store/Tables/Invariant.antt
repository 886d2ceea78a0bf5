-- ===== src/Store/Tables/Invariant.antt =====
-- Referential integrity and uniqueness of the tables, under every statement of the stores of
-- `internal/store`.
use simple_ci.Base.{◌≡◌, refl, String, Bool, true, false, List, All}
use simple_ci.Base.Errors.{Error}
use simple_ci.Base.Exec.{Exec}
use simple_ci.Store.{User, AuthSession, Credential, Agent, Pipeline, ApiKey}
use simple_ci.Store.Table
use simple_ci.Store.Table.{Table}
use simple_ci.Store.Driver.{Driven, statement, statement_cases}
use simple_ci.Store.Tables.{
  Tables, user_key, credential_key, agent_key, pipeline_key, api_key_key, has_key, is_role, refers,
  constrained,
}
use simple_ci.Store.Tables.Keys.{Unique}

abbrev pub username : User → String
username u = u.username

abbrev pub agent_name : Agent → String
agent_name a = a.name

abbrev pub key_value : ApiKey → String
key_value k = k.value

-- A session is of a user that is there, a role is one of the three, a name is taken once.
pub record UsersSound (users : Table User) (sessions : List AuthSession) : Type 0 where
  pub fresh : Table.Fresh user_key users.last_id users.rows
  pub roles : All (λ u. is_role u.user_role_id ≡ true) users.rows
  pub refer : All (λ s. has_key user_key s.auth_session_user_id users ≡ true) sessions
  pub unique : Unique username users.rows

-- An agent with a credential has one that is there, and so has every pipeline its agent.
pub record FleetSound (credentials : Table Credential) (agents : Table Agent)
    (pipelines : Table Pipeline) : Type 0 where
  pub fresh_credentials : Table.Fresh credential_key credentials.last_id credentials.rows
  pub fresh_agents : Table.Fresh agent_key agents.last_id agents.rows
  pub fresh_pipelines : Table.Fresh pipeline_key pipelines.last_id pipelines.rows
  pub agents_refer :
      All (λ a. refers credential_key a.agent_credential_id credentials ≡ true) agents.rows
  pub pipelines_refer :
      All (λ p. has_key agent_key p.pipeline_agent_id agents ≡ true) pipelines.rows
  pub unique_names : Unique agent_name agents.rows

pub record KeysSound (api_keys : Table ApiKey) : Type 0 where
  pub fresh_keys : Table.Fresh api_key_key api_keys.last_id api_keys.rows
  pub unique_values : Unique key_value api_keys.rows

abbrev pub IsSound : Tables → Type 0
IsSound t =
    UsersSound t.users t.sessions
    × FleetSound t.credentials t.agents t.pipelines
    × KeysSound t.api_keys

abbrev pub KeepsSound : {A : Type 0} → Exec Tables A → Type 0
KeepsSound m = (t : Tables) → IsSound t → IsSound (m t).1

-- A constraint that fails leaves the tables alone; the statement itself may rely on it.
pub constrained-IsSound :
    {A : Type 0} (b : Bool) (e : Error) (m : Exec Tables A) (t : Tables)
    → IsSound t
    → (b ≡ true → IsSound (m t).1)
    → IsSound (constrained b e m t).1
constrained-IsSound true e m t h k = k refl
constrained-IsSound false e m t h k = h

-- The driver may refuse a statement that keeps the tables sound.
pub statement-IsSound :
    {A : Type 0} (m : Exec Tables A) (db : Driven Tables)
    → KeepsSound m
    → IsSound db.stored
    → IsSound (statement m db).1.stored
statement-IsSound m db keeps h =
    statement_cases (λ p. IsSound p.1.stored) m db (λ e qs. h) (λ qs. keeps db.stored h)
