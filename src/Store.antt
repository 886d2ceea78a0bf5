-- ===== src/Store.antt =====
-- The data of the program: the row types of `internal/store`. Identifiers are compared and
-- counted up, so they are natural numbers; a time is a natural number, `*time.Time` an `Option`.
pub mod Table
pub mod Driver
pub mod Tables
pub mod Runs
use simple_ci.Base.{ℕ, String, Option, none, some, Bool, false, List, ◌==◌, ◌||◌, if◌then◌else◌}

-- `internal/store/run.go`
pub data RunStatus : Type 0 where
  queued running cancelled failed passed : RunStatus

pub record Run : Type 0 where
  pub run_id : ℕ
  pub run_pipeline_id : ℕ
  pub branch : String
  pub working_directory : Option String
  pub output : Option String
  pub artifacts : Option String
  pub status : RunStatus
  pub created_on : ℕ
  pub started_on : Option ℕ
  pub ended_on : Option ℕ
  pub archive : Bool

-- `internal/store/pipeline.go`
pub record Pipeline : Type 0 where
  pub pipeline_id : ℕ
  pub pipeline_agent_id : ℕ
  pub name : String
  pub description : String
  pub repository : String
  pub script_path : String
  pub schedule : Option String
  pub schedule_branch : Option String
  pub schedule_job_id : Option String

pub record PipelineRunData : Type 0 where
  pub pipeline_id : ℕ
  pub agent_id : ℕ
  pub os_type : String
  pub credential_id : Option ℕ
  pub repository : String
  pub script_path : String
  pub hostname : String
  pub workspace : String
  pub username : Option String
  pub ssh_private_key_hash : Option String
  pub ssh_private_key : List ℕ

-- `internal/store/agent.go`
pub record Agent : Type 0 where
  pub agent_id : ℕ
  pub agent_credential_id : Option ℕ
  pub name : String
  pub hostname : String
  pub workspace : String
  pub description : String
  pub os_type : String

-- `internal/store/credential.go`; `SSHPrivateKey` is filled in by no store.
pub record Credential : Type 0 where
  pub credential_id : ℕ
  pub username : String
  pub description : String
  pub ssh_private_key_hash : String

-- `internal/store/api_key.go`
pub record ApiKey : Type 0 where
  pub id : ℕ
  pub value : String
  pub created_on : ℕ

-- `internal/store/role.go`: a role is a number, and the form of a user may send any.
abbrev pub Role : Type 0
Role = ℕ

abbrev pub operator : Role
operator = 10

abbrev pub admin : Role
admin = 1000

abbrev pub superuser : Role
superuser = 10000

-- `Role.ToString`
unfoldable pub to_string : Role → String
to_string r = if r == superuser then "superuser" else if r == admin then "admin" else "operator"

-- `internal/store/user.go`; `session_expires` is none where `sql.NullTime` is not valid.
pub record User : Type 0 where
  pub user_id : ℕ
  pub user_role_id : Role
  pub username : String
  pub password_hash : String
  pub password_changed_on : Option ℕ
  pub session_expires : Option ℕ

pub record AuthSession : Type 0 where
  pub auth_session_id : String
  pub auth_session_user_id : ℕ
  pub auth_session_expires : ℕ

-- `User.IsAdmin` and `User.IsSuperuser`; a nil user is neither.
unfoldable pub is_admin : Option User → Bool
is_admin none = false
is_admin (some u) = (u.user_role_id == admin) || (u.user_role_id == superuser)

unfoldable pub is_superuser : Option User → Bool
is_superuser none = false
is_superuser (some u) = u.user_role_id == superuser
