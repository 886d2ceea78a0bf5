-- ===== src/Fleet.antt =====
-- The services of agents, credentials and API keys: `internal/service/agent_service.go`,
-- `credential_service.go` and `api_key_service.go`.
pub mod Pages
pub mod Examples
use simple_ci.Base.{ℕ, String, Option, none, some, List, Bool, if◌then◌else◌}
use simple_ci.Base.Errors.{Error, is_no_rows, Result, ok, err, panic}
use simple_ci.Base.Exec.{Exec, pure, lift, ◌>>=◌, ◌>>◌}
use simple_ci.Paths.{with_port}
use simple_ci.Security.{Gcm, encrypt_aes, decrypt_aes}
use simple_ci.Store.{Agent, Credential, ApiKey}
use simple_ci.Store.Driver.{statement}
use simple_ci.Store.Tables.Fleet as Store
use simple_ci.Store.Tables.Pipelines as Keys
use simple_ci.Users.{Db, to_result, or_empty}

-- golang.org/x/crypto/ssh: `ParsePrivateKey`, and `Dial` of a host with its port by a user.
pub record Ssh : Type 0 where
  pub parse_private_key : List ℕ → Option Error
  pub dial : String → String → Option Error

abbrev pub deref : {A : Type 0} → Option A → Result A
deref none = panic
deref (some a) = ok a

-- Agents. `windows` is `runtime.GOOS == "windows"`.
unfoldable pub create_controller_agent : Bool → Exec Db Agent
create_controller_agent windows = statement (Store.create_controller_agent windows)

unfoldable pub create_agent : ℕ → String → String → String → String → String → Exec Db Agent
create_agent credential name hostname workspace description os_type =
    statement (Store.create_agent credential name hostname workspace description os_type)

pub get_agent_by_id : ℕ → Exec Db Agent
get_agent_by_id id = statement (Store.read_agent_by_id id)

-- An agent that is not there is nil here, and no error.
absent_is_nil : Result Agent → Result (Option Agent)
absent_is_nil (ok a) = ok (some a)
absent_is_nil (err e) = if is_no_rows e then ok none else err e
absent_is_nil panic = panic

or_nil : Exec Db Agent → Exec Db (Option Agent)
unfolding absent_is_nil
or_nil m db = let (r, db') = m db in (absent_is_nil r, db')

pub get_agent_and_credentials : ℕ → Exec Db (Option Agent × List Credential)
unfolding or_nil
get_agent_and_credentials id = do
  a ← or_nil (statement (Store.read_agent_by_id id))
  credentials ← statement Store.list_credentials
  pure (a, credentials)

pub list_agents_and_credentials : Exec Db (List Agent × List Credential)
list_agents_and_credentials = do
  agents ← or_empty (statement Store.list_agents)
  credentials ← or_empty (statement Store.list_credentials)
  pure (agents, credentials)

pub update_agent : ℕ → ℕ → String → String → String → String → String → Exec Db (Unit {0})
update_agent id credential name hostname workspace description os_type =
    statement (Store.update_agent id credential name hostname workspace description os_type)

pub delete_agent : ℕ → Exec Db (Unit {0})
delete_agent id = statement (Store.delete_agent id)

module _ (gcm : Gcm) (key : List ℕ) where
  -- An agent without a credential has a nil id for it.
  pub test_agent_connection : Ssh → ℕ → Exec Db (Unit {0})
  test_agent_connection ssh id = do
    a ← get_agent_by_id id
    k ← lift (deref a.agent_credential_id)
    c ← statement (Store.read_credential_by_id k)
    private_key ← lift (decrypt_aes gcm key c.ssh_private_key_hash)
    lift (to_result (ssh.parse_private_key private_key))
    lift (to_result (ssh.dial c.username (with_port a.hostname)))

  -- Credentials. `nonce` is the random one of `EncryptAES`.
  unfoldable pub create_credential : List ℕ → String → String → String → Exec Db Credential
  create_credential nonce username description ssh_private_key = do
    hash ← lift (encrypt_aes gcm key nonce ssh_private_key)
    statement (Store.create_credential username description hash)

pub get_credential_by_id : ℕ → Exec Db Credential
get_credential_by_id id = statement (Store.read_credential_by_id id)

pub list_credentials : Exec Db (List Credential)
list_credentials = or_empty (statement Store.list_credentials)

pub update_credential : ℕ → String → String → Exec Db (Unit {0})
update_credential id username description =
    statement (Store.update_credential id username description)

pub delete_credential : ℕ → Exec Db (Unit {0})
delete_credential id = statement (Store.delete_credential id)

-- API keys. `value` is the random UUID.
pub create_api_key : ℕ → String → Exec Db ApiKey
create_api_key now value = statement (Keys.create_api_key now value)

pub delete_api_key : ℕ → Exec Db (Unit {0})
delete_api_key id = statement (Keys.delete_api_key id)

pub list_api_keys : Exec Db (List ApiKey)
list_api_keys = statement Keys.list_api_keys
