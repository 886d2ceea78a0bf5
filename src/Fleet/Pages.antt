-- ===== src/Fleet/Pages.antt =====
-- The handlers of `internal/handler/agents.go`, `credentials.go`, `api_key_handler.go` and `app.go`.
-- Echo's binding of the parameters is an argument; `trim` is `strings.TrimSpace`.
pub mod InUse
use simple_ci.Base.{
  ℕ, String, ◌<>◌, ◌==◌, List, Bool, true, false, Option, none, some, if◌then◌else◌,
}
use simple_ci.Base.Errors.{Error, message, is_no_rows, Result, ok, err, panic}
use simple_ci.Base.Exec.{Exec, pure, lift, ◌>>=◌}
use simple_ci.Security.{Gcm}
use simple_ci.Store.{Agent, Credential, ApiKey}
use simple_ci.Fleet as Service
use simple_ci.Fleet.{Ssh}
use simple_ci.Web.{
  Reply, hx_redirect, page, toast, text_error, Handler, Visit, Talk, new_error, on_db, attempt,
  is_unique_constraint_error, is_foreign_key_constraint_error,
}

-- `internal/handler/params.go`
pub record AgentParams : Type 0 where
  pub agent_id : ℕ
  pub agent_credential_id : ℕ
  pub name : String
  pub hostname : String
  pub workspace : String
  pub description : String
  pub os_type : String

pub record CredentialParams : Type 0 where
  pub credential_id : ℕ
  pub username : String
  pub description : String
  pub ssh_private_key : String

-- A page shows as a whole, or as its main part only if htmx asks.
abbrev pub shown : Visit → String → String → Exec Talk Reply
shown v main whole = pure (page (if v.hx then main else whole))

abbrev pub otherwise : ℕ → String → Visit → Error → Reply
otherwise status text v e = new_error v (some e) status text

abbrev pub absent_or : ℕ → String → ℕ → String → Visit → Error → Reply
absent_or missing absent status text v e =
    if is_no_rows e then new_error v (some e) missing absent else new_error v (some e) status text

pub get_app_page : Handler
get_app_page v = shown v "AppMain" "AppPage"

-- Agents.
pub get_agents_page : Handler
get_agents_page v =
    attempt (on_db Service.list_agents_and_credentials)
      (otherwise 500 "Something went wrong listing agents/credentials" v)
      (λ both. shown v "AgentsMain" "AgentsPage")

-- The message takes the name from the agent that could not be created: the stores give one back
-- beside the error, with the name of the form.
abbrev not_created : Visit → String → Error → Reply
not_created v name e =
    if is_unique_constraint_error e
    then new_error v (some e) 409 ("An agent with the name " <> name <> " already exists")
    else new_error v (some e) 500 "unable to create agent"

pub post_agent : (String → String) → Result AgentParams → Handler
post_agent trim bound v = attempt (lift bound) (otherwise 400 "invalid agent data" v) λ ap.
    attempt
      (on_db (
        Service.create_agent ap.agent_credential_id (trim ap.name) (trim ap.hostname)
          (trim ap.workspace) (trim ap.description) ap.os_type))
      (not_created v (trim ap.name)) (λ a. pure (page "AgentCard"))

-- An agent that is not there is nil, and the page follows it.
pub get_agent_page : Result AgentParams → Handler
get_agent_page bound v = attempt (lift bound) (otherwise 400 "invalid agent data" v) λ ap.
    attempt (on_db (Service.get_agent_and_credentials ap.agent_id))
      (absent_or 404 "agent was not found" 500 "something went wrong while getting agent data" v)
      (λ both. lift (Service.deref both.0) >>= λ a. shown v "AgentMain" "AgentPage")

pub patch_agent : Result AgentParams → Handler
patch_agent bound v = attempt (lift bound) (otherwise 400 "invalid agent data" v) λ ap.
    attempt
      (on_db (
        Service.update_agent ap.agent_id ap.agent_credential_id ap.name ap.hostname ap.workspace
          ap.description ap.os_type))
      (absent_or 404 "agent was not found" 500 "something went wrong while updating agent" v)
      (λ done. pure (toast "Agent updated"))

-- `err != nil || ap.AgentID == 0`; the error may be nil.
abbrev with_agent_id :
    Result AgentParams → Visit → (AgentParams → Exec Talk Reply) → Exec Talk Reply
with_agent_id bound v next =
    attempt (lift bound) (otherwise 400 "invalid agent ID" v)
      λ ap. if ap.agent_id == 0 then pure (new_error v none 400 "invalid agent ID") else next ap

abbrev pub agent_kept : Error → Reply
agent_kept e =
    text_error 400 "#delete-agent-error"
      (if is_foreign_key_constraint_error e then "agent is in use" else "unable to delete agent")

abbrev pub delete_found : Agent → Exec Talk Reply
delete_found a =
    attempt (on_db (Service.delete_agent a.agent_id)) agent_kept
      (λ done. pure (hx_redirect "/app/agents"))

pub delete_agent : Result AgentParams → Handler
delete_agent bound v = with_agent_id bound v λ ap.
    attempt (on_db (Service.get_agent_by_id ap.agent_id))
      (absent_or 404 "agent not found" 500 "unable to delete agent" v) delete_found

pub post_test_agent_connection : Gcm → List ℕ → Ssh → Result AgentParams → Handler
post_test_agent_connection gcm key ssh bound v = with_agent_id bound v λ ap.
    attempt (on_db (Service.test_agent_connection gcm key ssh ap.agent_id))
      (otherwise 500 "testing agent connection failed, check logs for details" v)
      (λ done. pure (toast "connection ok"))

-- Credentials.
pub get_credentials_page : Handler
get_credentials_page v =
    attempt (on_db Service.list_credentials)
      (λ e.
        if is_no_rows e
        then page (if v.hx then "CredentialsMain" else "CredentialsPage")
        else new_error v (some e) 500 "something went wrong while listing credentials")
      (λ cs. shown v "CredentialsMain" "CredentialsPage")

pub get_credential_page : Result CredentialParams → Handler
get_credential_page bound v = attempt (lift bound) (otherwise 400 "invalid credential data" v) λ cp.
    attempt (on_db (Service.get_credential_by_id cp.credential_id))
      (absent_or 404 "credential was not found" 500
        "something went wrong while getting credential data" v)
      (λ c. shown v "CredentialMain" "CredentialPage")

pub post_credentials : Gcm → List ℕ → List ℕ → Result CredentialParams → Handler
post_credentials gcm key nonce bound v =
    attempt (lift bound) (otherwise 400 "Invalid credential data" v) λ cp.
      attempt
        (on_db
          (Service.create_credential gcm key nonce cp.username cp.description cp.ssh_private_key))
        (otherwise 500 "Something went wrong when creating new credentials." v)
        (λ c. pure (page "CredentialCard"))

pub patch_credential : (String → String) → Result CredentialParams → Handler
patch_credential trim bound v =
    attempt (lift bound) (otherwise 400 "invalid credential data" v) λ cp.
      attempt
        (on_db
          (Service.update_credential cp.credential_id (trim cp.username) (trim cp.description)))
        (absent_or 404 "credential was not found" 500
          "something went wrong while updating credential" v)
        (λ done. pure (toast "Credential updated."))

abbrev pub credential_kept : Error → Reply
credential_kept e = text_error 400 "#delete-credential-error" (
    if is_foreign_key_constraint_error e
    then "credential is in use"
    else "unable to delete credential")

abbrev pub delete_read : Credential → Exec Talk Reply
delete_read c =
    attempt (on_db (Service.delete_credential c.credential_id)) credential_kept
      (λ done. pure (hx_redirect "/app/credentials"))

pub delete_credential : Result CredentialParams → Handler
delete_credential bound v = attempt (lift bound) (otherwise 400 "invalid credential data" v) λ cp.
    if cp.credential_id == 0
    then pure (new_error v (some (message "credential id was zero")) 400 "invalid credential ID")
    else attempt (on_db (Service.get_credential_by_id cp.credential_id))
        (absent_or 404 "credential not found" 404 "unable to delete credential" v) delete_read

-- API keys.
pub get_api_keys_page : Handler
get_api_keys_page v =
    attempt (on_db Service.list_api_keys)
      (λ e.
        if is_no_rows e
        then page (if v.hx then "APIKeysMain" else "APIKeysPage")
        else new_error v (some e) 500 "something went wrong while listing credentials")
      (λ ks. shown v "APIKeysMain" "APIKeysPage")

-- `value` is the random UUID.
pub post_api_key : ℕ → String → Handler
post_api_key now value v =
    attempt (on_db (Service.create_api_key now value)) (otherwise 500 "unable to create api key" v)
      (λ k. pure (page "APIKeyRow"))

pub delete_api_key : Result ℕ → Handler
delete_api_key bound v = attempt (lift bound) (otherwise 400 "invalid api key data" v) λ id.
    attempt (on_db (Service.delete_api_key id)) (otherwise 500 "unable to delete api key" v)
      (λ done. pure (toast "API key deleted"))
