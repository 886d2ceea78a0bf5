-- ===== src/Fleet/Pages/InUse.antt =====
-- Deleting what is in use, by `DeleteAgent` of `internal/handler/agents.go` and `DeleteCredential`
-- of `internal/handler/credentials.go`.
use simple_ci.Base.{
  ◌≡◌, refl, ◌≢◌, Option, some, false, any, ◌==◌, arith, if◌then◌else◌, Bool-cases, inl, inr,
}
use simple_ci.Base.Errors.{ok}
use simple_ci.Store.{Agent, Credential}
use simple_ci.Store.Table
use simple_ci.Store.Driver.{statement}
use simple_ci.Store.Tables.{Tables, agent_key, credential_key}
use simple_ci.Store.Tables.Fleet as Store
use simple_ci.Store.Tables.Fleet.{runs_on, uses_credential, remove_agent, remove_credential}
use simple_ci.Users.Sessions.{willing}
use simple_ci.Fleet as Service
use simple_ci.Fleet.Pages.{AgentParams, CredentialParams, delete_agent, delete_credential}
use simple_ci.Web.{text_error, hx_redirect, Cookie, Talk, Visit, is_foreign_key_constraint_error}

abbrev pub talk_on : Option Cookie → Tables → Talk
talk_on cookie t = record { db = willing t; cookie = cookie }

delete_agent_unless_used :
    (ap : AgentParams) (a : Agent) (v : Visit) (cookie : Option Cookie) (t : Tables)
    → ap.agent_id ≢ 0
    → Table.find agent_key ap.agent_id t.agents.rows ≡ some a
    → delete_agent (ok ap) v (talk_on cookie t) ≡ (
        if any (runs_on ap.agent_id) t.pipelines.rows
        then (ok (text_error 400 "#delete-agent-error" "agent is in use"), talk_on cookie t)
        else (ok (hx_redirect "/app/agents"), talk_on cookie (remove_agent ap.agent_id t).1))
unfolding delete_agent Service.get_agent_by_id Service.delete_agent statement Store.read_agent_by_id
    Store.delete_agent is_foreign_key_constraint_error
delete_agent_unless_used ap a v cookie t ne row =
    let some_id : (ap.agent_id == 0) ≡ false = ground (arith, ne) in
    let same : a.agent_id ≡ ap.agent_id = Table.key-find agent_key ap.agent_id t.agents.rows row in
    elim (Bool-cases (any (runs_on ap.agent_id) t.pipelines.rows)) [
      | inl used ↦ rw (some_id, row, same, row, used) refl
      | inr free ↦ rw (some_id, row, same, row, free) refl
    ]

delete_credential_unless_used :
    (cp : CredentialParams) (c : Credential) (v : Visit) (cookie : Option Cookie) (t : Tables)
    → cp.credential_id ≢ 0
    → Table.find credential_key cp.credential_id t.credentials.rows ≡ some c
    → delete_credential (ok cp) v (talk_on cookie t) ≡ (
        if any (uses_credential cp.credential_id) t.agents.rows
        then (
          ok (text_error 400 "#delete-credential-error" "credential is in use"),
          talk_on cookie t,
        )
        else (
          ok (hx_redirect "/app/credentials"),
          talk_on cookie (remove_credential cp.credential_id t).1,
        ))
unfolding delete_credential Service.get_credential_by_id Service.delete_credential statement
    Store.read_credential_by_id Store.delete_credential is_foreign_key_constraint_error
delete_credential_unless_used cp c v cookie t ne row =
    let some_id : (cp.credential_id == 0) ≡ false = ground (arith, ne) in
    let same : c.credential_id ≡ cp.credential_id =
      Table.key-find credential_key cp.credential_id t.credentials.rows row in
    elim (Bool-cases (any (uses_credential cp.credential_id) t.agents.rows)) [
      | inl used ↦ rw (some_id, row, same, row, used) refl
      | inr free ↦ rw (some_id, row, same, row, free) refl
    ]

-- A request to delete an agent that is there is answered that the agent is in use, with nothing
-- changed, if a pipeline runs on it, and deletes it otherwise, if no statement is refused but for a
-- constraint; and so it is with a credential and the agents that use it.
pub deletes_unless_used :
    (ap : AgentParams) (a : Agent) (cp : CredentialParams) (c : Credential) (v : Visit)
    (cookie : Option Cookie) (t : Tables)
    → ap.agent_id ≢ 0
    → Table.find agent_key ap.agent_id t.agents.rows ≡ some a
    → cp.credential_id ≢ 0
    → Table.find credential_key cp.credential_id t.credentials.rows ≡ some c
    → (delete_agent (ok ap) v (talk_on cookie t) ≡ (
        if any (runs_on ap.agent_id) t.pipelines.rows
        then (ok (text_error 400 "#delete-agent-error" "agent is in use"), talk_on cookie t)
        else (ok (hx_redirect "/app/agents"), talk_on cookie (remove_agent ap.agent_id t).1)))
      × (delete_credential (ok cp) v (talk_on cookie t) ≡ (
          if any (uses_credential cp.credential_id) t.agents.rows
          then (
            ok (text_error 400 "#delete-credential-error" "credential is in use"),
            talk_on cookie t,
          )
          else (
            ok (hx_redirect "/app/credentials"),
            talk_on cookie (remove_credential cp.credential_id t).1,
          )))
deletes_unless_used ap a cp c v cookie t ne row ne' row' = (
  delete_agent_unless_used ap a v cookie t ne row,
  delete_credential_unless_used cp c v cookie t ne' row',
)
