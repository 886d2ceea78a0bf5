-- ===== src/Fleet/Examples.antt =====
-- Agents and credentials, as in `internal/handler` and `internal/service`.
use simple_ci.Base.{◌≡◌, refl, [], ◌∷◌, none, some, true, false, arith}
use simple_ci.Base.Errors.{ok}
use simple_ci.Security.{Gcm, to_bytes, encrypt_aes, decrypt_aes}
use simple_ci.Security.Hex.{encode}
use simple_ci.Store.{Agent, Credential, Pipeline, PipelineRunData}
use simple_ci.Store.Table
use simple_ci.Store.Driver.{statement}
use simple_ci.Store.Runs.Sqlite.Laws.{sqlite_run_store}
use simple_ci.Store.Tables.{Tables}
use simple_ci.Store.Tables.Fleet as Store
use simple_ci.Store.Tables.Fleet.{runs_on, uses_credential, remove_agent, remove_credential}
use simple_ci.Store.Tables.Pipelines as Rows
use simple_ci.Users.Sessions.{willing}
use simple_ci.Web.{text_error, hx_redirect, Visit}
use simple_ci.Fleet.{create_credential, create_agent}
use simple_ci.Fleet.Pages.{AgentParams, CredentialParams, delete_agent, delete_credential}
use simple_ci.Fleet.Pages.InUse.{talk_on, deletes_unless_used}
use simple_ci.Pipelines.Schedules.{App, get_pipeline_run_data}
use simple_ci.Pipelines.Schedules.Secrets.{private_key_reaches_run}

abbrev pub git : Credential
git = record {
  credential_id = 1;
  username = "git";
  description = "";
  ssh_private_key_hash = "41426b";
}

abbrev pub linux : Agent
linux = record {
  agent_id = 1;
  agent_credential_id = some 1;
  name = "linux";
  hostname = "host";
  workspace = "ci";
  description = "";
  os_type = "unix";
}

abbrev pub pipeline : Pipeline
pipeline = record {
  pipeline_id = 1;
  pipeline_agent_id = 1;
  name = "app";
  description = "";
  repository = "me/app";
  script_path = "ci.yml";
  schedule = none;
  schedule_branch = none;
  schedule_job_id = none;
}

abbrev pub empty : Tables
empty = record {
  users = record { rows = []; last_id = 0 };
  sessions = [];
  credentials = record { rows = []; last_id = 0 };
  agents = record { rows = []; last_id = 0 };
  pipelines = record { rows = []; last_id = 0 };
  api_keys = record { rows = []; last_id = 0 };
}

abbrev pub with_credential : Tables
with_credential = record empty { credentials = record { rows = git ∷ []; last_id = 1 } }

abbrev pub with_agent : Tables
with_agent = record with_credential { agents = record { rows = linux ∷ []; last_id = 1 } }

abbrev pub with_pipeline : Tables
with_pipeline = record with_agent { pipelines = record { rows = pipeline ∷ []; last_id = 1 } }

abbrev visit : Visit
visit = record { user = none; hx = true }

abbrev agent_params : AgentParams
agent_params = record {
  agent_id = 1;
  agent_credential_id = 0;
  name = "";
  hostname = "";
  workspace = "";
  description = "";
  os_type = "";
}

abbrev credential_params : CredentialParams
credential_params = record {
  credential_id = 1;
  username = "";
  description = "";
  ssh_private_key = "";
}

deletes_unless_used_example :
    (delete_agent (ok agent_params) visit (talk_on none with_agent)
      ≡ (ok (hx_redirect "/app/agents"), talk_on none (remove_agent 1 with_agent).1))
    × (delete_credential (ok credential_params) visit (talk_on none with_agent) ≡ (
      ok (text_error 400 "#delete-credential-error" "credential is in use"),
      talk_on none with_agent,
    ))
unfolding Table.find
deletes_unless_used_example =
    deletes_unless_used agent_params linux credential_params git visit none with_agent (omega arith)
      refl (omega arith) refl

-- A cipher that hides nothing, with a nonce of two bytes.
abbrev pub gcm : Gcm
gcm = record {
  new_cipher = λ key. none;
  nonce_size = 2;
  seal = λ key nonce text. text;
  unseal = λ key nonce sealed. ok sealed;
}

abbrev pub app : App sqlite_run_store
app = record {
  db = willing empty;
  runs = record { stored = record { rows = []; last_id = 0 }; refusals = [] };
  service = record { queues = []; locked = false };
  jobs = [];
  stuck = false;
}

private_key_reaches_run_example :
    (prd : PipelineRunData) × ((get_pipeline_run_data
        (decrypt_aes gcm [])
        1
        (record app { db = willing with_pipeline })).0
      ≡ ok prd)
    × (prd.ssh_private_key ≡ to_bytes "k")
    × (prd.username ≡ some "git")
    × (prd.hostname ≡ "host")
unfolding create_credential encrypt_aes statement create_agent to_bytes encode
    Store.create_credential Store.create_agent Table.find Rows.create_pipeline
private_key_reaches_run_example =
    private_key_reaches_run gcm [] {rs = sqlite_run_store} (65 ∷ 66 ∷ []) "git" "" "k" "linux"
      "host" "ci" "" "unix" "app" "me/app" "ci.yml" "" empty git linux pipeline
      (willing with_credential) (willing with_agent) (willing with_pipeline) app
      (
        record { fresh = tt; roles = tt; refer = tt; unique = tt },
        record {
          fresh_credentials = tt;
          fresh_agents = tt;
          fresh_pipelines = tt;
          agents_refer = tt;
          pipelines_refer = tt;
          unique_names = tt;
        },
        record { fresh_keys = tt; unique_values = tt },
      )
      refl (omega arith, (omega arith, (omega arith, tt))) refl refl refl refl
