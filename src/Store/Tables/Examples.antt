-- ===== src/Store/Tables/Examples.antt =====
-- The tables of `internal/store` with a user, a session, an agent with its credential, and a
-- pipeline.
use simple_ci.Base.{[], ◌∷◌, none, some, false, refl, arith}
use simple_ci.Store.{admin, superuser}
use simple_ci.Store.Table
use simple_ci.Store.Tables.{Tables}
use simple_ci.Store.Tables.Users.{
  create_user, create_superuser, delete_user, update_user_role, update_user_password,
  create_auth_session, delete_auth_sessions_by_user_id,
}
use simple_ci.Store.Tables.Fleet.{
  create_credential, update_credential, delete_credential, create_controller_agent, create_agent,
  update_agent, delete_agent,
}
use simple_ci.Store.Tables.Pipelines.{
  create_pipeline, update_pipeline, delete_pipeline, update_pipeline_schedule,
  update_pipeline_schedule_job_id, create_api_key, delete_api_key,
}
use simple_ci.Store.Tables.Invariant.{IsSound}
use simple_ci.Store.Tables.Users.Sound.{user_statements-IsSound}
use simple_ci.Store.Tables.Fleet.Agents.{fleet_statements-IsSound}
use simple_ci.Store.Tables.Pipelines.Sound.{pipeline_statements-IsSound}

abbrev tables : Tables
tables = record {
  users = record {
    rows =
        record {
          user_id = 1;
          user_role_id = superuser;
          username = "root";
          password_hash = "x";
          password_changed_on = some 3;
          session_expires = none;
        }
        ∷ [];
    last_id = 1;
  };
  sessions =
      record { auth_session_id = "s"; auth_session_user_id = 1; auth_session_expires = 9 } ∷ [];
  credentials = record {
    rows =
        record { credential_id = 1; username = "git"; description = ""; ssh_private_key_hash = "y" }
        ∷ [];
    last_id = 1;
  };
  agents = record {
    rows =
        record {
          agent_id = 2;
          agent_credential_id = some 1;
          name = "linux";
          hostname = "host";
          workspace = "ci";
          description = "";
          os_type = "unix";
        }
        ∷ [];
    last_id = 2;
  };
  pipelines = record {
    rows =
        record {
          pipeline_id = 1;
          pipeline_agent_id = 2;
          name = "app";
          description = "";
          repository = "me/app";
          script_path = "ci.yml";
          schedule = none;
          schedule_branch = none;
          schedule_job_id = none;
        }
        ∷ [];
    last_id = 1;
  };
  api_keys = record { rows = []; last_id = 0 };
}

tables-IsSound : IsSound tables
unfolding Table.find
tables-IsSound = (
  record {
    fresh = (omega arith, refl, tt);
    roles = (refl, tt);
    refer = (refl, tt);
    unique = (tt, tt);
  },
  record {
    fresh_credentials = (omega arith, refl, tt);
    fresh_agents = (omega arith, refl, tt);
    fresh_pipelines = (omega arith, refl, tt);
    agents_refer = (refl, tt);
    pipelines_refer = (refl, tt);
    unique_names = (tt, tt);
  },
  record { fresh_keys = tt; unique_values = tt },
)

user_statements-IsSound_example :
    IsSound (create_user admin "ann" "hash" tables).1
    × IsSound (create_superuser 9 "ann" "hash" tables).1
    × IsSound (delete_user 1 tables).1
    × IsSound (update_user_role 1 admin tables).1
    × IsSound (update_user_password 1 "hash" none tables).1
    × IsSound (create_auth_session "hash" 1 9 tables).1
    × IsSound (delete_auth_sessions_by_user_id 1 tables).1
user_statements-IsSound_example =
    user_statements-IsSound 1 9 admin "ann" "hash" none tables tables-IsSound

fleet_statements-IsSound_example :
    IsSound (create_credential "deploy" "runs" "ci" tables).1
    × IsSound (update_credential 2 "deploy" "runs" tables).1
    × IsSound (delete_credential 2 tables).1
    × IsSound (create_controller_agent false tables).1
    × IsSound (create_agent 1 "deploy" "host" "ci" "runs" "unix" tables).1
    × IsSound (update_agent 2 1 "deploy" "host" "ci" "runs" "unix" tables).1
    × IsSound (delete_agent 2 tables).1
fleet_statements-IsSound_example =
    fleet_statements-IsSound false 2 1 "deploy" "host" "ci" "runs" "unix" tables tables-IsSound

pipeline_statements-IsSound_example :
    IsSound (create_pipeline 2 "app" "builds" "me/app" "ci.yml" tables).1
    × IsSound (update_pipeline 1 2 "app" "builds" "me/app" "ci.yml" tables).1
    × IsSound (delete_pipeline 1 tables).1
    × IsSound (update_pipeline_schedule 1 (some "0 4 * * *") (some "main") (some "job") tables).1
    × IsSound (update_pipeline_schedule_job_id 1 (some "job") tables).1
    × IsSound (create_api_key 9 "app" tables).1
    × IsSound (delete_api_key 1 tables).1
pipeline_statements-IsSound_example =
    pipeline_statements-IsSound 1 2 9 "app" "builds" "me/app" "ci.yml" (some "0 4 * * *")
      (some "main") (some "job") tables tables-IsSound
