-- ===== src/RunQueue/Process/Examples.antt =====
-- Runs of `processRun` of `internal/service/run_queue.go` on the controller: one that passes, and
-- one whose repository cannot be cloned.
use simple_ci.Base.{◌≡◌, refl, [], ◌∷◌, ◌++◌, Option, some, none, false, arith}
use simple_ci.Base.Errors.{Error, message, shown, ok}
use simple_ci.Script.{PipelineScript}
use simple_ci.Script.Worker.{Attempt, finished, execute_step_on_controller, controller_error}
use simple_ci.Store.{Run, queued, running, PipelineRunData}
use simple_ci.Store.Runs.Interface.{started, ended, appended}
use simple_ci.Script.Stages.{
  execute_script_on_controller, execute_stages, execute_steps, stage_loop, run_step,
}
use simple_ci.Store.Table
use simple_ci.Store.Driver.{statement}
use simple_ci.Store.Runs.Sqlite.{
  Db, read_run_by_id, update_pipeline_run_started_on, update_pipeline_run_ended_on, select, update,
  append, append_pipeline_run_output, or_no_rows,
}
use simple_ci.Store.Runs.Sqlite.Laws.{sqlite_run_store}
use simple_ci.RunQueue.Site.{Site, configure, clone_on_controller, read_script_on_controller}
use simple_ci.RunQueue.Process.{
  World, start_run, execute_run, finish_run, run_on_controller, process_run,
  handle_processing_failed, handle_run, status_of_error, fail_message,
}
use simple_ci.RunQueue.Process.Touches.{SameRun}
use simple_ci.RunQueue.Process.Frame.{handle_run_frame}
use simple_ci.RunQueue.Process.Lifecycle.{Passed, process_run-Passed}
use simple_ci.RunQueue.Process.Outputs.{handle_output, handle_output_appends}
use simple_ci.RunQueue.Process.Turns.{handle_run-dones, handle_run_failed}

abbrev run_one : Run
run_one = record {
  run_id = 1;
  run_pipeline_id = 7;
  branch = "main";
  working_directory = none;
  output = none;
  artifacts = none;
  status = queued;
  created_on = 3;
  started_on = none;
  ended_on = none;
  archive = false;
}

abbrev local_data : PipelineRunData
local_data = record {
  pipeline_id = 7;
  agent_id = 1;
  os_type = "unix";
  credential_id = none;
  repository = "git@host:me/app.git";
  script_path = "ci.yml";
  hostname = "localhost";
  workspace = "runs";
  username = none;
  ssh_private_key_hash = none;
  ssh_private_key = [];
}

abbrev script : PipelineScript
script = record {
  artifacts = "";
  stages =
      record {
        stage = "build";
        artifacts = "";
        steps =
            record { step = "compile"; script = "make"; timeout_seconds = 60; parallel = false }
            ∷ [];
      }
      ∷ [];
}

abbrev attempt : Attempt
attempt = record {
  new_session = none;
  stdout_pipe = none;
  stderr_pipe = none;
  start = none;
  lines = "done" ∷ [];
  wait = none;
  choice = finished;
}

abbrev site_with : Option Error → Site
site_with clone_error = record {
  run_data = ok local_data;
  workdir = "20240101";
  started_on = 10;
  ended_on = 20;
  parse_private_key = λ key. none;
  dial = λ host. none;
  clone = λ command. record { new_session = none; run = none; signal = none; choice = finished };
  mkdir_all = none;
  git_clone = clone_error;
  sftp_client = none;
  read_remote = λ path. ok "";
  read_file = λ path. ok "";
  unmarshal = λ text. ok script;
  attempts = λ i j. attempt;
  schedule = λ i j. [];
  text = λ command. command;
}

abbrev world : World Db
world = record {
  store = record { stored = record { rows = run_one ∷ []; last_id = 1 }; refusals = [] };
  shell = record { path_sep = ""; mkdir_cmd = ""; chain_op = "" };
  sent = [];
  statuses = [];
  dones = 0;
}

abbrev refused : Error
refused = message "exit status 128"

-- The run as it is stored once it has started, and the error of its processing.
abbrev running_one : Run
running_one = started "20240101" running (some 10) run_one

abbrev clone_failed : Error
clone_failed = shown "err cloning repository on controller: " refused

abbrev end_world : World sqlite_run_store.State
end_world = (process_run sqlite_run_store (site_with (some refused)) run_one world).1

-- The end of the run whose repository cannot be cloned.
abbrev failed_world : World sqlite_run_store.State
failed_world =
    handle_processing_failed sqlite_run_store (site_with (some refused)) clone_failed run_one
      end_world

process_run-Passed_example :
    Passed sqlite_run_store
      (site_with none)
      run_one
      world
      (process_run sqlite_run_store (site_with none) run_one world).1
unfolding process_run start_run execute_run finish_run run_on_controller
    execute_script_on_controller execute_stages execute_steps stage_loop run_step
    execute_step_on_controller controller_error read_script_on_controller clone_on_controller
    configure read_run_by_id update_pipeline_run_started_on update_pipeline_run_ended_on select
    update or_no_rows statement Table.find Table.update
process_run-Passed_example =
    process_run-Passed sqlite_run_store (site_with none) run_one world
      (process_run sqlite_run_store (site_with none) run_one world).1 refl

handle_run_failed_example :
    (v : World sqlite_run_store.State) × (handle_run sqlite_run_store
        (site_with (some refused))
        run_one
        world
      ≡ some v)
    × (sqlite_run_store.row v.store 1
        ≡ some (ended (status_of_error clone_failed) none (some 20) running_one))
    × (v.sent ≡ end_world.sent ++ fail_message ∷ [])
    × (v.dones ≡ 1)
unfolding process_run start_run execute_run finish_run run_on_controller
    execute_script_on_controller execute_stages execute_steps stage_loop run_step
    execute_step_on_controller controller_error read_script_on_controller clone_on_controller
    configure read_run_by_id update_pipeline_run_started_on update_pipeline_run_ended_on select
    update or_no_rows statement Table.find Table.update
handle_run_failed_example =
    handle_run_failed sqlite_run_store (site_with (some refused)) run_one running_one clone_failed
      world end_world refl refl refl

handle_run-dones_example : failed_world.dones ≡ 1
unfolding handle_run handle_processing_failed process_run start_run execute_run finish_run
    run_on_controller execute_script_on_controller execute_stages execute_steps stage_loop run_step
    execute_step_on_controller controller_error read_script_on_controller clone_on_controller
    configure read_run_by_id update_pipeline_run_started_on update_pipeline_run_ended_on select
    update or_no_rows statement Table.find Table.update
handle_run-dones_example =
    handle_run-dones sqlite_run_store (site_with (some refused)) run_one world failed_world refl

handle_run_frame_example :
    (sqlite_run_store.row failed_world.store 2 ≡ sqlite_run_store.row world.store 2)
    × SameRun (sqlite_run_store.row world.store 1) (sqlite_run_store.row failed_world.store 1)
unfolding handle_run handle_processing_failed process_run start_run execute_run finish_run
    run_on_controller execute_script_on_controller execute_stages execute_steps stage_loop run_step
    execute_step_on_controller controller_error read_script_on_controller clone_on_controller
    configure read_run_by_id update_pipeline_run_started_on update_pipeline_run_ended_on select
    update or_no_rows statement Table.find Table.update
handle_run_frame_example =
    handle_run_frame sqlite_run_store (site_with (some refused)) run_one world failed_world 2
      (omega arith) refl

handle_output_appends_example :
    sqlite_run_store.row (handle_output sqlite_run_store 1 ("one\n" ∷ "two\n" ∷ []) world.store) 1
    ≡ some (appended "one\ntwo\n" run_one)
unfolding append_pipeline_run_output append statement select update or_no_rows Table.find
    Table.update
handle_output_appends_example =
    handle_output_appends sqlite_run_store 1 1 "one\n" ("two\n" ∷ []) world.store (refl, (refl, tt))
