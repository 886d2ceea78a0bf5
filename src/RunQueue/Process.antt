-- ===== src/RunQueue/Process.antt =====
-- `processRun` and `handleProcessingFailed` of `internal/service/run_queue.go`, and the body of the
-- loop of `Run` between taking a run and waiting on `rq.done`. A send on a channel of the queue is
-- recorded in the `World`; its receivers are the subject of `Channels`.
pub mod Touches
pub mod Frame
pub mod Passing
pub mod Lifecycle
pub mod Turns
pub mod Outputs
mod Examples
use simple_ci.Base.{
  ◌≡◌, refl, ℕ, suc, String, ◌<>◌, Option, none, some, List, [], ◌∷◌, ◌++◌, ◌is◌, if◌then◌else◌,
}
use simple_ci.Base.Errors.{Error, is_run_cancel, Result, ok, err, panic}
use simple_ci.Base.Exec.{Exec, pure, raise, gets, lift, modify, continue, ◌>>=◌, ◌>>◌}
use simple_ci.Paths.{with_port}
use simple_ci.Script.{PipelineScript}
use simple_ci.Script.Report.{Report}
use simple_ci.Script.Worker.{Place}
use simple_ci.Script.Stages.{execute_script_on_agent, execute_script_on_controller}
use simple_ci.Paths.{repo_dir}
use simple_ci.Store.{Run, RunStatus, running, cancelled, failed, passed, PipelineRunData}
use simple_ci.Store.Runs.Interface.{RunStore}
use simple_ci.RunQueue.Site.{
  Site, Shell, configure, to_result, wrap_error, show_error, clone_on_agent, clone_on_controller,
  read_script_on_agent, read_script_on_controller,
}

abbrev pub pass_message : String
pass_message =
    "\n=============================================\nPASS || Executed pipeline steps successfully.\n=============================================\n"

abbrev pub fail_message : String
fail_message =
    "\n=============================================\nFAIL || Pipeline execution failed.\n=============================================\n"

pub record World (S : Type 0) : Type 0 where
  pub store : S
  pub shell : Shell
  -- what was sent on `outputCh` and on `statusCh`, oldest first
  pub sent : List String
  pub statuses : List Run
  -- how often `rq.done` was sent on
  pub dones : ℕ

module _ {S : Type 0} where
  -- `rq.outputCh <- m`
  abbrev pub say : String → Exec (World S) (Unit {0})
  say m = modify λ w. record w { sent = w.sent ++ m ∷ [] }

  -- `rq.statusCh <- *r`
  abbrev pub publish : Run → Exec (World S) (Unit {0})
  publish r = modify λ w. record w { statuses = w.statuses ++ r ∷ [] }

  -- `rq.done <- struct{}{}`
  abbrev pub send_done : Exec (World S) (Unit {0})
  send_done = modify λ w. record w { dones = suc w.dones }

  -- A call of the store.
  abbrev pub call : {A : Type 0} → Exec S A → Exec (World S) A
  call m w = let (r, s) = m w.store in (r, record w { store = s })

  abbrev pub wrapped : {A : Type 0} → String → Exec (World S) A → Exec (World S) A
  wrapped text m w = let (r, w') = m w in (wrap_error text r, w')

  -- The messages of the script go out before its error comes back.
  replay : Option Report → Exec (World S) (Unit {0})
  replay none w = (panic, w)
  replay (some r) w = (to_result r.error, record w { sent = w.sent ++ r.output })

  abbrev announced : Result (Unit {0}) → Exec (World S) (Unit {0})
  announced (err e) = say "Error connection through SSH." >> raise e
  announced (ok _) = pure tt
  announced panic = lift panic

  -- `if err != nil { rq.outputCh <- …; return err }`
  abbrev announce : Exec (World S) (Unit {0}) → Exec (World S) (Unit {0})
  announce m w = let (r, w') = m w in announced r w'

-- A pointer that is nil is not to be followed.
abbrev pub deref {ℓ} : {A : Type ℓ} → Option A → Result A
deref none = panic
deref (some a) = ok a

abbrev pub status_of_error : Error → RunStatus
status_of_error e = if is_run_cancel e then cancelled else failed

abbrev published : Result Run → List Run
published (ok r) = r ∷ []
published _ = []

module _ (rs : RunStore) (site : Site) where
  open rs use {State}

  pub connect_ssh : String → List ℕ → Exec (World State) (Unit {0})
  connect_ssh hostname private_key = elim (site.parse_private_key private_key) [
    | some e ↦ say "err parsing ssh private key" >> raise e
    | none ↦ elim (site.dial (with_port hostname)) [
      | some e ↦ say "err dialing ssh" >> raise e
      | none ↦ say ("SSH connected to " <> with_port hostname <> "\n")
    ]
  ]

  pub place : PipelineRunData → Place
  place prd = record {
    workspace = prd.workspace;
    workdir = site.workdir;
    repo_dir = repo_dir prd.repository;
  }

  pub run_on_agent : PipelineRunData → Run → Exec (World State) (Unit {0})
  unfolding connect_ssh place replay
  run_on_agent prd r = do
    _ ← lift (deref prd.username)
    announce (connect_ssh prd.hostname prd.ssh_private_key)
    sh ← gets (λ w. w.shell)
    wrapped "err cloning repository on agent: " (do
      lift (clone_on_agent site sh prd.repository prd.workspace r.branch)
      say ("Cloned repository " <> prd.repository <> "\n"))
    ps ← wrapped "err reading pipeline script: " (do
      ps ← lift (read_script_on_agent site sh prd.workspace prd.repository prd.script_path)
      say "Parsed pipeline script. Starting pipeline execution...\n"
      pure ps)
    replay (execute_script_on_agent sh.chain_op (place prd) site.attempts site.schedule ps)

  pub run_on_controller : PipelineRunData → Run → Exec (World State) (Unit {0})
  unfolding replay
  run_on_controller prd r = do
    lift (show_error "err cloning repository on controller: " (clone_on_controller site))
    say ("Cloned repository " <> prd.repository <> "\n")
    ps ← wrapped "err reading pipeline script: " (do
      ps ← lift (read_script_on_controller site prd.workspace prd.repository prd.script_path)
      say "Parsed pipeline script. Starting pipeline execution...\n"
      pure ps)
    replay (execute_script_on_controller site.text site.attempts site.schedule ps)

  -- The end that both branches share: the banner, the status in the store, and `rq.done`.
  pub finish_run : Run → Exec (World State) (Unit {0})
  finish_run r = do
    say pass_message
    wrapped "err updating run ended on: "
        (call (rs.update_pipeline_run_ended_on r.run_id passed r.artifacts (some site.ended_on)))
    r' ← wrapped "err getting run by id: " (call (rs.read_run_by_id r.run_id))
    publish r'
    send_done

  -- The status `running`, and the run as the store has it.
  pub start_run : Run → Exec (World State) Run
  start_run run = do
    wrapped "err updating run started on: " (
        call (
          rs.update_pipeline_run_started_on run.run_id site.workdir running (some site.started_on)))
    wrapped "err getting run by id: " (call (rs.read_run_by_id run.run_id))

  pub execute_run : PipelineRunData → Run → Exec (World State) (Unit {0})
  execute_run prd r = do
    publish r
    if prd.hostname is "localhost" then run_on_controller prd r else run_on_agent prd r
    finish_run r

  pub process_run : Run → Exec (World State) (Unit {0})
  process_run run = do
    prd ← lift (wrap_error "err getting pipeline/agent/credential data: " site.run_data)
    modify (λ w. record w { shell = configure prd.os_type w.shell })
    r ← start_run run
    execute_run prd r

  -- Errors of the store are logged only.
  pub handle_processing_failed : Error → Run → World State → World State
  handle_processing_failed e run w =
      let (_, s) =
        rs.update_pipeline_run_ended_on run.run_id (status_of_error e) run.artifacts
          (some site.ended_on) w.store in
      let (read, s') = rs.read_run_by_id run.run_id s in
      record w {
        store = s';
        statuses = w.statuses ++ published read;
        sent = w.sent ++ fail_message ∷ [];
        dones = suc w.dones;
      }

  abbrev resolve : Run → Result (Unit {0}) → World State → Option (World State)
  resolve run (ok _) w = some w
  resolve run (err e) w = some (handle_processing_failed e run w)
  resolve run panic w = none

  -- One turn of the loop of `Run`. A panic takes the program down.
  pub handle_run : Run → World State → Option (World State)
  handle_run run w = let (r, w') = process_run run w in resolve run r w'
