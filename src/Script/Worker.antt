-- ===== src/Script/Worker.antt =====
-- One step: `executePipelineStepOnAgent` and `executePipelineStepOnController` of
-- `internal/service/run_queue.go`. What the agent, the operating system and the clock do is
-- an `Attempt`; the functions are the code around it.
use simple_ci.Base.{◌≡◌, refl, String, ◌<>◌, Option, none, some, List, [], ◌∷◌, map, decimal, ℕ}
use simple_ci.Base.Errors.{Error, message, join, run_cancel, to_errors}
use simple_ci.Script.Report.{Report, send, fail, check, pass, ◌>>◌}

-- The case that the `select` over the two contexts and `doneCh` takes.
pub data Choice : Type 0 where
  timed_out cancelled finished : Choice

pub record Attempt : Type 0 where
  -- `client.NewSession`, on an agent only
  pub new_session : Option Error
  pub stdout_pipe : Option Error
  pub stderr_pipe : Option Error
  -- `sess.Start(cmd)` or `cmd.Start()`
  pub start : Option Error
  -- the lines that the two scanners send before the `select` returns, in the order of sending
  pub lines : List String
  -- `sess.Wait()` or `cmd.Wait()`
  pub wait : Option Error
  pub choice : Choice

-- `errors.Join(fmt.Errorf(…), err)`
abbrev pub joined_with : String → Error → Error
joined_with m e = join (to_errors (message m ∷ e ∷ []))

send_lines : List String → Report
send_lines lines = record { output = map (λ l. l <> "\n") lines; error = none }

-- The goroutine, up to what it puts into `doneCh`.
command_error : String → Attempt → Option Error
command_error cmd a = elim a.start [
  | some e ↦ some (joined_with ("err starting command " <> cmd) e)
  | none ↦ elim a.wait [
    | some e ↦ some (joined_with ("err waiting for command to finish " <> cmd) e)
    | none ↦ none
  ]
]

-- A command that did not start prints nothing.
scanned : Attempt → Report
unfolding send_lines
scanned a = elim a.start [ some e ↦ pass | none ↦ send_lines a.lines ]

abbrev timeout_message : ℕ → String → String
timeout_message timeout script =
    "step execution timed out in " <> decimal timeout <> " seconds, script: '" <> script <> "'"

abbrev pub cancel_message : String
cancel_message = "step execution cancelled by user"

-- `wg`, the two scanners and the `select`; `result` is what `doneCh` carries.
await : Attempt → Option Error → ℕ → String → Report
unfolding scanned
await a result timeout script = scanned a >> elim a.choice [
  | timed_out ↦
      send (timeout_message timeout script) >> fail (message (timeout_message timeout script))
  | cancelled ↦ send cancel_message >> fail (run_cancel cancel_message)
  | finished ↦ check result
]

-- `strings.Join(cmds, sep)`
pub join_strings : String → List String → String
join_strings sep [] = ""
join_strings sep (x ∷ []) = x
join_strings sep (x ∷ y ∷ ys) = x <> sep <> join_strings sep (y ∷ ys)

pub record Place : Type 0 where
  pub workspace : String
  pub workdir : String
  pub repo_dir : String

agent_command : String → Place → String → String
unfolding join_strings
agent_command chain_op p script =
    join_strings chain_op
      (("cd " <> p.workspace) ∷ ("cd " <> p.workdir) ∷ ("cd " <> p.repo_dir) ∷ script ∷ [])

unfoldable pub execute_step_on_agent : String → Place → Attempt → ℕ → String → Report
unfolding await command_error agent_command
execute_step_on_agent chain_op p a timeout script = do
  check a.new_session
  check a.stdout_pipe
  check a.stderr_pipe
  await a (command_error (agent_command chain_op p script) a) timeout script

-- On the controller the goroutine opens the pipes, so their errors come through `doneCh`.
-- `text` is how `cmd` prints.
unfoldable pub controller_error : String → Attempt → Option Error
unfolding command_error
controller_error text a = elim a.stdout_pipe [
  | some e ↦ some (joined_with ("err getting stdout pipe for command " <> text) e)
  | none ↦ elim a.stderr_pipe [
    | some e ↦ some (joined_with ("err getting stderr pipe for command " <> text) e)
    | none ↦ command_error text a
  ]
]

-- Without its pipes the command is not started.
started : Attempt → Attempt
started a = elim a.stdout_pipe [
  | some e ↦ record a { lines = [] }
  | none ↦ elim a.stderr_pipe [ some e ↦ record a { lines = [] } | none ↦ a ]
]

unfoldable pub execute_step_on_controller : String → Attempt → ℕ → String → Report
unfolding await controller_error started
execute_step_on_controller text a timeout script =
    await (started a) (controller_error text a) timeout script

agent_step_passes :
    execute_step_on_agent " && "
      (record { workspace = "ci"; workdir = "w"; repo_dir = "r" })
      (record {
        new_session = none;
        stdout_pipe = none;
        stderr_pipe = none;
        start = none;
        lines = "ok" ∷ [];
        wait = none;
        choice = finished;
      })
      60
      "go test"
    ≡ record { output = "ok\n" ∷ []; error = none }
unfolding execute_step_on_agent
agent_step_passes = refl
