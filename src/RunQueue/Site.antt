-- ===== src/RunQueue/Site.antt =====
-- `connectSSH`, `cloneRepositoryOnAgent`, `cloneRepositoryOnController`, `runCommand` and the
-- readers of the pipeline script in `internal/service/run_queue.go`. What SSH, SFTP, git, the file
-- system and the YAML parser answer is a `Site`.
use simple_ci.Base.{
  ℕ, String, ◌<>◌, Option, none, some, List, [], ◌∷◌, ◌is◌, if◌then◌else◌, decimal,
}
use simple_ci.Base.Errors.{Error, message, wrap, shown, run_cancel, Result, ok, err, panic, ◌>>=◌}
use simple_ci.Paths.{repo_dir}
use simple_ci.Script.{PipelineScript}
use simple_ci.Script.Worker.{Attempt, Choice, timed_out, cancelled, finished, join_strings}
use simple_ci.Store.{PipelineRunData}

-- How a command that is run to its end on the agent fares.
pub record CommandRun : Type 0 where
  pub new_session : Option Error
  pub run : Option Error
  pub signal : Option Error
  pub choice : Choice

pub record Site : Type 0 where
  pub run_data : Result PipelineRunData
  pub workdir : String
  pub started_on : ℕ
  pub ended_on : ℕ
  -- ssh.ParsePrivateKey and ssh.Dial
  pub parse_private_key : List ℕ → Option Error
  pub dial : String → Option Error
  pub clone : String → CommandRun
  -- os.MkdirAll and `git clone` on the controller
  pub mkdir_all : Option Error
  pub git_clone : Option Error
  -- sftp.NewClient, then Open, Stat and Read of a path
  pub sftp_client : Option Error
  pub read_remote : String → Result String
  -- os.ReadFile of the path that filepath.Join makes of its parts
  pub read_file : List String → Result String
  pub unmarshal : String → Result PipelineScript
  pub attempts : ℕ → ℕ → Attempt
  pub schedule : ℕ → ℕ → List ℕ
  -- how a command of the controller prints
  pub text : String → String

-- `rq.pathSep`, `rq.mkdirCmd` and `rq.chainOp`, which keep their values from run to run.
pub record Shell : Type 0 where
  pub path_sep : String
  pub mkdir_cmd : String
  pub chain_op : String

-- The `switch` on `prd.OSType`: an unknown system leaves the fields as they are.
unfoldable pub configure : String → Shell → Shell
configure os sh =
    if os is "unix"
    then record { path_sep = "/"; mkdir_cmd = "mkdir -p"; chain_op = " && " }
    else if os is "windows"
    then record { path_sep = "\\"; mkdir_cmd = "mkdir"; chain_op = " & " }
    else if os is "darwin"
    then record { path_sep = "/"; mkdir_cmd = "mkdir -p"; chain_op = "; " }
    else sh

abbrev pub to_result : Option Error → Result (Unit {0})
to_result none = ok tt
to_result (some e) = err e

-- `if err != nil { return fmt.Errorf("…: %w", err) }`
abbrev pub wrap_error {ℓ} : {A : Type ℓ} → String → Result A → Result A
wrap_error m (ok a) = ok a
wrap_error m (err e) = err (wrap m e)
wrap_error m panic = panic

-- The `select` of `runCommand`. A session that could not be opened is nil, and its fields are set
-- all the same.
unfoldable pub run_command : CommandRun → String → ℕ → Result (Unit {0})
run_command r command timeout = elim r.new_session [
  | some e ↦ panic
  | none ↦ elim r.choice [
    | timed_out ↦
        err
          (message ("command '" <> command <> "' timeout after " <> decimal timeout <> " seconds"))
    | cancelled ↦ elim r.signal [
      | some e ↦ err (run_cancel "err sending SIGINT to agent machine")
      | none ↦ err (run_cancel ("command '" <> command <> "' was cancelled by user"))
    ]
    | finished ↦ to_result r.run
  ]
]

abbrev pub clone_command : Shell → String → String → String → String → String
clone_command sh repository workspace workdir branch =
    let dir = join_strings sh.path_sep (workspace ∷ workdir ∷ []) in
    join_strings sh.chain_op (
      (sh.mkdir_cmd <> " " <> dir)
      ∷ ("cd " <> dir)
      ∷ ("git clone -b " <> branch <> " " <> repository)
      ∷ [])

unfoldable pub clone_on_agent : Site → Shell → String → String → String → Result (Unit {0})
unfolding run_command
clone_on_agent site sh repository workspace branch =
    let command = clone_command sh repository workspace site.workdir branch in
    run_command (site.clone command) command 60

unfoldable pub clone_on_controller : Site → Result (Unit {0})
clone_on_controller site = do _ ← to_result site.mkdir_all; to_result site.git_clone

-- `readPipelineScriptOnAgent`, up to the message that it sends.
unfoldable pub read_script_on_agent :
    Site → Shell → String → String → String → Result PipelineScript
read_script_on_agent site sh workspace repository script_path = do
  _ ← to_result site.sftp_client
  b ←
      site.read_remote (
        join_strings sh.path_sep
          (workspace ∷ site.workdir ∷ repo_dir repository ∷ script_path ∷ []))
  wrap_error "err unmarshaling pipeline yaml: " (site.unmarshal b)

-- `if err != nil { return fmt.Errorf("…: %+v", err) }`
abbrev pub show_error {ℓ} : {A : Type ℓ} → String → Result A → Result A
show_error m (ok a) = ok a
show_error m (err e) = err (shown m e)
show_error m panic = panic

unfoldable pub read_script_on_controller : Site → String → String → String → Result PipelineScript
read_script_on_controller site workspace repository script_path = do
  b ← site.read_file (workspace ∷ site.workdir ∷ repo_dir repository ∷ script_path ∷ [])
  show_error "err unmarshaling pipeline yaml: " (site.unmarshal b)
