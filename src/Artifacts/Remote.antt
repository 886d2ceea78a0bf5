-- ===== src/Artifacts/Remote.antt =====
-- What `CollectPipelineRunArtifacts` of `internal/service/pipeline_service.go` fetches from an agent,
-- once it has looked the run up. What the agent, the YAML parser and `path.Join` do is a `Far`.
use simple_ci.Base.{
  ℕ, String, ◌<>◌, ◌is◌, Option, none, some, List, [], ◌∷◌, Bool, true, false, if◌then◌else◌,
}
use simple_ci.Base.Errors.{Error, Result, ok, panic, ◌>>=◌}
use simple_ci.Paths.{repo_dir}
use simple_ci.Security.{Gcm, decrypt_aes}
use simple_ci.Script.{PipelineScript}
use simple_ci.Store.{Run, Pipeline, Agent, Credential}
use simple_ci.Users.{to_result}
use simple_ci.Fleet.{Ssh}
use simple_ci.Artifacts.{FilePath, Node}

pub record Far : Type 0 where
  pub ssh : Ssh
  pub new_session : Option Error
  -- `sess.Output` of a command
  pub output : String → Result String
  pub unmarshal : String → Result PipelineScript
  pub sftp_client : Option Error
  pub remote : FilePath → Node
  pub join : FilePath → String

-- What is looked up before anything is fetched.
pub record Found : Type 0 where
  pub pipeline : Pipeline
  pub agent : Agent
  pub credential : Credential
  pub run : Run

-- `strings.HasSuffix(hostname, ":22")`
ends_in_22 : String → Bool
ends_in_22 String.[] = false
ends_in_22 (String.◌∷◌ c s) =
    let rest = ends_in_22 s in if String.◌∷◌ c s is ":22" then true else rest

-- Unlike the run queue, this adds the port to a host name with another port.
unfoldable pub with_port_22 : String → String
unfolding ends_in_22
with_port_22 hostname = if ends_in_22 hostname then hostname else hostname <> ":22"

-- The run must have started: the pointer to its working directory is followed.
unfoldable pub base_dir : Found → Result FilePath
base_dir f = elim f.run.working_directory [
  | none ↦ panic
  | some workdir ↦ ok (f.agent.workspace ∷ workdir ∷ repo_dir f.pipeline.repository ∷ [])
]

module _ (far : Far) (gcm : Gcm) (key : List ℕ) where
  -- The connection, and the script as it is in the workspace now.
  unfoldable pub connect : Found → FilePath → Result PipelineScript
  connect f base = do
    private_key ← decrypt_aes gcm key f.credential.ssh_private_key_hash
    _ ← to_result (far.ssh.parse_private_key private_key)
    _ ← to_result (far.ssh.dial f.credential.username (with_port_22 f.agent.hostname))
    _ ← to_result far.new_session
    text ← far.output ("cd " <> far.join base <> " && cat " <> f.pipeline.script_path)
    ps ← far.unmarshal text
    _ ← to_result far.sftp_client
    ok ps
