-- ===== src/Store/Tables/Pipelines/Created.antt =====
-- What `CreatePipeline` of `internal/store/pipeline_sqlitestore.go` leaves when it succeeds, and
-- what `ReadPipelineRunData` joins.
use simple_ci.Base.{◌≡◌, refl, ℕ, suc, String, some, arith}
use simple_ci.Base.Errors.{foreign_key_constraint, ok}
use simple_ci.Store.{Credential, Agent, Pipeline}
use simple_ci.Store.Table
use simple_ci.Store.Tables.{Tables, credential_key, agent_key, pipeline_key, added, has_key}
use simple_ci.Store.Tables.Fleet.Created.{constrained-ok}
use simple_ci.Store.Tables.Pipelines.{
  create_pipeline, new_pipeline, read_pipeline_run_data, add_pipeline, joined,
}

pub create_pipeline-ok :
    (agent : ℕ) (name text repo path : String) (t u : Tables) (p : Pipeline)
    → create_pipeline agent name text repo path t ≡ (ok p, u)
    → (u ≡ record t { pipelines = added p t.pipelines })
      × (p.pipeline_id ≡ suc t.pipelines.last_id)
      × (p.pipeline_agent_id ≡ agent)
unfolding create_pipeline new_pipeline
create_pipeline-ok agent name text repo path t u p h =
    let p' = new_pipeline (suc t.pipelines.last_id) agent name text repo path in
    let known =
      constrained-ok (has_key agent_key agent t.agents) foreign_key_constraint (add_pipeline p') t u
        p h in
    ground (arith, known.1)

-- The row of a pipeline, of its agent and of the credential of that one give the run data.
pub read_pipeline_run_data-joined :
    (id k : ℕ) (p : Pipeline) (a : Agent) (c : Credential) (t : Tables)
    → Table.find pipeline_key id t.pipelines.rows ≡ some p
    → Table.find agent_key p.pipeline_agent_id t.agents.rows ≡ some a
    → a.agent_credential_id ≡ some k
    → Table.find credential_key k t.credentials.rows ≡ some c
    → read_pipeline_run_data id t ≡ (ok (joined p a (some c)), t)
unfolding read_pipeline_run_data
read_pipeline_run_data-joined id k p a c t hp ha hk hc = rw (hp, ha, hk, hc) refl
