-- ===== src/Pipelines/Schedules/Secrets.antt =====
-- The way of a private key from `CreateCredential` of `internal/service/credential_service.go`
-- through an agent and a pipeline to `GetPipelineRunData` of `pipeline_service.go`.
use simple_ci.Base.{
  ◌≡◌, refl, sym, ap, ◌∙◌, ◌<◌, ℕ, suc, String, some, List, ◌++◌, All, length, arith,
}
use simple_ci.Base.Errors.{Result, ok, err, panic}
use simple_ci.Base.Exec.{Exec, lift, ◌>>=◌}
use simple_ci.Security.{Gcm, to_bytes, encrypt_aes, decrypt_aes}
use simple_ci.Security.Laws.{decrypt_aes-encrypt_aes}
use simple_ci.Store.{Credential, Agent, Pipeline, PipelineRunData}
use simple_ci.Store.Table
use simple_ci.Store.Table.{Table}
use simple_ci.Store.Driver.{statement}
use simple_ci.Store.Runs.Interface.{RunStore}
use simple_ci.Store.Tables.{Tables, credential_key, agent_key, pipeline_key, added}
use simple_ci.Store.Tables.Invariant.{IsSound}
use simple_ci.Store.Tables.Fleet.Created.{create_credential-ok, create_agent-ok}
use simple_ci.Store.Tables.Pipelines.Created.{create_pipeline-ok, read_pipeline_run_data-joined}
use simple_ci.Store.Tables.Fleet as Store
use simple_ci.Store.Tables.Pipelines as Rows
use simple_ci.Store.Tables.Pipelines.{joined}
use simple_ci.Users.{Db}
use simple_ci.Users.Sessions.{willing}
use simple_ci.Fleet.{create_credential, create_agent}
use simple_ci.Pipelines.Schedules.{App, decrypted, get_pipeline_run_data}

-- A statement that succeeded on a database that refuses nothing.
statement-willing :
    {A : Type 0} (m : Exec Tables A) (t : Tables) (a : A) (db : Db)
    → statement m (willing t) ≡ (ok a, db)
    → (u : Tables) × (m t ≡ (ok a, u)) × (db ≡ willing u)
unfolding statement
statement-willing m t a db h = ((m t).1, ground (arith, h), ground (arith, h))

run_data_at :
    {rs : RunStore} (decrypt : String → Result (List ℕ)) (id : ℕ) (prd : PipelineRunData)
    (hash : String) (opened : List ℕ) (t : Tables) (app : App rs)
    → Rows.read_pipeline_run_data id t ≡ (ok prd, t)
    → prd.ssh_private_key_hash ≡ some hash
    → decrypt hash ≡ ok opened
    → (get_pipeline_run_data decrypt id (record app { db = willing t })).0
      ≡ ok (record prd { ssh_private_key = opened })
unfolding get_pipeline_run_data decrypted statement
run_data_at decrypt id prd hash opened t app read some_hash d =
    rw read (ground (arith, some_hash, d))

module _ (gcm : Gcm) (key : List ℕ) where
  open gcm use {nonce_size, seal, unseal}

  sealed_in :
      (nonce : List ℕ) (user text private : String) (t : Tables) (c : Credential) (db : Db)
      → create_credential gcm key nonce user text private (willing t) ≡ (ok c, db)
      → (hash : String) × (u : Tables) × (encrypt_aes gcm key nonce private ≡ ok hash)
        × (Store.create_credential user text hash t ≡ (ok c, u))
        × (db ≡ willing u)
  unfolding create_credential
  sealed_in nonce user text private t c db h = go (encrypt_aes gcm key nonce private) refl h
    where
      go :
          (r : Result String)
          → encrypt_aes gcm key nonce private ≡ r
          → (lift r >>= λ hash. statement (Store.create_credential user text hash)) (willing t)
            ≡ (ok c, db)
          → (hash : String) × (u : Tables) × (encrypt_aes gcm key nonce private ≡ ok hash)
            × (Store.create_credential user text hash t ≡ (ok c, u))
            × (db ≡ willing u)
      go (ok hash) e h =
          let (u, made, same) =
            statement-willing (Store.create_credential user text hash) t c db h in
          (hash, u, e, made, same)
      go (err x) e h = absurd (cc (ap (λ p. p.0) h))
      go panic e h = absurd (cc (ap (λ p. p.0) h))

  new_row :
      {A : Type 0} (k : A → ℕ) (a : A) (t : Table A)
      → Table.Fresh k t.last_id t.rows
      → k a ≡ suc t.last_id
      → Table.find k (k a) (added a t).rows ≡ some a
  new_row k a t fresh e =
      Table.find-append k (k a) t.rows a
        (Table.find_above k (k a) t.last_id t.rows fresh (omega (arith, e))) refl

  -- A private key that is given with a new credential is what `GetPipelineRunData` has for a new
  -- pipeline on a new agent with that credential, with the user and the host, if the tables were
  -- sound, no statement is refused, the cipher opens what it has sealed, its output is bytes and
  -- the nonce has the cipher's length.
  pub private_key_reaches_run :
      {rs : RunStore} (nonce : List ℕ)
      (user text private name host space agent_text os title repo path pipeline_text : String)
      (t : Tables) (c : Credential) (a : Agent) (p : Pipeline) (d1 d2 d3 : Db) (app : App rs)
      → IsSound t
      → length nonce ≡ nonce_size
      → All (λ b. b < 256) (nonce ++ seal key nonce (to_bytes private))
      → unseal key nonce (seal key nonce (to_bytes private)) ≡ ok (to_bytes private)
      → create_credential gcm key nonce user text private (willing t) ≡ (ok c, d1)
      → create_agent c.credential_id name host space agent_text os d1 ≡ (ok a, d2)
      → statement (Rows.create_pipeline a.agent_id title pipeline_text repo path) d2 ≡ (ok p, d3)
      → (prd : PipelineRunData) × ((get_pipeline_run_data
            (decrypt_aes gcm key)
            p.pipeline_id
            (record app { db = d3 })).0
          ≡ ok prd)
        × (prd.ssh_private_key ≡ to_bytes private)
        × (prd.username ≡ some user)
        × (prd.hostname ≡ host)
  unfolding create_agent
  private_key_reaches_run {rs} nonce user text private name host space agent_text os title repo path
        pipeline_text t c a p d1 d2 d3 app sound size bytes opens made agent_made pipeline_made =
      let (hash, t1, sealed, c_made, at1) = sealed_in nonce user text private t c d1 made in
      let (t2, a_made, at2) =
        statement-willing (Store.create_agent c.credential_id name host space agent_text os) t1 a d2
          (ap (create_agent c.credential_id name host space agent_text os) (sym at1)
            ∙ agent_made) in
      let (t3, p_made, at3) =
        statement-willing (Rows.create_pipeline a.agent_id title pipeline_text repo path) t2 p d3 (
          ap (statement (Rows.create_pipeline a.agent_id title pipeline_text repo path)) (sym at2)
          ∙ pipeline_made) in
      let c_row = create_credential-ok user text hash t t1 c c_made in
      let a_row = create_agent-ok c.credential_id name host space agent_text os t1 t2 a a_made in
      let p_row = create_pipeline-ok a.agent_id title pipeline_text repo path t2 t3 p p_made in
      let at_c =
        ap (λ u. u.credentials) (p_row.0)
        ∙ ap (λ u. u.credentials) a_row.0
        ∙ ap (λ u. u.credentials) c_row.0 in
      let at_a =
        ap (λ u. u.agents) p_row.0
        ∙ ap (λ u. u.agents) a_row.0
        ∙ ap (λ u. added a u.agents) c_row.0 in
      let same_p = ap (λ u. u.pipelines) a_row.0 ∙ ap (λ u. u.pipelines) c_row.0 in
      let at_p = ap (λ u. u.pipelines) p_row.0 ∙ ap (added p) same_p in
      let fleet = sound.1 in
      let find_c =
        ap (λ x. Table.find credential_key c.credential_id x.rows) at_c
        ∙ new_row credential_key c t.credentials fleet.fresh_credentials c_row.1 in
      let find_a =
        ap (λ k. Table.find agent_key k t3.agents.rows) p_row.2
        ∙ ap (λ x. Table.find agent_key a.agent_id x.rows) at_a
        ∙ new_row agent_key a t.agents fleet.fresh_agents
            (a_row.1 ∙ ap (λ u. suc u.agents.last_id) c_row.0) in
      let find_p =
        ap (λ x. Table.find pipeline_key p.pipeline_id x.rows) at_p
        ∙ new_row pipeline_key p t.pipelines fleet.fresh_pipelines
            (p_row.1 ∙ ap (λ x. suc x.last_id) same_p) in
      let read =
        read_pipeline_run_data-joined p.pipeline_id c.credential_id p a c t3 find_p find_a a_row.2
          find_c in
      let opened =
        decrypt_aes-encrypt_aes gcm key nonce private c.ssh_private_key_hash size bytes opens
          (sealed ∙ ap ok (sym c_row.3)) in
      (
        record (joined p a (some c)) { ssh_private_key = to_bytes private },
        ap
              (λ d.
                (get_pipeline_run_data (decrypt_aes gcm key) p.pipeline_id
                  (record app { db = d })).0)
              at3
            ∙ run_data_at (decrypt_aes gcm key) p.pipeline_id (joined p a (some c))
                c.ssh_private_key_hash (to_bytes private) t3 app read refl opened,
        refl,
        ap some c_row.2,
        a_row.3,
      )
