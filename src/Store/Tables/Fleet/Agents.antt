-- ===== src/Store/Tables/Fleet/Agents.antt =====
-- The statements of `internal/store/agent_sqlitestore.go` keep the tables sound.
use simple_ci.Base.{
  ◌≡◌, refl, ◌∙◌, ◌≢◌, ℕ, suc, String, none, some, List, [], ◌∷◌, Bool, false, not, any, All,
  All-append, if◌then◌else◌, arith, eq_iff, Bool-cases, inl, inr, ◌||◌, ◌&&◌,
}
use simple_ci.Base.Errors.{unique_constraint, foreign_key_constraint}
use simple_ci.Store.{Credential, Agent, Pipeline}
use simple_ci.Store.Table
use simple_ci.Store.Table.{Table}
use simple_ci.Store.Tables.{Tables, credential_key, agent_key, has_key, refers, constrained, added}
use simple_ci.Store.Tables.Keys.{
  any_none, differs, Unique-append, Unique-remove, Unique-set, All-imp, All-update, All-remove,
  has_key-added, has_key-update, has_key-remove, update_missing, remove_missing, All-both,
}
use simple_ci.Store.Tables.Fleet.{
  create_credential, update_credential, delete_credential, insert_agent, add_agent, new_agent,
  has_name, create_controller_agent, create_agent, other_has_name, set_agent, update_agents,
  update_agent, runs_on, remove_agent, delete_agent, remove_row,
}
use simple_ci.Store.Tables.Invariant.{
  FleetSound, IsSound, KeepsSound, constrained-IsSound, agent_name,
}
use simple_ci.Store.Tables.Fleet.Credentials.{
  Refer, OnAgent, create_credential-Keeps, update_credential-Keeps, delete_credential-Keeps,
}

added-FleetSound :
    (a : Agent) (cs : Table Credential) (agents : Table Agent) (ps : Table Pipeline)
    → FleetSound cs agents ps
    → a.agent_id ≡ suc agents.last_id
    → Refer cs a
    → All (λ b. b.name ≢ a.name) agents.rows
    → FleetSound cs (added a agents) ps
added-FleetSound a cs agents ps f id refer new = record {
  fresh_credentials = f.fresh_credentials;
  fresh_agents = Table.append-Fresh agent_key agents.last_id agents.rows a f.fresh_agents id;
  fresh_pipelines = f.fresh_pipelines;
  agents_refer = All-append (Refer cs) agents.rows (a ∷ []) f.agents_refer (refer, tt);
  pipelines_refer =
      All-imp ps.rows (λ p. has_key-added agent_key p.pipeline_agent_id a agents) f.pipelines_refer;
  unique_names = Unique-append agent_name agents.rows a new f.unique_names;
}

insert_agent-Keeps :
    (make : ℕ → Agent) → ((id : ℕ) → (make id).agent_id ≡ id) → KeepsSound (insert_agent make)
unfolding insert_agent
insert_agent-Keeps make ids t h =
    let a = make (suc t.agents.last_id) in
    constrained-IsSound (not (any (has_name a.name) t.agents.rows)) unique_constraint
      (constrained (refers credential_key a.agent_credential_id t.credentials)
        foreign_key_constraint (add_agent a))
      t h
      λ free.
        constrained-IsSound (refers credential_key a.agent_credential_id t.credentials)
          foreign_key_constraint (add_agent a) t h
          λ refer. (
            h.0,
            added-FleetSound a t.credentials t.agents t.pipelines h.1 (ids (suc t.agents.last_id))
                refer (differs agent_name a.name t.agents.rows (ground (arith, free))),
            h.2,
          )

others_named :
    (n : String) (k : ℕ) (xs : List Agent)
    → any (other_has_name n k) xs ≡ false
    → All (λ a. a.agent_id ≢ k → a.name ≢ n) xs
others_named n k xs h =
    All-imp xs (λ a e ne same. absurd (ground (arith, e, ne, (eq_iff a.name n).1 same)))
      (any_none (other_has_name n k) xs h)

update_agent-Keeps :
    (k c : ℕ) (name host space text os : String)
    → KeepsSound (update_agent k c name host space text os)
unfolding update_agent
update_agent-Keeps k c name host space text os t h =
    let absent = not (has_key agent_key k t.agents) in
    let set = set_agent c name host space text os in
    let f = h.1 in
    let rows = t.agents.rows in
    constrained-IsSound (absent || not (any (other_has_name name k) rows)) unique_constraint
      (constrained (absent || has_key credential_key c t.credentials) foreign_key_constraint
        (update_agents k set))
      t h
      λ free.
        constrained-IsSound (absent || has_key credential_key c t.credentials)
          foreign_key_constraint (update_agents k set) t h
          λ there. (
            h.0,
            elim (Bool-cases (has_key agent_key k t.agents)) [
              | inl present ↦ record {
                fresh_credentials = f.fresh_credentials;
                fresh_agents =
                    Table.update-Fresh agent_key k t.agents.last_id set rows (λ a. refl)
                      f.fresh_agents;
                fresh_pipelines = f.fresh_pipelines;
                agents_refer =
                    All-update agent_key (Refer t.credentials) k set rows
                      (λ a e. ground (arith, there, present)) f.agents_refer;
                pipelines_refer =
                    All-imp t.pipelines.rows
                      (λ p e.
                        has_key-update agent_key p.pipeline_agent_id k set rows (λ a. refl) ∙ e)
                      f.pipelines_refer;
                unique_names =
                    Unique-set agent_key agent_name name k t.agents.last_id set rows (λ a. refl)
                      f.fresh_agents (others_named name k rows (ground (arith, free, present)))
                      f.unique_names;
              }
              | inr missing ↦ rw (update_missing agent_key k set rows (ground (arith, missing))) f
            ],
            h.2,
          )

delete_agent-Keeps : (k : ℕ) → KeepsSound (delete_agent k)
unfolding delete_agent
delete_agent-Keeps k t h =
    let f = h.1 in
    let agents = t.agents in
    constrained-IsSound (not (has_key agent_key k agents && any (runs_on k) t.pipelines.rows))
      foreign_key_constraint (remove_agent k) t h
      λ free. (
        h.0,
        record {
          fresh_credentials = f.fresh_credentials;
          fresh_agents = Table.remove-Fresh agent_key k agents.last_id agents.rows f.fresh_agents;
          fresh_pipelines = f.fresh_pipelines;
          agents_refer = All-remove agent_key (Refer t.credentials) k agents.rows f.agents_refer;
          pipelines_refer = elim (Bool-cases (any (runs_on k) t.pipelines.rows)) [
            | inl used ↦
                let absent : Table.find agent_key k agents.rows ≡ none =
                  ground (arith, free, used) in
                rw (remove_missing agent_key k agents.rows absent) f.pipelines_refer
            | inr unused ↦
                All-both (λ p. runs_on k p ≡ false) (OnAgent agents)
                  (OnAgent (remove_row agent_key k agents)) t.pipelines.rows
                  (λ p off on.
                    has_key-remove agent_key p.pipeline_agent_id k agents.rows (ground (arith, off))
                    ∙ on)
                  (any_none (runs_on k) t.pipelines.rows unused) f.pipelines_refer
          ];
          unique_names = Unique-remove agent_key agent_name k agents.rows f.unique_names;
        },
        h.2,
      )

-- Every statement of the credential and agent stores keeps the tables sound: what an agent or a
-- pipeline refers to is there, agent names are taken once and keys are new.
pub fleet_statements-IsSound :
    (windows : Bool) (k c : ℕ) (name host space text os : String) (t : Tables)
    → IsSound t
    → IsSound (create_credential name text space t).1
      × IsSound (update_credential k name text t).1
      × IsSound (delete_credential k t).1
      × IsSound (create_controller_agent windows t).1
      × IsSound (create_agent c name host space text os t).1
      × IsSound (update_agent k c name host space text os t).1
      × IsSound (delete_agent k t).1
unfolding create_controller_agent create_agent new_agent
fleet_statements-IsSound windows k c name host space text os t h = (
  create_credential-Keeps name text space t h,
  update_credential-Keeps k name text t h,
  delete_credential-Keeps k t h,
  insert_agent-Keeps
      (λ id.
        new_agent id none "Localhost" "localhost" "runs"
          "Agent to run pipelines on the controller machine."
          (if windows then "windows" else "unix"))
      (λ id. refl) t h,
  insert_agent-Keeps (λ id. new_agent id (some c) name host space text os) (λ id. refl) t h,
  update_agent-Keeps k c name host space text os t h,
  delete_agent-Keeps k t h,
)
