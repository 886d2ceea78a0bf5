-- ===== src/Store/Tables/Fleet/Credentials.antt =====
-- The statements of `internal/store/credential_sqlitestore.go` keep the tables sound.
use simple_ci.Base.{
  ◌≡◌, refl, ◌∙◌, ℕ, suc, String, Option, none, some, true, false, not, ◌==◌, any, arith,
  Bool-cases, inl, inr, ◌&&◌,
}
use simple_ci.Base.Errors.{foreign_key_constraint}
use simple_ci.Store.{Credential, Agent, Pipeline}
use simple_ci.Store.Table
use simple_ci.Store.Table.{Table}
use simple_ci.Store.Tables.{credential_key, agent_key, has_key, refers, added}
use simple_ci.Store.Tables.Keys.{
  any_none, All-imp, has_key-added, has_key-update, has_key-remove, remove_missing, All-both,
}
use simple_ci.Store.Tables.Fleet.{
  create_credential, update_credential, delete_credential, describe, remove_credential,
  uses_credential, update_table, remove_row,
}
use simple_ci.Store.Tables.Invariant.{KeepsSound, constrained-IsSound}

abbrev pub Refer : Table Credential → Agent → Type 0
Refer cs a = refers credential_key a.agent_credential_id cs ≡ true

abbrev pub OnAgent : Table Agent → Pipeline → Type 0
OnAgent agents p = has_key agent_key p.pipeline_agent_id agents ≡ true

refers_by :
    (o : Option ℕ) (cs ds : Table Credential)
    → ((k : ℕ) → has_key credential_key k cs ≡ true → has_key credential_key k ds ≡ true)
    → refers credential_key o cs ≡ true
    → refers credential_key o ds ≡ true
refers_by none cs ds imp h = refl
refers_by (some k) cs ds imp h = imp k h

pub create_credential-Keeps :
    (name text hash : String) → KeepsSound (create_credential name text hash)
unfolding create_credential
create_credential-Keeps name text hash t h =
    let f = h.1 in
    let c : Credential = record {
      credential_id = suc t.credentials.last_id;
      username = name;
      description = text;
      ssh_private_key_hash = hash;
    } in
    (
      h.0,
      record {
        fresh_credentials =
            Table.append-Fresh credential_key t.credentials.last_id t.credentials.rows c
              f.fresh_credentials refl;
        fresh_agents = f.fresh_agents;
        fresh_pipelines = f.fresh_pipelines;
        agents_refer =
            All-imp t.agents.rows
              (λ a.
                refers_by a.agent_credential_id t.credentials (added c t.credentials)
                  (λ k. has_key-added credential_key k c t.credentials))
              f.agents_refer;
        pipelines_refer = f.pipelines_refer;
        unique_names = f.unique_names;
      },
      h.2,
    )

pub update_credential-Keeps :
    (k : ℕ) (name text : String) → KeepsSound (update_credential k name text)
unfolding update_credential
update_credential-Keeps k name text t h =
    let f = h.1 in
    let cs = t.credentials in
    let ds = update_table credential_key k (describe name text) cs in
    (
      h.0,
      record {
        fresh_credentials =
            Table.update-Fresh credential_key k cs.last_id (describe name text) cs.rows (λ c. refl)
              f.fresh_credentials;
        fresh_agents = f.fresh_agents;
        fresh_pipelines = f.fresh_pipelines;
        agents_refer =
            All-imp t.agents.rows
              (λ a. refers_by a.agent_credential_id cs ds (λ j e.
                has_key-update credential_key j k (describe name text) cs.rows (λ c. refl) ∙ e))
              f.agents_refer;
        pipelines_refer = f.pipelines_refer;
        unique_names = f.unique_names;
      },
      h.2,
    )

-- A credential that no agent uses can go.
still_refers :
    (k : ℕ) (cs : Table Credential) (a : Agent)
    → uses_credential k a ≡ false
    → Refer cs a
    → Refer (remove_row credential_key k cs) a
still_refers k cs a free h = go a.agent_credential_id free h
  where
    go :
        (o : Option ℕ)
        → (elim o [ none ↦ false | some j ↦ j == k ]) ≡ false
        → refers credential_key o cs ≡ true
        → refers credential_key o (remove_row credential_key k cs) ≡ true
    go none free h = refl
    go (some j) free h = has_key-remove credential_key j k cs.rows (ground (arith, free)) ∙ h

pub delete_credential-Keeps : (k : ℕ) → KeepsSound (delete_credential k)
unfolding delete_credential
delete_credential-Keeps k t h =
    let f = h.1 in
    let cs = t.credentials in
    constrained-IsSound (not (has_key credential_key k cs && any (uses_credential k) t.agents.rows))
      foreign_key_constraint (remove_credential k) t h
      λ free. (
        h.0,
        record {
          fresh_credentials =
              Table.remove-Fresh credential_key k cs.last_id cs.rows f.fresh_credentials;
          fresh_agents = f.fresh_agents;
          fresh_pipelines = f.fresh_pipelines;
          agents_refer = elim (Bool-cases (any (uses_credential k) t.agents.rows)) [
            | inl used ↦
                let absent : Table.find credential_key k cs.rows ≡ none =
                  ground (arith, free, used) in
                rw (remove_missing credential_key k cs.rows absent) f.agents_refer
            | inr unused ↦
                All-both (λ a. uses_credential k a ≡ false) (Refer cs)
                  (Refer (remove_row credential_key k cs)) t.agents.rows (still_refers k cs)
                  (any_none (uses_credential k) t.agents.rows unused) f.agents_refer
          ];
          pipelines_refer = f.pipelines_refer;
          unique_names = f.unique_names;
        },
        h.2,
      )
