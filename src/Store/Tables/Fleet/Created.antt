-- ===== src/Store/Tables/Fleet/Created.antt =====
-- What `CreateCredential` and `CreateAgent` of `internal/store` leave when they succeed.
use simple_ci.Base.{◌≡◌, refl, ap, ℕ, suc, String, some, Bool, true, false, not, any, arith}
use simple_ci.Base.Errors.{Error, unique_constraint, foreign_key_constraint, ok}
use simple_ci.Base.Exec.{Exec}
use simple_ci.Store.{Credential, Agent}
use simple_ci.Store.Tables.{Tables, credential_key, refers, added, constrained}
use simple_ci.Store.Tables.Fleet.{
  create_credential, create_agent, insert_agent, new_agent, add_agent, has_name,
}

pub create_credential-ok :
    (name text hash : String) (t u : Tables) (c : Credential)
    → create_credential name text hash t ≡ (ok c, u)
    → (u ≡ record t { credentials = added c t.credentials })
      × (c.credential_id ≡ suc t.credentials.last_id)
      × (c.username ≡ name)
      × (c.ssh_private_key_hash ≡ hash)
unfolding create_credential
create_credential-ok name text hash t u c h = ground (arith, h)

-- A constraint held if its statement succeeded.
pub constrained-ok :
    {A : Type 0} (b : Bool) (e : Error) (m : Exec Tables A) (t u : Tables) (a : A)
    → constrained b e m t ≡ (ok a, u)
    → (b ≡ true) × (m t ≡ (ok a, u))
constrained-ok true e m t u a h = (refl, h)
constrained-ok false e m t u a h = absurd (cc (ap (λ p. p.0) h))

pub create_agent-ok :
    (k : ℕ) (name host space text os : String) (t u : Tables) (a : Agent)
    → create_agent k name host space text os t ≡ (ok a, u)
    → (u ≡ record t { agents = added a t.agents })
      × (a.agent_id ≡ suc t.agents.last_id)
      × (a.agent_credential_id ≡ some k)
      × (a.hostname ≡ host)
unfolding create_agent insert_agent new_agent
create_agent-ok k name host space text os t u a h =
    let a' = new_agent (suc t.agents.last_id) (some k) name host space text os in
    let named =
      constrained-ok (not (any (has_name name) t.agents.rows)) unique_constraint
        (constrained (refers credential_key (some k) t.credentials) foreign_key_constraint
          (add_agent a'))
        t u a h in
    let known =
      constrained-ok (refers credential_key (some k) t.credentials) foreign_key_constraint
        (add_agent a') t u a named.1 in
    ground (arith, known.1)
