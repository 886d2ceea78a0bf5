-- ===== src/Store/Tables.antt =====
-- The tables of `internal/assets/migrations` but for the runs, with the constraints that SQLite
-- enforces on the connection that writes: unique columns, and `foreign_keys = ON`.
pub mod Keys
pub mod Users
pub mod Fleet
pub mod Pipelines
pub mod Invariant
mod Examples
use simple_ci.Base.{
  ℕ, suc, String, Option, none, some, List, [], ◌∷◌, ◌++◌, Bool, true, false, is_some, ◌is◌, ◌==◌,
  any, ◌||◌, if◌then◌else◌,
}
use simple_ci.Base.Errors.{
  Error, no_rows, unique_constraint, foreign_key_constraint, Result, ok, err,
}
use simple_ci.Base.Exec.{Exec}
use simple_ci.Store.{
  User, AuthSession, Credential, Agent, Pipeline, ApiKey, Role, superuser, admin, operator,
}
use simple_ci.Store.Table
use simple_ci.Store.Table.{Table}

pub record Tables : Type 0 where
  pub users : Table User
  pub sessions : List AuthSession
  pub credentials : Table Credential
  pub agents : Table Agent
  pub pipelines : Table Pipeline
  pub api_keys : Table ApiKey

abbrev pub user_key : User → ℕ
user_key u = u.user_id

abbrev pub credential_key : Credential → ℕ
credential_key c = c.credential_id

abbrev pub agent_key : Agent → ℕ
agent_key a = a.agent_id

abbrev pub pipeline_key : Pipeline → ℕ
pipeline_key p = p.pipeline_id

abbrev pub api_key_key : ApiKey → ℕ
api_key_key k = k.id

module _ {A : Type 0} where
  abbrev pub or_no_rows : Option A → Result A
  or_no_rows none = err no_rows
  or_no_rows (some a) = ok a

  -- The row with a new key at the end of a table.
  abbrev pub added : A → Table A → Table A
  added a t = record { rows = t.rows ++ a ∷ []; last_id = suc t.last_id }

  abbrev pub has_key : (A → ℕ) → ℕ → Table A → Bool
  has_key key k t = is_some (Table.find key k t.rows)

-- The rows of `roles`.
abbrev pub is_role : Role → Bool
is_role r = (r == superuser) || (r == admin) || (r == operator)

-- A column that may be null refers to a row, if to anything.
abbrev pub refers : {A : Type 0} → (A → ℕ) → Option ℕ → Table A → Bool
refers key none t = true
refers key (some k) t = has_key key k t

-- A constraint that fails undoes its statement.
abbrev pub constrained : {A S : Type 0} → Bool → Error → Exec S A → Exec S A
constrained true e m t = m t
constrained false e m t = (err e, t)
