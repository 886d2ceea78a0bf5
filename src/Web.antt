-- ===== src/Web.antt =====
-- `internal/handler`: what a handler answers, the errors of `error.go`, and the combinators that the
-- handlers are written with. Echo's binding of the parameters is an argument of a handler; a page or
-- a toast is named by its template and its text.
pub mod Guards
pub mod Auth
pub mod UserPages
pub mod Paging
pub mod Cookies
pub mod Events
mod Examples
use simple_ci.Base.{String, Option, none, some, Bool, true, false, ℕ, if◌then◌else◌}
use simple_ci.Base.Errors.{
  Error, unique_constraint, foreign_key_constraint, wrap, join, Errors, nil, cons, Result, ok, err,
  panic,
}
use simple_ci.Base.Exec.{Exec, pure, modify}
use simple_ci.Store.{User}
use simple_ci.Users.{Db}

pub data Reply : Type 0 where
  -- a redirect of the browser, with status 303, and one through the header `hx-redirect`
  redirect hx_redirect : String → Reply
  page toast : String → Reply
  no_content : Reply
  -- `echo.HTTPError` and `HTMXError`, with the internal error
  http_error htmx_error : ℕ → String → Option Error → Reply
  -- `newErrorString`, with its target
  text_error : ℕ → String → String → Reply

pub data Cookie : Type 0 where
  session_cookie : String → Cookie
  removed : Cookie

-- The database, and the session cookie that the response sets, if any.
pub record Talk : Type 0 where
  pub db : Db
  pub cookie : Option Cookie

-- The user that the session middleware has put into the context, and whether htmx asks.
pub record Visit : Type 0 where
  pub user : Option User
  pub hx : Bool

abbrev pub Handler : Type 0
Handler = Visit → Exec Talk Reply

unfoldable pub new_error : Visit → Option Error → ℕ → String → Reply
new_error v e status message =
    if v.hx then htmx_error status message e else http_error status message e

abbrev pub on_db : {A : Type 0} → Exec Db A → Exec Talk A
on_db m w = let (r, db) = m w.db in (r, record w { db = db })

abbrev pub set_cookie : Cookie → Exec Talk (Unit {0})
set_cookie c = modify λ w. record w { cookie = some c }

abbrev pub branch : {A S : Type 0} → (Error → Reply) → (A → Exec S Reply) → Result A → Exec S Reply
branch otherwise next (ok a) s = next a s
branch otherwise next (err e) s = (ok (otherwise e), s)
branch otherwise next panic s = (panic, s)

-- `if err != nil { return newError(c, err, …) }`
abbrev pub attempt : {A S : Type 0} → Exec S A → (Error → Reply) → (A → Exec S Reply) → Exec S Reply
attempt m otherwise next s = let (r, s') = m s in branch otherwise next r s'

-- `isUniqueConstraintError` and `isForeignKeyConstraintError`: `errors.As` takes the first error of
-- the chain that SQLite made, and no other counts.
unfoldable mutual
  pub sqlite_error : Error → Option Error
  sqlite_error unique_constraint = some unique_constraint
  sqlite_error foreign_key_constraint = some foreign_key_constraint
  sqlite_error (wrap m e) = sqlite_error e
  sqlite_error (join es) = first_sqlite_error es
  sqlite_error _ = none

  pub first_sqlite_error : Errors → Option Error
  first_sqlite_error nil = none
  first_sqlite_error (cons e es) = elim (sqlite_error e) [
    | some x ↦ some x
    | none ↦ first_sqlite_error es
  ]

pub is_unique_constraint_error : Error → Bool
is_unique_constraint_error e = elim (sqlite_error e) [ some unique_constraint ↦ true | _ ↦ false ]

unfoldable pub is_foreign_key_constraint_error : Error → Bool
unfolding sqlite_error
is_foreign_key_constraint_error e = elim (sqlite_error e) [
  | some foreign_key_constraint ↦ true
  | _ ↦ false
]
