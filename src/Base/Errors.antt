-- ===== src/Base/Errors.antt =====
-- Go's `error` values as far as the program tells them apart: `internal/service/errors.go`, the
-- errors of database/sql and of SQLite's constraints, and the wrappers `fmt.Errorf("%w")` and
-- `errors.Join`.
use Prim.Native.String.{String}
use mathlib.Core.Path.{◌≡◌, refl}
use mathlib.Core.Logic.{◌⊎◌, inl, inr}
use mathlib.Core.Bool.{Bool, true, false, ◌||◌}
use mathlib.Core.List.{List, [], ◌∷◌}

mutual
  pub data Error : Type 0 where
    -- sql.ErrNoRows
    no_rows : Error
    -- SQLITE_CONSTRAINT_UNIQUE
    unique_constraint : Error
    -- SQLITE_CONSTRAINT_TRIGGER and SQLITE_CONSTRAINT_FOREIGNKEY
    foreign_key_constraint : Error
    -- ErrRunQueueFull
    run_queue_full : Error
    -- RunCancelError
    run_cancel : String → Error
    -- errors.New and errors of other packages
    message : String → Error
    -- fmt.Errorf with one %w
    wrap : String → Error → Error
    -- fmt.Errorf with %v: the text of the error, which is not wrapped
    shown : String → Error → Error
    -- errors.Join
    join : Errors → Error

  pub data Errors : Type 0 where
    nil : Errors
    cons : Error → Errors → Errors

pub to_errors : List Error → Errors
to_errors [] = nil
to_errors (e ∷ es) = cons e (to_errors es)

-- `_, ok := err.(RunCancelError)`: the assertion looks at the value itself, not at what it wraps.
abbrev pub is_run_cancel : Error → Bool
is_run_cancel (run_cancel m) = true
is_run_cancel _ = false

-- `errors.Is(err, sql.ErrNoRows)`, which follows the chain of wrapped errors.
mutual
  pub is_no_rows : Error → Bool
  is_no_rows no_rows = true
  is_no_rows (wrap m e) = is_no_rows e
  is_no_rows (join es) = any_no_rows es
  is_no_rows _ = false

  pub any_no_rows : Errors → Bool
  any_no_rows nil = false
  any_no_rows (cons e es) = is_no_rows e || any_no_rows es

-- What a call comes back with.
pub data Result {ℓ} (A : Type ℓ) : Type ℓ where
  ok : A → Result A
  err : Error → Result A
  -- a nil dereference, a call of a nil function or a send on a closed channel
  panic : Result A

infixl 5 ◌>>=◌
abbrev pub ◌>>=◌ {ℓ κ} : {A : Type ℓ} {B : Type κ} → Result A → (A → Result B) → Result B
ok a >>= f = f a
err e >>= f = err e
panic >>= f = panic

pub Result-cases {ℓ} :
    {A : Type ℓ} (r : Result A)
    → ((a : A) × (r ≡ ok a)) ⊎ (((e : Error) × (r ≡ err e)) ⊎ (r ≡ panic))
Result-cases (ok a) = inl (a, refl)
Result-cases (err e) = inr (inl (e, refl))
Result-cases panic = inr (inr refl)
