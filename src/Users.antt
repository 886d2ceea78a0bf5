-- ===== src/Users.antt =====
-- `UserService` of `internal/service/user_service.go`. bcrypt, the random session ids and the clock
-- are parameters; a method that calls the store twice makes two statements.
pub mod Superuser
pub mod Passwords
pub mod Sessions
pub mod Examples
use simple_ci.Base.{
  ◌≡◌, ℕ, ◌+◌, String, Option, none, some, List, [], ◌∷◌, Bool, true, false, ltb, if◌then◌else◌,
}
use simple_ci.Base.Errors.{Error, message, is_no_rows, Result, ok, err, panic}
use simple_ci.Base.Exec.{Exec, pure, raise, lift, ◌>>=◌, ◌>>◌}
use simple_ci.Store.{User, AuthSession, Role, is_superuser}
use simple_ci.Store.Driver.{Driven, statement}
use simple_ci.Store.Tables.{Tables}
use simple_ci.Store.Tables.Users as Store

abbrev pub Db : Type 0
Db = Driven Tables

-- golang.org/x/crypto/bcrypt; what `GenerateFromPassword` gives depends on a random salt.
pub record Bcrypt : Type 0 where
  pub generate : String → String → Result String
  pub compare : String → String → Option Error

abbrev pub to_result : Option Error → Result (Unit {0})
to_result none = ok tt
to_result (some e) = err e

abbrev absent_is_empty : {A : Type 0} → Result (List A) → Result (List A)
absent_is_empty (ok xs) = ok xs
absent_is_empty (err e) = if is_no_rows e then ok [] else err e
absent_is_empty panic = panic

-- `if err != nil && !errors.Is(err, sql.ErrNoRows)`
abbrev pub or_empty : {A S : Type 0} → Exec S (List A) → Exec S (List A)
or_empty m s = let (r, s') = m s in (absent_is_empty r, s')

unfoldable pub get_user_by_id : ℕ → Exec Db User
get_user_by_id id = statement (Store.read_user_by_id id)

-- `!u.SessionExpires.Valid || u.SessionExpires.Time.Before(time.Now())`
abbrev pub is_expired : ℕ → Option ℕ → Bool
is_expired now none = true
is_expired now (some expires) = ltb expires now

pub get_user_by_session_id : ℕ → String → Exec Db User
get_user_by_session_id now session_id = do
  u ← statement (Store.read_user_by_session_id session_id)
  if is_expired now u.session_expires then raise (message "session expired") else pure u

-- `session_id` is the random one.
pub create_auth_session : String → ℕ → ℕ → ℕ → Exec Db AuthSession
create_auth_session session_id now session_expires user_id =
    statement (Store.create_auth_session session_id user_id (now + session_expires))

module _ (bcrypt : Bcrypt) where
  pub get_user_by_username_and_password : String → String → Exec Db User
  get_user_by_username_and_password username password = do
    u ← statement (Store.read_user_by_username username)
    lift (to_result (bcrypt.compare u.password_hash password))
    pure u

  pub create_user : String → Role → String → String → Exec Db User
  create_user salt role username password = do
    hash ← lift (bcrypt.generate salt password)
    statement (Store.create_user role username hash)

  abbrev pub change_for : String → ℕ → String → String → User → Exec Db (Unit {0})
  change_for salt now old_password new_password u =
      if is_superuser (some u)
      then raise (message "attempt to change superuser's password")
      else (do
        lift (to_result (bcrypt.compare u.password_hash old_password))
        hash ← lift (bcrypt.generate salt new_password)
        statement (Store.update_user_password u.user_id hash (some now)))

  pub change_user_password : String → ℕ → ℕ → String → String → Exec Db (Unit {0})
  change_user_password salt now user_id old_password new_password =
      statement (Store.read_user_by_id user_id) >>= change_for salt now old_password new_password

  pub set_user_password : String → ℕ → ℕ → String → Exec Db (Unit {0})
  set_user_password salt now user_id new_password = do
    u ← statement (Store.read_user_by_id user_id)
    hash ← lift (bcrypt.generate salt new_password)
    statement (Store.update_user_password u.user_id hash (some now))

  abbrev pub reset_for : String → String → User → Exec Db (Unit {0})
  reset_for salt new_password u =
      if is_superuser (some u) then raise (message "attempt to reset superuser's password") else (do
        hash ← lift (bcrypt.generate salt new_password)
        statement (Store.update_user_password u.user_id hash none))

  -- The user has to set a password of their own before anything else.
  pub reset_user_password : String → ℕ → String → Exec Db (Unit {0})
  reset_user_password salt user_id new_password =
      statement (Store.read_user_by_id user_id) >>= reset_for salt new_password

pub list_users : Exec Db (List User)
list_users = or_empty (statement Store.list_users)

unfoldable pub delete_user : User → Exec Db (Unit {0})
delete_user u = statement (Store.delete_user u.user_id)

unfoldable pub list_superusers : Exec Db (List User)
list_superusers = or_empty (statement Store.list_superusers)

pub update_user_role : ℕ → Role → Exec Db (Unit {0})
update_user_role user_id role = statement (Store.update_user_role user_id role)

-- `log.Fatal` ends the program.
abbrev or_fatal : {A S : Type 0} → Result A × S → Result A × S
or_fatal (ok a, s) = (ok a, s)
or_fatal (err e, s) = (panic, s)
or_fatal (panic, s) = (panic, s)

-- What is typed at the prompts for a name and a password.
pub record Console : Type 0 where
  pub username : Result String
  pub password : Result String

prompt_superuser : Bcrypt → Console → String → ℕ → Exec Db (Unit {0})
prompt_superuser bcrypt console salt now = do
  username ← lift console.username
  password ← lift console.password
  hash ← lift (bcrypt.generate salt password)
  statement (Store.create_superuser now username hash)
  pure tt

unfoldable pub create_first : Bcrypt → Console → String → ℕ → List User → Exec Db (Unit {0})
unfolding prompt_superuser
create_first bcrypt console salt now [] = prompt_superuser bcrypt console salt now
create_first bcrypt console salt now (u ∷ us) = pure tt

unfoldable pub initialize_superuser : Bcrypt → Console → String → ℕ → Exec Db (Unit {0})
unfolding create_first list_superusers
initialize_superuser bcrypt console salt now db =
    or_fatal ((list_superusers >>= create_first bcrypt console salt now) db)
