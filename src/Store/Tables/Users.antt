-- ===== src/Store/Tables/Users.antt =====
-- `UserSQLiteStore` of `internal/store/user_sqlitestore.go`, a statement for each method.
pub mod Superuser
pub mod Sound
use Prim.Native.String.{compare}
use Prim.Native.Nat.{Ordering}
use simple_ci.Base.{
  ℕ, suc, String, Option, none, some, List, [], ◌∷◌, ◌++◌, Bool, true, false, not, is_some, ◌is◌,
  ◌==◌, any, filter, find_by, ◌||◌, if◌then◌else◌,
}
use simple_ci.Base.Errors.{
  Error, no_rows, unique_constraint, foreign_key_constraint, message, Result, ok, err,
}
use simple_ci.Base.Exec.{Exec}
use simple_ci.Store.{User, AuthSession, Role, superuser}
use simple_ci.Store.Table
use simple_ci.Store.Table.{Table}
use simple_ci.Store.Tables.{Tables, user_key, or_no_rows, added, has_key, is_role, constrained}

abbrev pub has_username : String → User → Bool
has_username name u = u.username is name

unfoldable pub new_user : ℕ → Role → String → String → Option ℕ → User
new_user id role username hash changed_on = record {
  user_id = id;
  user_role_id = role;
  username = username;
  password_hash = hash;
  password_changed_on = changed_on;
  session_expires = none;
}

abbrev pub add_user : (ℕ → User) → Exec Tables User
add_user make t = let u = make (suc t.users.last_id) in (ok u, record t { users = added u t.users })

unfoldable pub insert_user : Role → String → String → Option ℕ → Exec Tables User
unfolding new_user
insert_user role username hash changed_on t =
    constrained (not (any (has_username username) t.users.rows)) unique_constraint
      (constrained (is_role role) foreign_key_constraint
        (add_user (λ id. new_user id role username hash changed_on)))
      t

unfoldable pub create_user : Role → String → String → Exec Tables User
create_user role username hash = insert_user role username hash none

-- A superuser counts as one who has changed the password.
pub create_superuser : ℕ → String → String → Exec Tables User
create_superuser now username hash = insert_user superuser username hash (some now)

unfoldable pub read_user_by_id : ℕ → Exec Tables User
read_user_by_id id t = (or_no_rows (Table.find user_key id t.users.rows), t)

unfoldable pub read_user_by_username : String → Exec Tables User
read_user_by_username username t = (or_no_rows (find_by (has_username username) t.users.rows), t)

abbrev with_session : Option User → ℕ → Option User
with_session none expires = none
with_session (some u) expires = some (record u { session_expires = some expires })

abbrev pub session_user : Option AuthSession → List User → Option User
session_user none users = none
session_user (some s) users =
    with_session (Table.find user_key s.auth_session_user_id users) s.auth_session_expires

abbrev pub has_session_id : String → AuthSession → Bool
has_session_id id s = s.auth_session_id is id

-- The join with `auth_sessions`, whose id is a primary key.
unfoldable pub read_user_by_session_id : String → Exec Tables User
read_user_by_session_id session_id t =
    (or_no_rows (session_user (find_by (has_session_id session_id) t.sessions) t.users.rows), t)

abbrev of_user : ℕ → AuthSession → Bool
of_user id s = s.auth_session_user_id == id

abbrev without_user : ℕ → List AuthSession → List AuthSession
without_user id = filter (λ s. not (of_user id s))

-- The sessions go with their user: `on delete cascade`.
unfoldable pub delete_user : ℕ → Exec Tables (Unit {0})
delete_user id t = (
  ok tt,
  record t {
    users = record { rows = Table.remove user_key id t.users.rows; last_id = t.users.last_id };
    sessions = without_user id t.sessions;
  },
)

abbrev update_users : ℕ → (User → User) → Exec Tables (Unit {0})
update_users id f t = (
  ok tt,
  record t {
    users = record { rows = Table.update user_key id f t.users.rows; last_id = t.users.last_id };
  },
)

abbrev set_role : Role → User → User
set_role role u = record u { user_role_id = role }

abbrev pub set_password : String → Option ℕ → User → User
set_password hash changed_on u = record u { password_hash = hash; password_changed_on = changed_on }

-- The foreign key counts only if there is a row to update.
pub update_user_role : ℕ → Role → Exec Tables (Unit {0})
update_user_role id role t =
    constrained (not (has_key user_key id t.users) || is_role role) foreign_key_constraint
      (update_users id (set_role role)) t

unfoldable pub update_user_password : ℕ → String → Option ℕ → Exec Tables (Unit {0})
update_user_password id hash changed_on = update_users id (set_password hash changed_on)

abbrev pub add_session : AuthSession → Exec Tables AuthSession
add_session s t = (ok s, record t { sessions = t.sessions ++ s ∷ [] })

unfoldable pub new_session : String → ℕ → ℕ → AuthSession
new_session session_id user_id expires = record {
  auth_session_id = session_id;
  auth_session_user_id = user_id;
  auth_session_expires = expires;
}

unfoldable pub create_auth_session : String → ℕ → ℕ → Exec Tables AuthSession
unfolding new_session
create_auth_session session_id user_id expires t =
    constrained (not (any (has_session_id session_id) t.sessions))
      (message "UNIQUE constraint failed: auth_sessions.auth_session_id")
      (constrained (has_key user_key user_id t.users) foreign_key_constraint
        (add_session (new_session session_id user_id expires)))
      t

pub delete_auth_sessions_by_user_id : ℕ → Exec Tables (Unit {0})
delete_auth_sessions_by_user_id id t = (ok tt, record t { sessions = without_user id t.sessions })

abbrev before : String → String → Bool
before a b = elim (compare a b) [ Ordering.gt ↦ false | _ ↦ true ]

insert_by_name : User → List User → List User
insert_by_name u [] = u ∷ []
insert_by_name u (v ∷ rest) =
    let later = insert_by_name u rest in
    if before u.username v.username then u ∷ v ∷ rest else v ∷ later

-- `order by username`
sort_by_name : List User → List User
unfolding insert_by_name
sort_by_name [] = []
sort_by_name (u ∷ rest) = insert_by_name u (sort_by_name rest)

pub list_users : Exec Tables (List User)
unfolding sort_by_name
list_users t = (ok (sort_by_name t.users.rows), t)

unfoldable pub list_superusers : Exec Tables (List User)
list_superusers t = (ok (filter (λ u. u.user_role_id == superuser) t.users.rows), t)
