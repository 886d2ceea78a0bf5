-- ===== src/Users/Examples.antt =====
-- Users, passwords and sessions of `internal/service/user_service.go`, with a bcrypt that writes
-- the salt in front of the password and refuses no password.
use simple_ci.Base.{
  ◌≡◌, refl, sym, ap, ℕ, ◌≤◌, String, ◌is◌, ◌==◌, [], ◌∷◌, none, some, false, find_by,
  if◌then◌else◌, ltb,
}
use simple_ci.Base.Errors.{message, Result, ok, err, panic}
use simple_ci.Store.{User, AuthSession, operator, superuser, is_superuser}
use simple_ci.Store.Table
use simple_ci.Store.Driver.{statement}
use simple_ci.Store.Tables.{Tables, user_key}
use simple_ci.Store.Tables.Users as Store
use simple_ci.Users.{
  Db, Bcrypt, create_user, get_user_by_username_and_password, get_user_by_session_id,
  create_auth_session, change_user_password, reset_user_password,
}
use simple_ci.Users.Sessions.{
  willing, created_logs_in, opened_session_lem, get_user_by_session_id_ok,
}
use simple_ci.Users.Passwords.{user_row, superuser_password_kept, change_user_password_ok}

abbrev pub root : User
root = record {
  user_id = 1;
  user_role_id = superuser;
  username = "root";
  password_hash = "secret";
  password_changed_on = some 3;
  session_expires = none;
}

abbrev pub ann : User
ann = record {
  user_id = 2;
  user_role_id = operator;
  username = "ann";
  password_hash = "old";
  password_changed_on = some 4;
  session_expires = none;
}

abbrev pub tables : Tables
tables = record {
  users = record { rows = root ∷ ann ∷ []; last_id = 2 };
  sessions =
      record { auth_session_id = "s"; auth_session_user_id = 2; auth_session_expires = 9 } ∷ [];
  credentials = record { rows = []; last_id = 0 };
  agents = record { rows = []; last_id = 0 };
  pipelines = record { rows = []; last_id = 0 };
  api_keys = record { rows = []; last_id = 0 };
}

-- A hash that is the password itself.
abbrev pub plain : Bcrypt
plain = record {
  generate = λ salt password. ok password;
  compare = λ hash password. if hash is password then none else some (message "mismatch");
}

abbrev bob_made : Db
bob_made = (create_user plain "salt" operator "bob" "pw" (willing tables)).1

abbrev bob : User
bob = Store.new_user 3 operator "bob" "pw" none

plain_accepts :
    (hash : String) → plain.generate "salt" "pw" ≡ ok hash → plain.compare hash "pw" ≡ none
plain_accepts hash made = let same : hash ≡ "pw" = ap or_blank (sym made) in rw same refl
  where
    or_blank : Result String → String
    or_blank (ok a) = a
    or_blank (err e) = ""
    or_blank panic = ""

created_logs_in_example :
    get_user_by_username_and_password plain "bob" "pw" bob_made ≡ (ok bob, bob_made)
unfolding create_user statement Store.create_user Store.insert_user
created_logs_in_example =
    created_logs_in plain "salt" operator "bob" "pw" bob tables bob_made plain_accepts refl

abbrev opened : Db
opened = (create_auth_session "t" 5 10 2 (willing tables)).1

abbrev session : AuthSession
session = Store.new_session "t" 2 15

opened_session_lem_example :
    (v : User) × (v.user_id ≡ 2)
    × (get_user_by_session_id 15 "t" opened
        ≡ (if ltb 15 15 then err (message "session expired") else ok v, opened))
unfolding create_auth_session statement Store.create_auth_session Table.find
opened_session_lem_example = opened_session_lem "t" 5 15 10 2 session tables opened refl

abbrev ann_session : User
ann_session = record ann { session_expires = some 9 }

get_user_by_session_id_ok_example :
    (s : AuthSession) × (v : User) × (find_by (λ s. s.auth_session_id is "s") tables.sessions
      ≡ some s)
    × (Table.find user_key s.auth_session_user_id tables.users.rows ≡ some v)
    × (ann_session ≡ record v { session_expires = some s.auth_session_expires })
    × (7 ≤ s.auth_session_expires)
unfolding get_user_by_session_id statement Store.read_user_by_session_id Table.find find_by
get_user_by_session_id_ok_example =
    get_user_by_session_id_ok 7 "s" ann_session (willing tables) (willing tables) refl

superuser_password_kept_example :
    ((change_user_password plain "salt" 5 1 "secret" "new" (willing tables)).1.stored ≡ tables)
    × ((reset_user_password plain "salt" 1 "new" (willing tables)).1.stored ≡ tables)
unfolding Table.find is_superuser
superuser_password_kept_example =
    superuser_password_kept plain "salt" "secret" "new" 5 1 root (willing tables) refl refl

abbrev changed : Db
changed = (change_user_password plain "salt" 5 2 "old" "new" (willing tables)).1

change_user_password_ok_example :
    (u : User) × (hash : String) × (user_row (willing tables) 2 ≡ some u)
    × (is_superuser (some u) ≡ false)
    × (plain.compare u.password_hash "old" ≡ none)
    × (plain.generate "salt" "new" ≡ ok hash)
    × ((j : ℕ)
        → user_row changed j ≡ (
            if j == 2
            then some (Store.set_password hash (some 5) u)
            else user_row (willing tables) j))
unfolding change_user_password statement Store.read_user_by_id Store.update_user_password Table.find
    Table.update is_superuser
change_user_password_ok_example =
    change_user_password_ok plain "salt" "old" "new" 5 2 (willing tables) changed refl
