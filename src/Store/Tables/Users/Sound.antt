-- ===== src/Store/Tables/Users/Sound.antt =====
-- The statements of `internal/store/user_sqlitestore.go` keep the tables sound.
use simple_ci.Base.{
  ◌≡◌, refl, ◌∙◌, ◌≢◌, ℕ, suc, String, Option, none, some, List, [], ◌∷◌, true, not, any, All,
  All-append, arith, Bool-cases, inl, inr, ◌||◌,
}
use simple_ci.Base.Errors.{unique_constraint, foreign_key_constraint, message}
use simple_ci.Store.{User, AuthSession, Role, superuser}
use simple_ci.Store.Table
use simple_ci.Store.Table.{Table}
use simple_ci.Store.Tables.{Tables, user_key, has_key, is_role, constrained, added}
use simple_ci.Store.Tables.Keys.{
  differs, Unique-append, Unique-remove, Unique-update, All-imp, All-filter, All-update, All-remove,
  has_key-added, has_key-update, has_key-remove, update_missing,
}
use simple_ci.Store.Tables.Users.{
  new_user, insert_user, add_user, add_session, new_session, update_users, set_role, without_user,
  of_user, has_session_id, has_username, create_user, create_superuser, delete_user,
  update_user_role, update_user_password, create_auth_session, delete_auth_sessions_by_user_id,
}
use simple_ci.Store.Tables.Invariant.{
  UsersSound, IsSound, KeepsSound, constrained-IsSound, username,
}

added-UsersSound :
    (u : User) (users : Table User) (sessions : List AuthSession)
    → UsersSound users sessions
    → u.user_id ≡ suc users.last_id
    → is_role u.user_role_id ≡ true
    → All (λ v. v.username ≢ u.username) users.rows
    → UsersSound (added u users) sessions
added-UsersSound u users sessions h id role new = record {
  fresh = Table.append-Fresh user_key users.last_id users.rows u h.fresh id;
  roles = All-append (λ v. is_role v.user_role_id ≡ true) users.rows (u ∷ []) h.roles (role, tt);
  refer = All-imp sessions (λ s. has_key-added user_key s.auth_session_user_id u users) h.refer;
  unique = Unique-append username users.rows u new h.unique;
}

insert_user-Keeps :
    (role : Role) (name hash : String) (on : Option ℕ) → KeepsSound (insert_user role name hash on)
unfolding insert_user new_user
insert_user-Keeps role name hash on t h =
    let add = add_user (λ id. new_user id role name hash on) in
    constrained-IsSound (not (any (has_username name) t.users.rows)) unique_constraint
      (constrained (is_role role) foreign_key_constraint add) t h
      λ free. constrained-IsSound (is_role role) foreign_key_constraint add t h λ is_one. (
        added-UsersSound (new_user (suc t.users.last_id) role name hash on) t.users t.sessions h.0
            refl is_one (differs username name t.users.rows (ground (arith, free))),
        h.1,
        h.2,
      )

updated-UsersSound :
    (k : ℕ) (f : User → User) (users : Table User) (sessions : List AuthSession)
    → UsersSound users sessions
    → ((u : User) → (f u).user_id ≡ u.user_id)
    → ((u : User) → (f u).username ≡ u.username)
    → All (λ u. is_role u.user_role_id ≡ true) (Table.update user_key k f users.rows)
    → UsersSound
        (record { rows = Table.update user_key k f users.rows; last_id = users.last_id })
        sessions
updated-UsersSound k f users sessions h same_id same_name roles = record {
  fresh = Table.update-Fresh user_key k users.last_id f users.rows same_id h.fresh;
  roles = roles;
  refer =
      All-imp sessions
        (λ s e. has_key-update user_key s.auth_session_user_id k f users.rows same_id ∙ e) h.refer;
  unique = Unique-update user_key username k f users.rows same_name h.unique;
}

update_user_password-Keeps :
    (k : ℕ) (hash : String) (on : Option ℕ) → KeepsSound (update_user_password k hash on)
unfolding update_user_password
update_user_password-Keeps k hash on t h = (
  updated-UsersSound k _ t.users t.sessions h.0 (λ u. refl) (λ u. refl)
      (All-update user_key (λ u. is_role u.user_role_id ≡ true) k _ t.users.rows (λ u e. e)
        h.0.roles),
  h.1,
  h.2,
)

update_user_role-Keeps : (k : ℕ) (role : Role) → KeepsSound (update_user_role k role)
unfolding update_user_role
update_user_role-Keeps k role t h =
    constrained-IsSound (not (has_key user_key k t.users) || is_role role) foreign_key_constraint
      (update_users k (set_role role)) t h
      λ allowed. (
        updated-UsersSound k (set_role role) t.users t.sessions h.0 (λ u. refl) (λ u. refl)
            (elim (Bool-cases (is_role role)) [
              | inl known ↦
                  All-update user_key (λ u. is_role u.user_role_id ≡ true) k (set_role role)
                    t.users.rows (λ u e. known) h.0.roles
              | inr unknown ↦
                  let absent : Table.find user_key k t.users.rows ≡ none =
                    ground (arith, allowed, unknown) in
                  rw (update_missing user_key k (set_role role) t.users.rows absent) h.0.roles
            ]),
        h.1,
        h.2,
      )

create_auth_session-Keeps :
    (id : String) (user expires : ℕ) → KeepsSound (create_auth_session id user expires)
unfolding create_auth_session
create_auth_session-Keeps id user expires t h =
    let add = add_session (new_session id user expires) in
    constrained-IsSound (not (any (has_session_id id) t.sessions))
      (message "UNIQUE constraint failed: auth_sessions.auth_session_id")
      (constrained (has_key user_key user t.users) foreign_key_constraint add) t h
      λ free.
        constrained-IsSound (has_key user_key user t.users) foreign_key_constraint add t h λ there.
          let u = h.0 in
          (
            record {
              fresh = u.fresh;
              roles = u.roles;
              refer =
                  All-append (λ s. has_key user_key s.auth_session_user_id t.users ≡ true)
                    t.sessions (new_session id user expires ∷ []) u.refer (there, tt);
              unique = u.unique;
            },
            h.1,
            h.2,
          )

delete_auth_sessions_by_user_id-Keeps : (k : ℕ) → KeepsSound (delete_auth_sessions_by_user_id k)
unfolding delete_auth_sessions_by_user_id
delete_auth_sessions_by_user_id-Keeps k t h =
    let u = h.0 in
    (
      record {
        fresh = u.fresh;
        roles = u.roles;
        refer =
            All-imp (without_user k t.sessions) (λ s e. e.1)
              (All-filter (λ s. has_key user_key s.auth_session_user_id t.users ≡ true)
                (λ s. not (of_user k s)) t.sessions u.refer);
        unique = u.unique;
      },
      h.1,
      h.2,
    )

delete_user-Keeps : (k : ℕ) → KeepsSound (delete_user k)
unfolding delete_user
delete_user-Keeps k t h =
    let u = h.0 in
    (
      record {
        fresh = Table.remove-Fresh user_key k t.users.last_id t.users.rows u.fresh;
        roles = All-remove user_key (λ u. is_role u.user_role_id ≡ true) k t.users.rows u.roles;
        refer =
            All-imp (without_user k t.sessions)
              (λ s e.
                has_key-remove user_key s.auth_session_user_id k t.users.rows (ground (arith, e.0))
                ∙ e.1)
              (All-filter (λ s. has_key user_key s.auth_session_user_id t.users ≡ true)
                (λ s. not (of_user k s)) t.sessions u.refer);
        unique = Unique-remove user_key username k t.users.rows u.unique;
      },
      h.1,
      h.2,
    )

-- Every statement of the user store keeps the tables sound: names are taken once, roles are known,
-- keys are new, and a session that is left is of a user that is left.
pub user_statements-IsSound :
    (k now : ℕ) (role : Role) (name text : String) (on : Option ℕ) (t : Tables)
    → IsSound t
    → IsSound (create_user role name text t).1
      × IsSound (create_superuser now name text t).1
      × IsSound (delete_user k t).1
      × IsSound (update_user_role k role t).1
      × IsSound (update_user_password k text on t).1
      × IsSound (create_auth_session text k now t).1
      × IsSound (delete_auth_sessions_by_user_id k t).1
unfolding create_user create_superuser
user_statements-IsSound k now role name text on t h = (
  insert_user-Keeps role name text none t h,
  insert_user-Keeps superuser name text (some now) t h,
  delete_user-Keeps k t h,
  update_user_role-Keeps k role t h,
  update_user_password-Keeps k text on t h,
  create_auth_session-Keeps text k now t h,
  delete_auth_sessions_by_user_id-Keeps k t h,
)
