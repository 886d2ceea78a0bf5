-- ===== src/Users/Sessions.antt =====
-- Logging in and staying logged in: `internal/service/user_service.go`.
use simple_ci.Base.{
  ◌≡◌, refl, sym, ap, ◌∙◌, inl, inr, ℕ, ◌+◌, ◌≤◌, suc, String, Bool, Option, none, some, List, [],
  true, false, any, find_by, find_by-append, is_some, ◌is◌, eq_iff, ltb, Bool-cases, Option-cases,
  if◌then◌else◌, arith,
}
use simple_ci.Base.Errors.{Result-cases, message, Result, ok, err}
use simple_ci.Base.Exec.{pure, raise, >>=-eq-ok}
use simple_ci.Store.{User, AuthSession, Role}
use simple_ci.Store.Table
use simple_ci.Store.Driver.{statement, statement_outcome}
use simple_ci.Store.Tables.{Tables, user_key, or_no_rows, has_key, is_role}
use simple_ci.Store.Tables.Users as Store
use simple_ci.Users.{
  Db, Bcrypt, is_expired, create_user, get_user_by_username_and_password, get_user_by_session_id,
  create_auth_session,
}

-- A database whose driver refuses nothing.
abbrev pub willing : Tables → Db
willing t = record { stored = t; refusals = [] }

or_no_rows_ok : {A : Type 0} (o : Option A) (a : A) → or_no_rows o ≡ ok a → o ≡ some a
or_no_rows_ok none a h = absurd (cc h)
or_no_rows_ok (some b) a h = ground (arith, h)

session_user_lem :
    (o : Option AuthSession) (users : List User) (u : User)
    → Store.session_user o users ≡ some u
    → (s : AuthSession) × (v : User) × (o ≡ some s)
      × (Table.find user_key s.auth_session_user_id users ≡ some v)
      × (u ≡ record v { session_expires = some s.auth_session_expires })
session_user_lem none users u h = absurd (cc h)
session_user_lem (some s) users u h =
    elim (Option-cases (Table.find user_key s.auth_session_user_id users)) [
      | inl e ↦ absurd (ground (arith, e, h))
      | inr (v, e) ↦ (s, v, refl, e, ground (arith, e, h))
    ]

read_by_session :
    (id : String) (v : User) (d db : Db)
    → statement (Store.read_user_by_session_id id) db ≡ (ok v, d)
    → Store.session_user (find_by (Store.has_session_id id) db.stored.sessions) db.stored.users.rows
      ≡ some v
unfolding Store.read_user_by_session_id
read_by_session id v d db h = elim (statement_outcome (Store.read_user_by_session_id id) db) [
  | inl (e, r, s) ↦ absurd (ground (arith, r, h))
  | inr (r, s) ↦
      or_no_rows_ok
        (Store.session_user (find_by (Store.has_session_id id) db.stored.sessions)
          db.stored.users.rows)
        v (sym r ∙ ap (λ p. p.0) h)
]

not_expired :
    (now : ℕ) (v u : User) (d d' : Db)
    → (if is_expired now v.session_expires then raise (message "session expired") else pure v) d
      ≡ (ok u, d')
    → (u ≡ v) × (is_expired now v.session_expires ≡ false)
not_expired now v u d d' h = elim (Bool-cases (is_expired now v.session_expires)) [
  | inl e ↦ absurd (ground (arith, e, h))
  | inr e ↦ (ground (arith, e, h), e)
]

unexpired :
    (now : ℕ) (s : AuthSession) (w v : User)
    → v ≡ record w { session_expires = some s.auth_session_expires }
    → is_expired now v.session_expires ≡ false
    → now ≤ s.auth_session_expires
unexpired now s w v made live =
    let e : v.session_expires ≡ some s.auth_session_expires = ap (λ u. u.session_expires) made in
    ground (arith, e, live)

-- A session id that gives a user is that of a stored session, which is that of a stored user and
-- has not expired.
pub get_user_by_session_id_ok :
    (now : ℕ) (id : String) (u : User) (db db' : Db)
    → get_user_by_session_id now id db ≡ (ok u, db')
    → (s : AuthSession) × (v : User) × (find_by (λ s. s.auth_session_id is id) db.stored.sessions
        ≡ some s)
      × (Table.find user_key s.auth_session_user_id db.stored.users.rows ≡ some v)
      × (u ≡ record v { session_expires = some s.auth_session_expires })
      × (now ≤ s.auth_session_expires)
unfolding get_user_by_session_id Store.read_user_by_session_id
get_user_by_session_id_ok now id u db db' h =
    let m = Store.read_user_by_session_id id in
    let (v, d, hr, hc) =
      >>=-eq-ok (statement m)
        (λ u.
          if is_expired now u.session_expires then raise (message "session expired") else pure u)
        db h in
    let (s, w, at, row, made) =
      session_user_lem (find_by (Store.has_session_id id) db.stored.sessions) db.stored.users.rows v
        (read_by_session id v d db hr) in
    let live = not_expired now v u d db' hc in
    (s, w, at, row, live.0 ∙ made, unexpired now s w v made live.1)

module _ (bcrypt : Bcrypt) where
  -- A user that has been created on a database that refuses no statement logs in by the name and
  -- the password given, when the login directly follows, if bcrypt accepts a password against the
  -- hash that it has made of it.
  pub created_logs_in :
      (salt : String) (role : Role) (name password : String) (u : User) (t : Tables) (db : Db)
      → ((hash : String)
          → bcrypt.generate salt password ≡ ok hash
          → bcrypt.compare hash password ≡ none)
      → create_user bcrypt salt role name password (willing t) ≡ (ok u, db)
      → get_user_by_username_and_password bcrypt name password db ≡ (ok u, db)
  unfolding create_user get_user_by_username_and_password statement Store.create_user
      Store.insert_user Store.read_user_by_username Store.new_user
  created_logs_in salt role name password u t db accepts h =
      elim (Result-cases (bcrypt.generate salt password)) [
        | inl (hash, g) ↦ elim (Bool-cases (any (Store.has_username name) t.users.rows)) [
          | inl taken ↦ absurd (ground (arith, g, taken, h))
          | inr free ↦ elim (Bool-cases (is_role role)) [
            | inl known ↦
                let nu = Store.new_user (suc t.users.last_id) role name hash none in
                let made = Store.add_user (λ id. Store.new_user id role name hash none) t in
                let eq : ◌≡◌ {A = Result User × Db} (made.0, willing made.1) (ok u, db) =
                  rw (g, free, known) at h in
                let found =
                  find_by-append (Store.has_username name) t.users.rows nu free
                    ((eq_iff name name).1 refl) in
                let fits = accepts hash g in
                sym (ap (λ p. get_user_by_username_and_password bcrypt name password p.1) eq)
                ∙ rw (found, fits) refl
                ∙ eq
            | inr unknown ↦ absurd (ground (arith, g, free, unknown, h))
          ]
        ]
        | inr (inl (x, g)) ↦ absurd (ground (arith, g, h))
        | inr (inr g) ↦ absurd (ground (arith, g, h))
      ]

has_row :
    (k : ℕ) (users : List User)
    → is_some (Table.find user_key k users) ≡ true
    → (v : User) × (Table.find user_key k users ≡ some v)
has_row k users h = elim (Option-cases (Table.find user_key k users)) [
  | inl e ↦ absurd (ground (arith, e, h))
  | inr found ↦ found
]

answered :
    (b : Bool) (v : User) (db : Db)
    → (if b then raise (message "session expired") else pure v) db
      ≡ (if b then err (message "session expired") else ok v, db)
answered true v db = refl
answered false v db = refl

-- A session that has been opened on a database that refuses no statement, and is read with nothing
-- changed in between, gives its user up to the time at which it expires, and after that the error
-- that it has expired; neither changes the database.
pub opened_session_lem :
    (id : String) (now later expires k : ℕ) (s : AuthSession) (t : Tables) (db : Db)
    → create_auth_session id now expires k (willing t) ≡ (ok s, db)
    → (v : User) × (v.user_id ≡ k)
      × (get_user_by_session_id later id db
          ≡ (if ltb (now + expires) later then err (message "session expired") else ok v, db))
unfolding create_auth_session get_user_by_session_id statement Store.create_auth_session
    Store.read_user_by_session_id Store.new_session
opened_session_lem id now later expires k s t db h =
    elim (Bool-cases (any (Store.has_session_id id) t.sessions)) [
      | inl taken ↦ absurd (ground (arith, taken, h))
      | inr free ↦ elim (Bool-cases (has_key user_key k t.users)) [
        | inr absent ↦ absurd (ground (arith, free, absent, h))
        | inl present ↦
            let ns = Store.new_session id k (now + expires) in
            let made = Store.add_session ns t in
            let eq : ◌≡◌ {A = Result AuthSession × Db} (made.0, willing made.1) (ok s, db) =
              rw (free, present) at h in
            let found =
              find_by-append (Store.has_session_id id) t.sessions ns free ((eq_iff id id).1 refl) in
            let (v, row) = has_row k t.users.rows present in
            let at : ◌≡◌ {A = Db} (willing made.1) db = ap (λ p. p.1) eq in
            (
              record v { session_expires = some (now + expires) },
              Table.key-find user_key k t.users.rows row,
              rw (sym at) (rw (found, row) (answered (ltb (now + expires) later) _ _)),
            )
      ]
    ]
