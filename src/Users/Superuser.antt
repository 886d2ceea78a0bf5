-- ===== src/Users/Superuser.antt =====
-- What `InitializeSuperuser` of `internal/service/user_service.go` leaves, on a database that refuses
-- nothing.
use simple_ci.Base.{◌≡◌, refl, sym, ap, ◌∙◌, ℕ, String, List, [], ◌∷◌, filter, ◌==◌}
use simple_ci.Base.Errors.{Result, ok, err, panic}
use simple_ci.Base.Exec.{>>=-eq-ok, lift_ok}
use simple_ci.Store.{User, superuser}
use simple_ci.Store.Driver.{statement}
use simple_ci.Store.Tables.{Tables}
use simple_ci.Store.Tables.Users as Store
use simple_ci.Store.Tables.Users.Superuser.{create_superuser_pipelines}
use simple_ci.Users.{
  Db, Bcrypt, Console, list_superusers, initialize_superuser, create_first, prompt_superuser,
  or_fatal,
}
use simple_ci.Users.Sessions.{willing}

-- The pipelines are what they were, and the database still refuses nothing.
abbrev pub Keeps : Tables → Db → Type 0
Keeps t db = (u : Tables) × (db ≡ willing u) × (u.pipelines ≡ t.pipelines)

prompt-Keeps :
    (bcrypt : Bcrypt) (console : Console) (salt : String) (now : ℕ) (t : Tables) (db : Db)
    → prompt_superuser bcrypt console salt now (willing t) ≡ (ok tt, db)
    → Keeps t db
unfolding prompt_superuser statement
prompt-Keeps bcrypt console salt now t db h =
    let (username, typed, h1) = lift_ok console.username _ (willing t) db h in
    let (password, hidden, h2) = lift_ok console.password _ (willing t) db h1 in
    let (hash, made, h3) = lift_ok (bcrypt.generate salt password) _ (willing t) db h2 in
    let (u, d, stored, last) =
      >>=-eq-ok (statement (Store.create_superuser now username hash)) _ (willing t) h3 in
    let after : willing (Store.create_superuser now username hash t).1 ≡ d = ap (λ q. q.1) stored in
    (
      (Store.create_superuser now username hash t).1,
      sym (ap (λ q. q.1) last) ∙ sym after,
      create_superuser_pipelines now username hash t,
    )

first-Keeps :
    (bcrypt : Bcrypt) (console : Console) (salt : String) (now : ℕ) (us : List User) (t : Tables)
    (db : Db)
    → create_first bcrypt console salt now us (willing t) ≡ (ok tt, db)
    → Keeps t db
unfolding create_first
first-Keeps bcrypt console salt now [] t db h = prompt-Keeps bcrypt console salt now t db h
first-Keeps bcrypt console salt now (u ∷ us) t db h = (t, sym (ap (λ q. q.1) h), refl)

fatal_ok : (p : Result (Unit {0}) × Db) (db : Db) → or_fatal p ≡ (ok tt, db) → p ≡ (ok tt, db)
fatal_ok (ok u, d) db h = h
fatal_ok (err e, d) db h = absurd (cc (ap (λ q. q.0) h))
fatal_ok (panic, d) db h = absurd (cc (ap (λ q. q.0) h))

pub initialize_superuser-Keeps :
    (bcrypt : Bcrypt) (console : Console) (salt : String) (now : ℕ) (t : Tables) (db : Db)
    → initialize_superuser bcrypt console salt now (willing t) ≡ (ok tt, db)
    → Keeps t db
unfolding initialize_superuser list_superusers statement Store.list_superusers
initialize_superuser-Keeps bcrypt console salt now t db h =
    first-Keeps bcrypt console salt now (filter (λ u. u.user_role_id == superuser) t.users.rows) t
      db (fatal_ok _ db h)
