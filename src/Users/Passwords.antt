-- ===== src/Users/Passwords.antt =====
-- Who can change which password, and what a user can log in with: `internal/service/user_service.go`.
use mathlib.Core.Option
use simple_ci.Base.{
  ◌≡◌, refl, sym, ap, ◌∙◌, ◌⊎◌, inl, inr, ℕ, String, Option, none, some, true, false, ==_iff,
  Bool-cases, Option-cases, ◌==◌, if◌then◌else◌, arith,
}
use simple_ci.Base.Errors.{Result-cases, Error, Result, ok, err}
use simple_ci.Base.Exec.{Exec, continue, >>=-eq-ok}
use simple_ci.Store.{User, is_superuser}
use simple_ci.Store.Table
use simple_ci.Store.Driver.{statement, statement_outcome}
use simple_ci.Store.Tables.{Tables, user_key, or_no_rows}
use simple_ci.Store.Tables.Users as Store
use simple_ci.Users.{Db, Bcrypt, change_for, reset_for, change_user_password, reset_user_password}

abbrev pub user_row : Db → ℕ → Option User
user_row db k = Table.find user_key k db.stored.users.rows

read_user :
    (k : ℕ) (db : Db)
    → let p = statement (Store.read_user_by_id k) db in
      (p.1.stored ≡ db.stored)
      × (((e : Error) × (p.0 ≡ err e)) ⊎ (p.0 ≡ or_no_rows (user_row db k)))
unfolding Store.read_user_by_id
read_user k db = elim (statement_outcome (Store.read_user_by_id k) db) [
  | inl (e, r, s) ↦ (s, inl (e, r))
  | inr (r, s) ↦ (s, inr r)
]

or_ok :
    {r : Result User} {o : Option User} {u : User}
    → ((e : Error) × (r ≡ err e)) ⊎ (r ≡ or_no_rows o)
    → o ≡ some u
    → ((e : Error) × (r ≡ err e)) ⊎ (r ≡ ok u)
or_ok (inl e) row = inl e
or_ok (inr e) row = inr (e ∙ ap or_no_rows row)

after_read :
    (p : Result User × Db) (f : User → Exec Db (Unit {0})) (u : User) (s : Tables)
    → p.1.stored ≡ s
    → ((e : Error) × (p.0 ≡ err e)) ⊎ (p.0 ≡ ok u)
    → (f u p.1).1.stored ≡ s
    → (continue p.0 f p.1).1.stored ≡ s
after_read p f u s same (inl (e, r)) h = rw r same
after_read p f u s same (inr r) h = rw r h

found_row :
    (k : ℕ) (u : User) (d db : Db)
    → statement (Store.read_user_by_id k) db ≡ (ok u, d)
    → user_row db k ≡ some u
found_row k u d db h = go (user_row db k) (read_user k db).1
  where
    go :
        (o : Option User)
        → ((e : Error) × ((statement (Store.read_user_by_id k) db).0 ≡ err e))
          ⊎ ((statement (Store.read_user_by_id k) db).0 ≡ or_no_rows o)
        → o ≡ some u
    go none (inl (e, r)) = absurd (ground (arith, r, h))
    go none (inr r) = absurd (ground (arith, r, h))
    go (some v) (inl (e, r)) = absurd (ground (arith, r, h))
    go (some v) (inr r) = ground (arith, r, h)

password_written :
    (id : ℕ) (hash : String) (on : Option ℕ) (d d' : Db)
    → statement (Store.update_user_password id hash on) d ≡ (ok tt, d')
    → d'.stored.users.rows
      ≡ Table.update user_key id (Store.set_password hash on) d.stored.users.rows
unfolding Store.update_user_password
password_written id hash on d d' h =
    elim (statement_outcome (Store.update_user_password id hash on) d) [
      | inl (e, r, s) ↦ absurd (ground (arith, r, h))
      | inr (r, s) ↦ ap (λ t. t.users.rows) (sym (ap (λ p. p.1.stored) h) ∙ s)
    ]

written_row :
    (k : ℕ) (hash : String) (on : Option ℕ) (u : User) (d db d' : Db)
    → u.user_id ≡ k
    → user_row db k ≡ some u
    → d.stored ≡ db.stored
    → statement (Store.update_user_password u.user_id hash on) d ≡ (ok tt, d')
    → (j : ℕ)
    → user_row d' j ≡ (if j == k then some (Store.set_password hash on u) else user_row db j)
written_row k hash on u d db d' id row same wrote j =
    let f = Store.set_password hash on in
    let rows : d'.stored.users.rows ≡ Table.update user_key k f db.stored.users.rows =
      password_written u.user_id hash on d d' wrote
      ∙ ap (λ t. Table.update user_key u.user_id f t.users.rows) same
      ∙ ap (λ i. Table.update user_key i f db.stored.users.rows) id in
    ap (Table.find user_key j) rows
    ∙ Table.find-update user_key k j f db.stored.users.rows (λ u. refl)
    ∙ at_row j
  where
    at_row :
        (j : ℕ)
        → (if j == k
            then Option.map (Store.set_password hash on) (user_row db j)
            else user_row db j)
          ≡ (if j == k then some (Store.set_password hash on u) else user_row db j)
    at_row j = elim (Bool-cases (j == k)) [
      | inl e ↦
          let eq : j ≡ k = (==_iff j k).0 e in
          rw e (
            ap (λ i. Option.map (Store.set_password hash on) (user_row db i)) eq
            ∙ ap (Option.map (Store.set_password hash on)) row)
      | inr e ↦ rw e refl
    ]

module _ (bcrypt : Bcrypt) where
  -- Neither changing nor resetting the password of a superuser changes anything in the database.
  pub superuser_password_kept :
      (salt old new : String) (now k : ℕ) (u : User) (db : Db)
      → user_row db k ≡ some u
      → is_superuser (some u) ≡ true
      → ((change_user_password bcrypt salt now k old new db).1.stored ≡ db.stored)
        × ((reset_user_password bcrypt salt k new db).1.stored ≡ db.stored)
  unfolding change_user_password reset_user_password
  superuser_password_kept salt old new now k u db row super =
      let read = read_user k db in
      let here = or_ok read.1 row in
      (
        after_read (statement (Store.read_user_by_id k) db) (change_for bcrypt salt now old new) u
            db.stored read.0 here (rw super read.0),
        after_read (statement (Store.read_user_by_id k) db) (reset_for bcrypt salt new) u db.stored
            read.0 here (rw super read.0),
      )

  change_for-eq-ok :
      (salt old new : String) (now : ℕ) (u : User) (db db' : Db)
      → change_for bcrypt salt now old new u db ≡ (ok tt, db')
      → (hash : String) × (is_superuser (some u) ≡ false)
        × (bcrypt.compare u.password_hash old ≡ none)
        × (bcrypt.generate salt new ≡ ok hash)
        × (statement (Store.update_user_password u.user_id hash (some now)) db ≡ (ok tt, db'))
  change_for-eq-ok salt old new now u db db' h = elim (Bool-cases (is_superuser (some u))) [
    | inl e ↦ absurd (ground (arith, e, h))
    | inr e ↦ elim (Option-cases (bcrypt.compare u.password_hash old)) [
      | inl c ↦ elim (Result-cases (bcrypt.generate salt new)) [
        | inl (hash, g) ↦ (hash, e, c, g, rw (e, c, g) at h)
        | inr (inl (x, g)) ↦ absurd (ground (arith, e, c, g, h))
        | inr (inr g) ↦ absurd (ground (arith, e, c, g, h))
      ]
      | inr (x, c) ↦ absurd (ground (arith, e, c, h))
    ]
  ]

  -- A change of a password that succeeds is of a stored user who is not a superuser and whose old
  -- password bcrypt accepts, and only the row of that user changes: it has the hash of the new
  -- password, and the time.
  pub change_user_password_ok :
      (salt old new : String) (now k : ℕ) (db db' : Db)
      → change_user_password bcrypt salt now k old new db ≡ (ok tt, db')
      → (u : User) × (hash : String) × (user_row db k ≡ some u)
        × (is_superuser (some u) ≡ false)
        × (bcrypt.compare u.password_hash old ≡ none)
        × (bcrypt.generate salt new ≡ ok hash)
        × ((j : ℕ)
            → user_row db' j
              ≡ (if j == k then some (Store.set_password hash (some now) u) else user_row db j))
  unfolding change_user_password
  change_user_password_ok salt old new now k db db' h =
      let (u, d, hr, hc) =
        >>=-eq-ok (statement (Store.read_user_by_id k)) (change_for bcrypt salt now old new) db h in
      let (hash, plain, known, made, wrote) = change_for-eq-ok salt old new now u d db' hc in
      let row = found_row k u d db hr in
      let same : d.stored ≡ db.stored = sym (ap (λ p. p.1.stored) hr) ∙ (read_user k db).0 in
      let id : u.user_id ≡ k = Table.key-find user_key k db.stored.users.rows row in
      (u, hash, row, plain, known, made, written_row k hash (some now) u d db db' id row same wrote)
