-- ===== src/Web/UserPages/Superusers.antt =====
-- What the pages of the users cannot do to a superuser: `DeleteUser` of `internal/handler/users.go`.
use simple_ci.Base.{
  ◌≡◌, sym, ap, ◌∙◌, ◌⊎◌, inl, inr, ◌≢◌, Option, none, some, true, false, ℕ, ◌==◌, arith,
  Bool-cases,
}
use simple_ci.Base.Errors.{Error, Result, ok, err, panic}
use simple_ci.Base.Exec.{Exec, pure}
use simple_ci.Store.{User, is_superuser}
use simple_ci.Store.Table
use simple_ci.Store.Driver.{statement, statement_outcome}
use simple_ci.Store.Tables.{user_key, or_no_rows}
use simple_ci.Store.Tables.Users as Store
use simple_ci.Users as Service
use simple_ci.Users.{Db}
use simple_ci.Web.{no_content, Reply, Visit, Talk, on_db, attempt, branch}
use simple_ci.Web.UserPages.{PatchUserParams, delete_user, delete_one, not_deleted, user_not_found}

found_ok : (o : Option User) (x : User) → or_no_rows o ≡ ok x → o ≡ some x
found_ok none x h = absurd (cc h)
found_ok (some y) x h = ground (arith, h)

abbrev pub Superuser : ℕ → User → Talk → Type 0
Superuser k u w =
    (Table.find user_key k w.db.stored.users.rows ≡ some u) × (is_superuser (some u) ≡ true)

-- What is answered at the end changes nothing.
attempt_last :
    {A : Type 0} (m : Exec Db A) (otherwise : Error → Reply) (r : Reply) (w : Talk)
    → (attempt (on_db m) otherwise (λ a. pure r) w).1.db ≡ (m w.db).1
attempt_last m otherwise r w = ground arith

deleted_row :
    (k : ℕ) (u x : User) (db : Db)
    → Table.find user_key k db.stored.users.rows ≡ some u
    → x.user_id ≢ k
    → Table.find user_key k (Service.delete_user x db).1.stored.users.rows ≡ some u
unfolding Service.delete_user Store.delete_user
deleted_row k u x db row ne = elim (statement_outcome (Store.delete_user x.user_id) db) [
  | inl (e, r, s) ↦ ap (λ t. Table.find user_key k t.users.rows) s ∙ row
  | inr (r, s) ↦
      let off : (k == x.user_id) ≡ false = ground (arith, ne) in
      ap (λ t. Table.find user_key k t.users.rows) s
      ∙ Table.find-remove user_key x.user_id k db.stored.users.rows
      ∙ rw off row
]

-- The user that is deleted is another one.
deleting_other :
    (v : Visit) (k j : ℕ) (u x : User) (w : Talk)
    → Superuser k u w
    → Table.find user_key j w.db.stored.users.rows ≡ some x
    → Superuser k u (delete_one v x w).1
deleting_other v k j u x w h row = elim (Bool-cases (is_superuser (some x))) [
  | inl e ↦ rw e h
  | inr e ↦
      let id : x.user_id ≡ j = Table.key-find user_key j w.db.stored.users.rows row in
      let ne : x.user_id ≢ k = λ same.
        two_rows u x
          (sym h.0 ∙ ap (λ i. Table.find user_key i w.db.stored.users.rows) (sym same ∙ id) ∙ row)
          h.1 e in
      let last = attempt_last (Service.delete_user x) (not_deleted v) no_content w in
      rw e (
        ap (λ d. Table.find user_key k d.stored.users.rows) last ∙ deleted_row k u x w.db h.0 ne,
        h.1,
      )
]
  where
    two_rows :
        (u x : User)
        → some u ≡ some x
        → is_superuser (some u) ≡ true
        → ¬ (is_superuser (some x) ≡ false)
    two_rows u x same super plain = absurd (cc (same, super, plain))

-- No request to delete a user removes or changes a superuser.
pub delete_user-Superuser :
    (bound : Result PatchUserParams) (v : Visit) (k : ℕ) (u : User) (w : Talk)
    → Superuser k u w
    → Superuser k u (delete_user bound v w).1
unfolding delete_user Service.get_user_by_id Store.read_user_by_id
delete_user-Superuser (err e) v k u w h = h
delete_user-Superuser panic v k u w h = h
delete_user-Superuser (ok pup) v k u w h =
    let m = Store.read_user_by_id pup.user_id in
    let o = Table.find user_key pup.user_id w.db.stored.users.rows in
    go (statement m w.db) (elim (statement_outcome m w.db) [
      | inl (e, r, s) ↦ (s, inl (e, r))
      | inr (r, s) ↦ (s, inr r)
    ])
  where
    go :
        (p : Result User × Db)
        → (p.1.stored ≡ w.db.stored)
          × (((e : Error) × (p.0 ≡ err e))
              ⊎ (p.0 ≡ or_no_rows (Table.find user_key pup.user_id w.db.stored.users.rows)))
        → Superuser k u (branch (user_not_found v) (delete_one v) p.0 (record w { db = p.1 })).1
    go (err e, d) f = (ap (λ t. Table.find user_key k t.users.rows) f.0 ∙ h.0, h.1)
    go (panic, d) f = (ap (λ t. Table.find user_key k t.users.rows) f.0 ∙ h.0, h.1)
    go (ok x, d) (same, inl (e, r)) = absurd (cc r)
    go (ok x, d) (same, inr r) =
        deleting_other v k pup.user_id u x (record w { db = d })
          (ap (λ t. Table.find user_key k t.users.rows) same ∙ h.0, h.1)
          (ap (λ t. Table.find user_key pup.user_id t.users.rows) same
            ∙ found_ok (Table.find user_key pup.user_id w.db.stored.users.rows) x (sym r))
