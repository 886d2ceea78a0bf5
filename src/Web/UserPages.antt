-- ===== src/Web/UserPages.antt =====
-- `UserHandler` of `internal/handler/users.go`.
pub mod Superusers
use simple_ci.Base.{
  String, ◌is◌, Option, none, some, Bool, true, false, not, ◌<>◌, ◌==◌, ℕ, if◌then◌else◌, is_some,
}
use simple_ci.Base.Errors.{Error, is_no_rows, Result, ok, err, panic}
use simple_ci.Base.Exec.{Exec, pure, lift, ◌>>=◌, ◌>>◌}
use simple_ci.Store.{User, Role, is_superuser, to_string}
use simple_ci.Users as Service
use simple_ci.Users.{Bcrypt}
use simple_ci.Web.{
  Reply, hx_redirect, page, toast, no_content, Handler, Visit, Talk, removed, new_error, on_db,
  set_cookie, attempt, is_unique_constraint_error,
}
use simple_ci.Web.Auth.{UserParams, deref_user}

-- `internal/handler/params.go`
pub record PatchUserParams : Type 0 where
  pub user_id : ℕ
  pub role_id : Role

pub record PatchUserPasswordParams : Type 0 where
  pub user_id : ℕ
  pub old_password : String
  pub password : String
  pub password_confirm : String

abbrev invalid_data : Visit → Error → Reply
invalid_data v e = new_error v (some e) 400 "invalid user data"

abbrev user_not_found : Visit → Error → Reply
user_not_found v e =
    if is_no_rows e
    then new_error v (some e) 400 "user not found"
    else new_error v (some e) 500 "something went wrong"

-- `ListUsers` gives no `sql.ErrNoRows`, which would show the page as well.
pub get_users : Handler
get_users v =
    attempt (on_db Service.list_users)
      (λ e.
        if is_no_rows e then page "UsersPage" else new_error v (some e) 500 "unable to list users")
      (λ users. pure (page "UsersPage"))

abbrev not_created : Visit → String → Error → Reply
not_created v username e =
    if is_unique_constraint_error e
    then new_error v (some e) 409 ("A user with username '" <> username <> "' already exists")
    else new_error v (some e) 500 "Unable to create user"

-- The role is whatever the form says.
pub post_users : Bcrypt → String → Result UserParams → Handler
post_users bcrypt salt bound v = attempt (lift bound) (invalid_data v) λ up.
    attempt (on_db (Service.create_user bcrypt salt up.user_role_id up.username up.password))
      (not_created v up.username) (λ u. pure (page "UserRow"))

change_own : Bcrypt → String → ℕ → PatchUserPasswordParams → Visit → User → Exec Talk Reply
change_own bcrypt salt now pup v u =
    if pup.user_id == u.user_id
    then attempt
        (on_db
          (Service.change_user_password bcrypt salt now pup.user_id pup.old_password pup.password))
        (λ e. new_error v (some e) 500 "unable to change user's password")
        (λ done. set_cookie removed >> pure (hx_redirect "/"))
    else pure (new_error v none 403 "unable to change another user's password")

pub patch_change_user_password : Bcrypt → String → ℕ → Result PatchUserPasswordParams → Handler
unfolding change_own
patch_change_user_password bcrypt salt now bound v = attempt (lift bound) (invalid_data v) λ pup.
    if pup.password is pup.password_confirm
    then (lift (deref_user v.user) >>= change_own bcrypt salt now pup v)
    else pure (new_error v none 400 "passwords do not match")

pub patch_user_password : Bcrypt → String → ℕ → Result PatchUserPasswordParams → Handler
patch_user_password bcrypt salt now bound v = attempt (lift bound) (invalid_data v) λ pup.
    if pup.password is pup.password_confirm
    then attempt (on_db (Service.get_user_by_id pup.user_id)) (user_not_found v) (λ u.
      attempt
        (on_db
          (Service.change_user_password bcrypt salt now pup.user_id pup.old_password pup.password))
        (λ e. new_error v (some e) 500 "unable to update user's password")
        (λ done. pure (toast ("User '" <> u.username <> "' password updated"))))
    else pure (new_error v none 400 "passwords do not match")

pub patch_reset_user_password : Bcrypt → String → Result PatchUserPasswordParams → Handler
patch_reset_user_password bcrypt salt bound v = attempt (lift bound) (invalid_data v) λ pup.
    attempt (on_db (Service.get_user_by_id pup.user_id)) (user_not_found v) λ u.
      attempt (on_db (Service.reset_user_password bcrypt salt pup.user_id pup.password))
        (λ e. new_error v (some e) 500 "unable to reset user's password")
        (λ done. pure (toast ("Password reset for '" <> u.username <> "'")))

abbrev not_deleted : Visit → Error → Reply
not_deleted v e =
    if is_no_rows e
    then new_error v (some e) 400 "user not found"
    else new_error v (some e) 500 "unable to delete user."

abbrev delete_one : Visit → User → Exec Talk Reply
delete_one v user =
    if is_superuser (some user)
    then pure (new_error v none 403 "cannot delete superuser")
    else attempt (on_db (Service.delete_user user)) (not_deleted v) (λ done. pure no_content)

pub delete_user : Result PatchUserParams → Handler
delete_user bound v =
    attempt (lift bound) (invalid_data v)
      λ pup. attempt (on_db (Service.get_user_by_id pup.user_id)) (user_not_found v) (delete_one v)

pub patch_user_role : Result PatchUserParams → Handler
patch_user_role bound v = attempt (lift bound) (invalid_data v) λ pu.
    attempt (on_db (Service.get_user_by_id pu.user_id)) (user_not_found v) λ u.
      attempt (on_db (Service.update_user_role pu.user_id pu.role_id))
        (λ e. new_error v (some e) 500 "unable to update user role")
        (λ done.
          pure (
            toast ("user '" <> u.username <> "' role updated to '" <> to_string pu.role_id <> "'")))

pub get_profile_page : Handler
get_profile_page v = pure (page "ProfilePage")
