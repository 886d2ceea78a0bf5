-- ===== src/Web/Auth.antt =====
-- `AuthHandler` of `internal/handler/auth.go`. `encode` is what securecookie says to a session id.
use simple_ci.Base.{String, ◌is◌, Option, none, some, ℕ, if◌then◌else◌, is_some}
use simple_ci.Base.Errors.{Error, message, Result, ok, err, panic}
use simple_ci.Base.Exec.{Exec, pure, lift, ◌>>=◌, ◌>>◌}
use simple_ci.Store.{User, Role}
use simple_ci.Users.{
  Bcrypt, get_user_by_username_and_password, create_auth_session, set_user_password,
}
use simple_ci.Web.{
  Reply, redirect, hx_redirect, page, Handler, Visit, Talk, session_cookie, removed, new_error,
  on_db, set_cookie, attempt,
}
use simple_ci.Web.Guards.{has_changed_password}

-- `internal/handler/params.go`
pub record UserParams : Type 0 where
  pub user_id : ℕ
  pub user_role_id : Role
  pub username : String
  pub password : String
  pub password_confirm : String

-- A nil user is not to be followed.
abbrev pub deref_user : Option User → Result User
deref_user none = panic
deref_user (some u) = ok u

pub get_login_page : Handler
get_login_page v = pure (if is_some v.user then redirect "/app" else page "IndexPage")

abbrev encoded : (String → Option Error) → String → Exec Talk (Unit {0})
encoded encode id w = elim (encode id) [
  | some e ↦ (err e, w)
  | none ↦ set_cookie (session_cookie id) w
]

pub post_login : Bcrypt → (String → Option Error) → String → ℕ → ℕ → Result UserParams → Handler
post_login bcrypt encode session_id now expires bound v =
    attempt (lift bound) (λ e. new_error v (some e) 400 "invalid uesr data")
      λ up.
        attempt (on_db (get_user_by_username_and_password bcrypt up.username up.password))
          (λ e. new_error v (some e) 500 "invalid username or password")
          λ u.
            attempt (on_db (create_auth_session session_id now expires u.user_id))
              (λ e. new_error v (some e) 500 "unable to create session")
              λ s.
                attempt (encoded encode s.auth_session_id)
                  (λ e. new_error v (some e) 500 "unable to set session cookie")
                  λ done.
                    pure (
                      hx_redirect (if has_changed_password u then "/app" else "/auth/set-password"))

pub get_log_out : Handler
get_log_out v = set_cookie removed >> pure (redirect "/")

pub get_set_password_page : Handler
get_set_password_page v = pure (page "ChangePasswordPage")

set_own_password : Bcrypt → String → ℕ → UserParams → Visit → User → Exec Talk Reply
set_own_password bcrypt salt now up v u =
    if up.username is u.username
    then attempt (on_db (set_user_password bcrypt salt now u.user_id up.password))
        (λ e. new_error v (some e) 500 "unable to set password")
        (λ done. set_cookie removed >> pure (hx_redirect "/"))
    else pure (new_error v none 400 "invalid username")

pub post_set_password : Bcrypt → String → ℕ → Result UserParams → Handler
unfolding set_own_password
post_set_password bcrypt salt now bound v =
    attempt (lift bound) (λ e. new_error v (some e) 400 "invalid user data")
      λ up.
        if up.password is up.password_confirm
        then (lift (deref_user v.user) >>= set_own_password bcrypt salt now up v)
        else pure (
            new_error v (some (message "password != password confirm")) 400
              "passwords do not match")
