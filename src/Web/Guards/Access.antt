-- ===== src/Web/Guards/Access.antt =====
-- Who gets to the handler of a route: the middleware of `internal/handler/middleware.go` as the
-- `Setup…Routes` functions put it together.
use simple_ci.Base.{
  ◌≡◌, refl, Option, none, some, List, [], ◌∷◌, Bool, true, false, not, ◌&&◌, ltb, leb,
  if◌then◌else◌, arith, Bool-cases, inl, inr,
}
use simple_ci.Base.Exec.{pure}
use simple_ci.Store.{User, Role, admin, superuser}
use simple_ci.Web.{Reply, redirect, Handler, Visit, new_error}
use simple_ci.Web.Guards.{
  has_changed_password, Guard, logged_out, authenticated, at_least, guarded, guards_of,
  already_logged_in, is_authenticated, role_middleware, Route, get_login_page, get_log_out,
  post_login, get_set_password_page, post_set_password, get_app_page, get_users, post_users,
  get_profile_page, delete_user, patch_change_user_password, patch_user_password,
  patch_reset_user_password, patch_user_role, get_credentials_page, post_credentials,
  patch_credential, delete_credential, get_credential_page, get_agents_page, post_agent,
  patch_agent, get_agent_page, delete_agent, post_test_agent_connection,
  post_pipeline_run_webhook_trigger, get_pipelines_page, post_pipeline, patch_pipeline,
  get_pipeline_page, get_pipeline_card_content, delete_pipeline, patch_pipeline_schedule,
  get_latest_pipeline_runs, post_pipeline_run, get_pipeline_run_page, get_pipeline_runs_page,
  get_pipeline_runs_list, get_pipeline_run_sse, get_pipeline_run_output, get_pipeline_run_status,
  get_pipeline_run_artifacts, post_cancel_pipeline_run, get_api_keys_page, post_api_key,
  delete_api_key,
}

-- Who may use a route.
pub data Access : Type 0 where
  everyone visitors : Access
  members : Role → Access

pub access : Route → Access
access get_login_page = visitors
access get_log_out = everyone
access post_login = everyone
access get_set_password_page = everyone
access post_set_password = everyone
access post_pipeline_run_webhook_trigger = everyone
access get_users = members admin
access post_users = members admin
access delete_user = members admin
access patch_reset_user_password = members admin
access patch_user_role = members superuser
access post_credentials = members admin
access patch_credential = members admin
access delete_credential = members admin
access get_api_keys_page = members admin
access post_api_key = members admin
access delete_api_key = members admin
access _ = members 0

abbrev pub may : Access → Option User → Bool
may everyone o = true
may visitors none = true
may visitors (some u) = not (has_changed_password u)
may (members role) none = false
may (members role) (some u) = has_changed_password u && leb role u.user_role_id

-- What someone is told who may not use a route.
abbrev pub denied : Access → Visit → Reply
denied everyone v = redirect "/"
denied visitors v = redirect "/app"
denied (members role) v = elim v.user [
  | none ↦ redirect "/"
  | some u ↦
      if has_changed_password u
      then new_error v none 403 "invalid permissions"
      else redirect "/auth/set-password"
]

abbrev visit : Option User → Bool → Visit
visit o hx = record { user = o; hx = hx }

abbrev Protected : List Guard → Access → Type 0
Protected gs a =
    (h : Handler) (o : Option User) (hx : Bool)
    → guarded gs h (visit o hx) ≡ (if may a o then h (visit o hx) else pure (denied a (visit o hx)))

open_to_all : Protected [] everyone
unfolding guarded
open_to_all h o hx = refl

visitors_only : Protected (logged_out ∷ []) visitors
unfolding guarded already_logged_in
visitors_only h none hx = refl
visitors_only h (some u) hx = elim (Bool-cases (has_changed_password u)) [
  | inl p ↦ rw p refl
  | inr p ↦ rw p refl
]

any_member : Protected (authenticated ∷ []) (members 0)
unfolding guarded is_authenticated
any_member h none hx = refl
any_member h (some u) hx =
    let any : leb 0 u.user_role_id ≡ true = ground arith in
    elim (Bool-cases (has_changed_password u)) [ inl p ↦ rw (p, any) refl | inr p ↦ rw p refl ]

members_only : (role : Role) → Protected (authenticated ∷ at_least role ∷ []) (members role)
unfolding guarded is_authenticated role_middleware
members_only role h none hx = refl
members_only role h (some u) hx = elim (Bool-cases (has_changed_password u)) [
  | inr p ↦ rw p refl
  | inl p ↦ elim (Bool-cases (ltb u.user_role_id role)) [
    | inl low ↦
        let not_enough : leb role u.user_role_id ≡ false = ground (arith, low) in
        rw (p, low, not_enough) refl
    | inr high ↦
        let enough : leb role u.user_role_id ≡ true = ground (arith, high) in
        rw (p, high, enough) refl
  ]
]

route-Protected : (route : Route) → Protected (guards_of route) (access route)
unfolding guards_of access
route-Protected get_login_page = visitors_only
route-Protected get_log_out = open_to_all
route-Protected post_login = open_to_all
route-Protected get_set_password_page = open_to_all
route-Protected post_set_password = open_to_all
route-Protected get_app_page = any_member
route-Protected get_users = members_only admin
route-Protected post_users = members_only admin
route-Protected get_profile_page = any_member
route-Protected delete_user = members_only admin
route-Protected patch_change_user_password = any_member
route-Protected patch_user_password = any_member
route-Protected patch_reset_user_password = members_only admin
route-Protected patch_user_role = members_only superuser
route-Protected get_credentials_page = any_member
route-Protected post_credentials = members_only admin
route-Protected patch_credential = members_only admin
route-Protected delete_credential = members_only admin
route-Protected get_credential_page = any_member
route-Protected get_agents_page = any_member
route-Protected post_agent = any_member
route-Protected patch_agent = any_member
route-Protected get_agent_page = any_member
route-Protected delete_agent = any_member
route-Protected post_test_agent_connection = any_member
route-Protected post_pipeline_run_webhook_trigger = open_to_all
route-Protected get_pipelines_page = any_member
route-Protected post_pipeline = any_member
route-Protected patch_pipeline = any_member
route-Protected get_pipeline_page = any_member
route-Protected get_pipeline_card_content = any_member
route-Protected delete_pipeline = any_member
route-Protected patch_pipeline_schedule = any_member
route-Protected get_latest_pipeline_runs = any_member
route-Protected post_pipeline_run = any_member
route-Protected get_pipeline_run_page = any_member
route-Protected get_pipeline_runs_page = any_member
route-Protected get_pipeline_runs_list = any_member
route-Protected get_pipeline_run_sse = any_member
route-Protected get_pipeline_run_output = any_member
route-Protected get_pipeline_run_status = any_member
route-Protected get_pipeline_run_artifacts = any_member
route-Protected post_cancel_pipeline_run = any_member
route-Protected get_api_keys_page = members_only admin
route-Protected post_api_key = members_only admin
route-Protected delete_api_key = members_only admin

-- A member of at least the role that a route needs, with a password of their own, gets to its
-- handler; anyone else is sent away or refused, whatever the handler is, and nothing changes. Only
-- the log in, the log out, the page of a first password and the webhook are open to everyone.
pub guarded-may :
    (route : Route) (h : Handler) (v : Visit)
    → guarded (guards_of route) h v
      ≡ (if may (access route) v.user then h v else pure (denied (access route) v))
guarded-may route h v = route-Protected route h v.user v.hx
