-- ===== src/Web/Guards.antt =====
-- `internal/handler/middleware.go`, the routes of the `Setup…Routes` functions with the middleware
-- in front of each, and the methods that need a role.
pub mod Access
use simple_ci.Base.{
  ◌≡◌, refl, ap, ◌∙◌, String, ◌is◌, Option, none, some, List, [], ◌∷◌, Bool, true, false, not, ◌&&◌,
  ◌||◌, ℕ, ltb, leb, ◌==◌, if◌then◌else◌, arith, Bool-cases, inl, inr,
}
use simple_ci.Base.Errors.{Error, Result, ok, err, panic}
use simple_ci.Base.Exec.{Exec, pure, ◌>>=◌, ◌>>◌}
use simple_ci.Store.{User, Role, admin, superuser}
use simple_ci.Users.{get_user_by_session_id}
use simple_ci.Web.{Reply, redirect, Handler, Visit, Talk, removed, new_error, on_db, set_cookie}

-- The time is counted from Go's zero time.
abbrev pub has_changed_password : User → Bool
has_changed_password u = elim u.password_changed_on [ none ↦ false | some t ↦ not (t == 0) ]

no_user : Result User → Exec Talk (Option User)
no_user (ok u) w = (ok (some u), w)
no_user (err e) w = (set_cookie removed >> pure none) w
no_user panic w = (panic, w)

-- The user of the session that the cookie names; a session that is no good loses its cookie.
-- `cookie` is what `GetSessionID` gives.
session_user : ℕ → Result String → Exec Talk (Option User)
unfolding no_user
session_user now (ok id) w =
    let (r, w') = on_db (get_user_by_session_id now id) w in
    if id is "" then (ok none, w) else no_user r w'
session_user now (err e) w = (ok none, w)
session_user now panic w = (panic, w)

pub session_middleware : ℕ → Result String → Bool → Handler → Exec Talk Reply
unfolding session_user
session_middleware now cookie hx next = do
  user ← session_user now cookie
  next (record { user = user; hx = hx })

pub already_logged_in : Handler → Handler
already_logged_in next v = elim v.user [
  | none ↦ next v
  | some u ↦ if has_changed_password u then pure (redirect "/app") else next v
]

pub is_authenticated : Handler → Handler
is_authenticated next v = elim v.user [
  | none ↦ pure (redirect "/")
  | some u ↦ if has_changed_password u then next v else pure (redirect "/auth/set-password")
]

pub role_middleware : Role → Handler → Handler
role_middleware required next v = elim v.user [
  | none ↦ pure (new_error v none 403 "invalid permissions")
  | some u ↦
      if ltb u.user_role_id required
      then pure (new_error v none 403 "invalid permissions")
      else next v
]

pub data Guard : Type 0 where
  logged_out authenticated : Guard
  at_least : Role → Guard

guard : Guard → Handler → Handler
unfolding already_logged_in is_authenticated role_middleware
guard logged_out = already_logged_in
guard authenticated = is_authenticated
guard (at_least role) = role_middleware role

-- The middleware of a route, the outermost first.
pub guarded : List Guard → Handler → Handler
unfolding guard
guarded [] h = h
guarded (g ∷ gs) h = guard g (guarded gs h)

pub data Route : Type 0 where
  get_login_page get_log_out post_login get_set_password_page post_set_password : Route
  get_app_page : Route
  get_users post_users get_profile_page delete_user : Route
  patch_change_user_password patch_user_password patch_reset_user_password patch_user_role : Route
  get_credentials_page post_credentials patch_credential delete_credential get_credential_page :
      Route
  get_agents_page post_agent patch_agent get_agent_page delete_agent post_test_agent_connection :
      Route
  post_pipeline_run_webhook_trigger : Route
  get_pipelines_page post_pipeline patch_pipeline get_pipeline_page get_pipeline_card_content :
      Route
  delete_pipeline patch_pipeline_schedule get_latest_pipeline_runs post_pipeline_run : Route
  get_pipeline_run_page get_pipeline_runs_page get_pipeline_runs_list get_pipeline_run_sse : Route
  get_pipeline_run_output get_pipeline_run_status get_pipeline_run_artifacts : Route
  post_cancel_pipeline_run : Route
  get_api_keys_page post_api_key delete_api_key : Route

abbrev admin_only : List Guard
admin_only = authenticated ∷ at_least admin ∷ []

pub guards_of : Route → List Guard
guards_of get_login_page = logged_out ∷ []
guards_of get_log_out = []
guards_of post_login = []
guards_of get_set_password_page = []
guards_of post_set_password = []
guards_of get_users = admin_only
guards_of post_users = admin_only
guards_of delete_user = admin_only
guards_of patch_reset_user_password = admin_only
guards_of patch_user_role = authenticated ∷ at_least superuser ∷ []
guards_of post_credentials = admin_only
guards_of patch_credential = admin_only
guards_of delete_credential = admin_only
guards_of post_pipeline_run_webhook_trigger = []
guards_of get_api_keys_page = admin_only
guards_of post_api_key = admin_only
guards_of delete_api_key = admin_only
guards_of _ = authenticated ∷ []

-- A route of `setupEcho`'s group, with its handler.
pub serve : Route → ℕ → Result String → Bool → Handler → Exec Talk Reply
unfolding guards_of guarded session_middleware
serve route now cookie hx h = session_middleware now cookie hx (guarded (guards_of route) h)
