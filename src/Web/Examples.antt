-- ===== src/Web/Examples.antt =====
-- Requests to the routes of `internal/handler`.
use simple_ci.Base.{◌≡◌, refl, none, some, true, if◌then◌else◌}
use simple_ci.Base.Errors.{ok}
use simple_ci.Base.Exec.{pure}
use simple_ci.Store.{is_superuser}
use simple_ci.Store.Table
use simple_ci.Store.Tables.{user_key}
use simple_ci.Users.Examples.{root, ann, tables}
use simple_ci.Users.Sessions.{willing}
use simple_ci.Web.{Visit, Talk, Handler, page}
use simple_ci.Web.Guards.{guarded, guards_of, post_users}
use simple_ci.Web.Guards.Access.{access, may, denied, guarded-may}
use simple_ci.Web.UserPages.{delete_user}
use simple_ci.Web.UserPages.Superusers.{delete_user-Superuser}

-- An operator asks for what only an admin may do.
abbrev visit : Visit
visit = record { user = some ann; hx = true }

abbrev handler : Handler
handler v = pure (page "UserRow")

abbrev talk : Talk
talk = record { db = willing tables; cookie = none }

guarded-may_example : guarded (guards_of post_users) handler visit ≡ (
    if may (access post_users) (some ann)
    then handler visit
    else pure (denied (access post_users) visit))
guarded-may_example = guarded-may post_users handler visit

delete_user-Superuser_example :
    let w = (delete_user (ok (record { user_id = 1; role_id = 0 })) visit talk).1 in
    (Table.find user_key 1 w.db.stored.users.rows ≡ some root) × (is_superuser (some root) ≡ true)
unfolding Table.find is_superuser
delete_user-Superuser_example =
    delete_user-Superuser (ok (record { user_id = 1; role_id = 0 })) visit 1 root talk (refl, refl)
