-- ===== src/Store/Tables/Users/Superuser.antt =====
-- What making a superuser, `CreateSuperuser` of `internal/store/user_sqlitestore.go`, leaves alone.
use simple_ci.Base.{◌≡◌, ℕ, String, arith}
use simple_ci.Store.Tables.{Tables}
use simple_ci.Store.Tables.Users.{create_superuser, insert_user}

pub create_superuser_pipelines :
    (now : ℕ) (username hash : String) (t : Tables)
    → (create_superuser now username hash t).1.pipelines ≡ t.pipelines
unfolding create_superuser insert_user
create_superuser_pipelines now username hash t = ground arith
