-- ===== src/Store/Tables/Fleet/Controller.antt =====
-- What making the controller's agent, `CreateControllerAgent` of `internal/store/agent_sqlitestore.go`,
-- leaves alone.
use simple_ci.Base.{◌≡◌, Bool, arith}
use simple_ci.Store.Tables.{Tables}
use simple_ci.Store.Tables.Fleet.{create_controller_agent, insert_agent}

pub create_controller_agent_pipelines :
    (windows : Bool) (t : Tables) → (create_controller_agent windows t).1.pipelines ≡ t.pipelines
unfolding create_controller_agent insert_agent
create_controller_agent_pipelines windows t = ground arith
