-- ===== src/Start/Ready.antt =====
-- What a start by `main` of `cmd/simpleci/main.go` leaves for the requests and the scheduler.
use simple_ci.Base.{
  ◌≡◌, sym, ap, ◌∙◌, ℕ, String, Bool, [], map, filter, any, is_some, ◌==◌, none, some,
  if◌then◌else◌, false,
}
use simple_ci.Base.Errors.{ok}
use simple_ci.Base.Exec.{>>=-eq-ok}
use simple_ci.Store.Driver.{statement}
use simple_ci.Store.Runs.Interface.{RunStore}
use simple_ci.Store.Tables.{Tables}
use simple_ci.Store.Tables.Fleet as Agents
use simple_ci.Store.Tables.Fleet.Controller.{create_controller_agent_pipelines}
use simple_ci.Store.Tables.Pipelines as Store
use simple_ci.RunQueue.Channels.{new_run_queue}
use simple_ci.Users.{Bcrypt, Console, initialize_superuser}
use simple_ci.Users.Sessions.{willing}
use simple_ci.Users.Superuser.{initialize_superuser-Keeps}
use simple_ci.Fleet as Service
use simple_ci.Pipelines.Queues as Queues
use simple_ci.Pipelines.Queues.{Service, lookup, ids_of}
use simple_ci.Pipelines.Queues.Laws.{free, initialize_run_queues_lem}
use simple_ci.Pipelines.Schedules.{App, Cron, on_db, blocked}
use simple_ci.Pipelines.Schedules.Tasks.{schedule_pipelines}
use simple_ci.Pipelines.Schedules.Tasks.Resumed.{target, scheduled_as, schedule_pipelines-Resumes}
use simple_ci.Start.{or_fatal, initialize_run_queues, start}

module _ (rs : RunStore) where
  open rs use {State}

  -- The program as it starts, with what is stored; its database refuses nothing.
  abbrev pub new_program : Tables → State → App rs
  new_program t runs = record {
    db = willing t;
    runs = runs;
    service = free [];
    jobs = [];
    stuck = false;
  }

  -- After `InitializeRunQueues`
  queues_made :
      (size : ℕ) (t : Tables) (runs : State) (s : Service) (b : App rs)
      → Queues.initialize_run_queues (ok t.pipelines.rows) size (free []) ≡ some (ok tt, s)
      → or_fatal (initialize_run_queues {rs = rs} size) (new_program t runs) ≡ (ok tt, b)
      → b ≡ record (new_program t runs) { service = s }
  unfolding initialize_run_queues statement Store.list_pipelines blocked
  queues_made size t runs s b made h = sym (ap (λ q. q.1) (rw made at h))

  -- After `InitializeSuperuser`
  superuser_made :
      (bcrypt : Bcrypt) (console : Console) (salt : String) (now : ℕ) (t : Tables) (a b : App rs)
      → on_db {rs = rs} (initialize_superuser bcrypt console salt now) (record a { db = willing t })
        ≡ (ok tt, b)
      → (u : Tables) × (b ≡ record a { db = willing u }) × (u.pipelines ≡ t.pipelines)
  superuser_made bcrypt console salt now t a b h =
      let db = (initialize_superuser bcrypt console salt now (willing t)).1 in
      let done : initialize_superuser bcrypt console salt now (willing t) ≡ (ok tt, db) =
        ap (λ r. (r, db)) (ap (λ q. q.0) h) in
      let (u, at, same) = initialize_superuser-Keeps bcrypt console salt now t db done in
      (u, sym (ap (λ q. q.1) h) ∙ ap (λ d. record a { db = d }) at, same)

  -- If a start over a database that refuses nothing but what breaks a constraint comes to its
  -- end, every stored pipeline has an empty queue with exactly one goroutine and nothing else has
  -- a queue, the scheduler has one job for each stored pipeline that has a schedule, with its branch
  -- and in the order of the pipelines, and no other, and the stored runs are as they were: those that
  -- were waiting or running are in no queue.
  pub start_ok :
      (windows : Bool) (bcrypt : Bcrypt) (console : Console) (salt : String) (now : ℕ) (c : Cron)
      (size : ℕ) (t : Tables) (runs : State) (b : App rs)
      → start {rs = rs} windows bcrypt console salt now c size (new_program t runs) ≡ (ok tt, b)
      → ((j : ℕ)
          → lookup j b.service.queues ≡ (
              if any (λ i. j == i) (ids_of t.pipelines.rows)
              then some (record { queue = new_run_queue size; goroutines = 1 })
              else none))
        × (map target b.jobs ≡ map scheduled_as (filter (λ p. is_some p.schedule) t.pipelines.rows))
        × (b.runs ≡ runs)
  unfolding start Service.create_controller_agent statement
  start_ok windows bcrypt console salt now c size t runs b h =
      let t1 = (Agents.create_controller_agent windows t).1 in
      let rows : t1.pipelines.rows ≡ t.pipelines.rows =
        ap (λ x. x.rows) (create_controller_agent_pipelines windows t) in
      let (s, made, queues) = initialize_run_queues_lem t1.pipelines.rows size in
      let (_, a2, first, h2) =
        >>=-eq-ok (or_fatal (initialize_run_queues {rs = rs} size)) _ (new_program t1 runs) h in
      let at2 = queues_made size t1 runs s a2 made first in
      let ready = record (new_program t1 runs) { service = s } in
      let first_user = on_db {rs = rs} (initialize_superuser bcrypt console salt now) in
      let (_, a3, second, last) = >>=-eq-ok first_user _ a2 h2 in
      let (u, at3, kept) =
        superuser_made bcrypt console salt now t1 ready a3 (sym (ap first_user at2) ∙ second) in
      let (same_runs, service, jobs) =
        schedule_pipelines-Resumes {rs = rs} c u ready b
          (sym (ap (schedule_pipelines {rs = rs} c) at3) ∙ last) in
      (
        λ j.
            ap (λ x. lookup j x.queues) service
            ∙ queues j
            ∙ ap
                (λ ps.
                  if any (λ i. j == i) (ids_of ps)
                  then some (record { queue = new_run_queue size; goroutines = 1 })
                  else none)
                rows,
        jobs
            ∙ ap (λ x. map scheduled_as (filter (λ p. is_some p.schedule) x.rows))
                (kept ∙ create_controller_agent_pipelines windows t),
        same_runs,
      )
