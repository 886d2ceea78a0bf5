-- ===== src/Pipelines/Queues.antt =====
-- The map of run queues of `internal/service/pipeline_service.go`. `sync.Mutex` is not reentrant: a
-- call that locks it while it is held by the same goroutine waits for ever, which is `none`.
pub mod Laws
pub mod Calls
use simple_ci.Base.{
  ◌≡◌, refl, ℕ, suc, String, ◌<>◌, decimal, List, [], ◌∷◌, map, Bool, true, false, Option, none,
  some, ◌==◌, if◌then◌else◌,
}
use simple_ci.Base.Errors.{Error, message, Result, ok, err, panic}
use simple_ci.Store.{Run, Pipeline}
use simple_ci.RunQueue.Channels.{Queue, new_run_queue, enqueue, shutdown}

-- A run queue, and how many goroutines have been started on its `Run`.
pub record Slot : Type 0 where
  pub queue : Queue
  pub goroutines : ℕ

pub record Service : Type 0 where
  pub queues : List (ℕ × Slot)
  pub locked : Bool

unfoldable pub lookup : ℕ → List (ℕ × Slot) → Option Slot
lookup id [] = none
lookup id (e ∷ rest) = if e.0 == id then some e.1 else lookup id rest

unfoldable pub put : ℕ → Slot → List (ℕ × Slot) → List (ℕ × Slot)
put id slot [] = (id, slot) ∷ []
put id slot (e ∷ rest) =
    let later = put id slot rest in if e.0 == id then (id, slot) ∷ rest else e ∷ later

pub erase : ℕ → List (ℕ × Slot) → List (ℕ × Slot)
erase id [] = []
erase id (e ∷ rest) = let later = erase id rest in if e.0 == id then later else e ∷ later

abbrev pub Blocking : Type 0 → Type 0
Blocking A = Service → Option (Result A × Service)

abbrev unlock : {A : Type 0} → Option (Result A × Service) → Option (Result A × Service)
unlock none = none
unlock (some (r, s)) = some (r, record s { locked = false })

-- `s.mu.Lock(); defer s.mu.Unlock()`
abbrev lock : {A : Type 0} → Blocking A → Blocking A
lock m s = if s.locked then none else unlock (m (record s { locked = true }))

abbrev returns : {A : Type 0} → A → Blocking A
returns a s = some (ok a, s)

abbrev after :
    {A B : Type 0} → Option (Result A × Service) → (A → Blocking B) → Option (Result B × Service)
after none f = none
after (some (ok a, s)) f = f a s
after (some (err e, s)) f = some (err e, s)
after (some (panic, s)) f = some (panic, s)

abbrev change : (List (ℕ × Slot) → List (ℕ × Slot)) → Blocking (Unit {0})
change f s = some (ok tt, record s { queues = f s.queues })

abbrev new_slot : ℕ → Slot
new_slot max_runs = record { queue = new_run_queue max_runs; goroutines = 0 }

pub put_all : List ℕ → ℕ → List (ℕ × Slot) → List (ℕ × Slot)
put_all [] max_runs queues = queues
put_all (id ∷ ids) max_runs queues = put_all ids max_runs (put id (new_slot max_runs) queues)

unfoldable pub add_run_queues : List ℕ → ℕ → Blocking (Unit {0})
unfolding put_all
add_run_queues ids max_runs = lock (change (put_all ids max_runs))

abbrev start : Slot → Slot
start slot = record slot { goroutines = suc slot.goroutines }

pub start_all : List (ℕ × Slot) → List (ℕ × Slot)
start_all [] = []
start_all (e ∷ rest) = (e.0, start e.1) ∷ start_all rest

unfoldable pub start_run_queues : Blocking (Unit {0})
unfolding start_all
start_run_queues = lock (change start_all)

pub add_run_queue : ℕ → ℕ → Blocking (Unit {0})
add_run_queue id max_runs = lock (change (put id (new_slot max_runs)))

unfoldable pub get_pipeline_run_queue : ℕ → Blocking (Option Slot)
get_pipeline_run_queue id = lock (λ s. returns (lookup id s.queues) s)

no_queue : ℕ → Error
no_queue id = message ("run queue for pipeline " <> decimal id <> " does not exist")

start_found : ℕ → Option Slot → Blocking (Unit {0})
unfolding no_queue
start_found id none s = some (err (no_queue id), s)
start_found id (some slot) s = change (put id (start slot)) s

pub start_run_queue : ℕ → Blocking (Unit {0})
unfolding start_found get_pipeline_run_queue
start_run_queue id s = after (get_pipeline_run_queue id s) (start_found id)

-- The queue goes, but not its goroutine: nothing shuts it down.
pub remove_run_queue : ℕ → Blocking (Unit {0})
remove_run_queue id = lock (change (erase id))

unfoldable pub enqueue_found : Run → Option Slot → Blocking (Unit {0})
unfolding no_queue
enqueue_found r none s = some (err (no_queue r.run_pipeline_id), s)
enqueue_found r (some slot) s =
    let (result, q) = enqueue r slot.queue in
    some (result, record s { queues = put r.run_pipeline_id (record slot { queue = q }) s.queues })

unfoldable pub enqueue_run : Run → Blocking (Unit {0})
unfolding enqueue_found get_pipeline_run_queue
enqueue_run r s = after (get_pipeline_run_queue r.run_pipeline_id s) (enqueue_found r)

shutdown_found : ℕ → Option Slot → Blocking (Unit {0})
shutdown_found id none s = returns tt s
shutdown_found id (some slot) s = change (put id (record slot { queue = shutdown slot.queue })) s

-- The mutex is held when `GetPipelineRunQueue` locks it again.
pub shutdown_run_queue : ℕ → Blocking (Unit {0})
unfolding shutdown_found get_pipeline_run_queue
shutdown_run_queue id = lock (λ s. after (get_pipeline_run_queue id s) (shutdown_found id))

shut_all : List (ℕ × Slot) → List (ℕ × Slot)
shut_all [] = []
shut_all (e ∷ rest) = (e.0, record e.1 { queue = shutdown e.1.queue }) ∷ shut_all rest

pub shutdown_all : Blocking (Unit {0})
unfolding shut_all
shutdown_all = lock (change shut_all)

abbrev pub ids_of : List Pipeline → List ℕ
ids_of [] = []
ids_of (p ∷ ps) = p.pipeline_id ∷ ids_of ps

-- The error of `ListPipelines` is what a missing list stands for; `queue_size` is of the
-- configuration.
unfoldable pub initialize_run_queues : Result (List Pipeline) → ℕ → Blocking (Unit {0})
unfolding add_run_queues start_run_queues
initialize_run_queues (ok pipelines) queue_size s =
    after (add_run_queues (ids_of pipelines) queue_size s) (λ done. start_run_queues)
initialize_run_queues (err e) queue_size s = some (err e, s)
initialize_run_queues panic queue_size s = some (panic, s)
