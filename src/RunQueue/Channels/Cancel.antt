-- ===== src/RunQueue/Channels/Cancel.antt =====
-- `CancelMap` of `internal/service/cancel_map.go` with int64 keys, `CancelRun` of `run_queue.go`, and
-- when the loop of `Run` adds a run to the map and takes it out.
pub mod Taken
use simple_ci.Base.{
  ◌≡◌, ℕ, List, [], ◌∷◌, ◌++◌, Bool, true, false, not, any, filter, Option, none, some, ◌==◌,
  if◌then◌else◌,
}
use simple_ci.Base.Errors.{ok, panic}
use simple_ci.Base.Exec.{Exec}
use simple_ci.Store.{Run}
use simple_ci.RunQueue.Channels.{
  Phase, processing, closing, Queue, new_run_queue, enqueue, run_step, shutdown,
}

-- The keys of `cancels`, and the runs whose context has been cancelled.
pub record Cancels : Type 0 where
  pub keys : List ℕ
  pub cancelled : List ℕ

abbrev pub no_cancels : Cancels
no_cancels = record { keys = []; cancelled = [] }

abbrev pub has : ℕ → Cancels → Bool
has k m = any (λ j. j == k) m.keys

unfoldable pub add_cancel : ℕ → Cancels → Cancels
add_cancel k m = if has k m then m else record m { keys = k ∷ m.keys }

unfoldable pub remove_cancel : ℕ → Cancels → Cancels
remove_cancel k m = record m { keys = filter (λ j. not (j == k)) m.keys }

-- `m.cancels[key]()`: a key that is not there gives a nil function, whose call panics.
pub call : ℕ → Exec Cancels (Unit {0})
call k m = if has k m then (ok tt, record m { cancelled = m.cancelled ++ k ∷ [] }) else (panic, m)

-- `rq.CancelRun`
pub cancel_run : ℕ → Exec Cancels (Unit {0})
unfolding call
cancel_run run_id = call run_id

-- What the loop of `Run` does with the map as it goes on from a phase: it does not go on to
-- `processRun` before it has added the run, and takes the run out behind `close(rq.done)`. The flag
-- says whether the run that was taken has been added.
unfoldable pub go_on : Phase → Bool → Cancels → Option (Bool × Cancels)
go_on (processing r) false m = none
go_on (closing r) added m = some (false, remove_cancel r.run_id m)
go_on _ added m = some (added, m)

-- The queue with its map, as its goroutine, the callers of `Enqueue` and `Shutdown`, and those of
-- `CancelRun` move them. The receive from `rq.queue` and `AddCancel` are two steps.
pub data Watched (capacity : ℕ) : Queue → Bool → Cancels → Type 0 where
  made : Watched capacity (new_run_queue capacity) false no_cancels
  added :
      {q : Queue} {m : Cancels} (r : Run)
      → Watched capacity q false m
      → q.phase ≡ processing r
      → Watched capacity q true (add_cancel r.run_id m)
  ran :
      {q q' : Queue} {b b' : Bool} {m m' : Cancels} (done_first : Bool)
      → Watched capacity q b m
      → run_step done_first q ≡ some (ok q')
      → go_on q.phase b m ≡ some (b', m')
      → Watched capacity q' b' m'
  enqueued :
      {q : Queue} {b : Bool} {m : Cancels} (r : Run)
      → Watched capacity q b m
      → Watched capacity (enqueue r q).1 b m
  shut :
      {q : Queue} {b : Bool} {m : Cancels}
      → Watched capacity q b m
      → Watched capacity (shutdown q) b m
  cancel :
      {q : Queue} {b : Bool} {m : Cancels} (run_id : ℕ)
      → Watched capacity q b m
      → Watched capacity q b (cancel_run run_id m).1
