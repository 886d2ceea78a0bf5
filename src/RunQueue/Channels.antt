-- ===== src/RunQueue/Channels.antt =====
-- The channels of a run queue, `Enqueue`, `Run` and `Shutdown` of `internal/service/run_queue.go`:
-- the buffered `queue` and the unbuffered `done`, and the goroutine of `Run` as a state machine.
-- Of `processRun` and `handleProcessingFailed` only the send on `rq.done` at their end counts here;
-- `Process` models the rest of them.
pub mod Invariant
pub mod Cancel
mod Examples
use simple_ci.Base.{
  ◌≡◌, refl, ℕ, suc, ◌+◌, List, [], ◌∷◌, ◌++◌, length, Bool, true, false, Option, none, some, ltb,
  ◌==◌, ◌&&◌, if◌then◌else◌,
}
use simple_ci.Base.Errors.{Error, run_queue_full, Result, ok, err, panic}
use simple_ci.Store.{Run}

-- Where the goroutine of `Run` stands.
pub data Phase : Type 0 where
  -- at the `select`
  waiting : Phase
  -- in `processRun` or `handleProcessingFailed`
  processing : Run → Phase
  -- at their `rq.done <- struct{}{}`
  sending : Run → Phase
  -- at `<-rq.done` behind them
  receiving : Run → Phase
  -- at `close(rq.done)` behind that
  closing : Run → Phase
  -- returned
  stopped : Phase

pub record Queue : Type 0 where
  pub phase : Phase
  pub buffer : List Run
  pub capacity : ℕ
  pub queue_closed : Bool
  pub done_closed : Bool
  -- the runs that `Enqueue` has taken in, and those that `Run` has taken out, oldest first
  pub accepted : List Run
  pub taken : List Run

-- `NewRunQueue`
unfoldable pub new_run_queue : ℕ → Queue
new_run_queue max_runs = record {
  phase = waiting;
  buffer = [];
  capacity = max_runs;
  queue_closed = false;
  done_closed = false;
  accepted = [];
  taken = [];
}

abbrev pub is_waiting : Phase → Bool
is_waiting waiting = true
is_waiting _ = false

-- A channel without a buffer hands a run over to a receiver that waits. A send on a closed channel
-- panics.
unfoldable pub enqueue : Run → Queue → Result (Unit {0}) × Queue
enqueue r q =
    if q.queue_closed
    then (panic, q)
    else if ltb (length q.buffer) q.capacity
    then (ok tt, record q { buffer = q.buffer ++ r ∷ []; accepted = q.accepted ++ r ∷ [] })
    else if (q.capacity == 0) && is_waiting q.phase
    then (
      ok tt,
      record q { phase = processing r; accepted = q.accepted ++ r ∷ []; taken = q.taken ++ r ∷ [] },
    )
    else (err run_queue_full, q)

take_with : List Run → Queue → Option (Result Queue)
take_with [] q = none
take_with (r ∷ rest) q =
    some (ok (record q { phase = processing r; buffer = rest; taken = q.taken ++ r ∷ [] }))

-- `case run := <-rq.queue`
take_run : Queue → Option (Result Queue)
unfolding take_with
take_run q = take_with q.buffer q

-- `case <-rq.done`: close(rq.queue) and return.
stop : Queue → Option (Result Queue)
stop q =
    if q.done_closed
    then if q.queue_closed
      then some panic
      else some (ok (record q { phase = stopped; queue_closed = true }))
    else none

abbrev or_else : {A : Type 0} → Option A → Option A → Option A
or_else none o = o
or_else (some a) o = some a

-- When both cases of the `select` are ready it takes either: `done_first` is its choice.
select : Bool → Queue → Option (Result Queue)
unfolding take_run stop
select done_first q =
    if done_first then or_else (stop q) (take_run q) else or_else (take_run q) (stop q)

move : Phase → Bool → Queue → Option (Result Queue)
unfolding select
move waiting done_first q = select done_first q
move (processing r) done_first q = some (ok (record q { phase = sending r }))
move (sending r) done_first q = if q.done_closed then some panic else none
move (receiving r) done_first q =
    if q.done_closed then some (ok (record q { phase = closing r })) else none
move (closing r) done_first q =
    if q.done_closed
    then some panic
    else some (ok (record q { phase = waiting; done_closed = true }))
move stopped done_first q = none

-- The next move of the goroutine by itself; `none` where it is blocked or has returned.
pub run_step : Bool → Queue → Option (Result Queue)
unfolding move
run_step done_first q = move q.phase done_first q

shutdown_at : Phase → Queue → Queue
shutdown_at (sending r) q = record q { phase = receiving r }
shutdown_at _ q = record q { done_closed = true }

-- The `select` of `Shutdown` receives from `rq.done` when that is closed, and also when `Run` is
-- waiting to send on it; it closes the channel only otherwise.
pub shutdown : Queue → Queue
unfolding shutdown_at
shutdown q = if q.done_closed then q else shutdown_at q.phase q

-- What the goroutine of `Run` and the callers of `Enqueue` and `Shutdown` do, in any order.
pub data Steps (capacity : ℕ) : Queue → Type 0 where
  made : Steps capacity (new_run_queue capacity)
  ran :
      {q q' : Queue} (done_first : Bool)
      → Steps capacity q
      → run_step done_first q ≡ some (ok q')
      → Steps capacity q'
  enqueued :
      {q q' : Queue} (r : Run) {result : Result (Unit {0})}
      → Steps capacity q
      → enqueue r q ≡ (result, q')
      → Steps capacity q'
  shut : {q : Queue} → Steps capacity q → Steps capacity (shutdown q)
