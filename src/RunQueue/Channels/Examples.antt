-- ===== src/RunQueue/Channels/Examples.antt =====
-- The run queue of `internal/service/run_queue.go` with two runs.
use simple_ci.Base.{
  ◌≡◌, refl, ◌↔◌, ℕ, ◌≤◌, [], ◌∷◌, ◌++◌, length, true, false, none, arith, any, ◌==◌, ◌&&◌,
  if◌then◌else◌,
}
use simple_ci.Base.Errors.{ok, err, panic, run_queue_full}
use simple_ci.Store.{Run, queued}
use simple_ci.RunQueue.Channels.{
  Queue, Steps, made, ran, enqueued, waiting, processing, sending, new_run_queue, enqueue, run_step,
}
use simple_ci.RunQueue.Channels.Cancel as Cancel
use simple_ci.RunQueue.Channels.Cancel.{Cancels, Watched, cancel_run, go_on, add_cancel}
use simple_ci.RunQueue.Channels.Cancel.Taken.{cancel_run_lem}
use simple_ci.RunQueue.Channels.Invariant.{Steps-at_most_one, enqueue_full}

abbrev run_of : ℕ → Run
run_of id = record {
  run_id = id;
  run_pipeline_id = 1;
  branch = "main";
  working_directory = none;
  output = none;
  artifacts = none;
  status = queued;
  created_on = 0;
  started_on = none;
  ended_on = none;
  archive = false;
}

-- The first run has been processed, and the second waits for ever.
abbrev stuck : Queue
stuck = record {
  phase = sending (run_of 1);
  buffer = run_of 2 ∷ [];
  capacity = 1;
  queue_closed = false;
  done_closed = false;
  accepted = run_of 1 ∷ run_of 2 ∷ [];
  taken = run_of 1 ∷ [];
}

stuck-Steps : Steps 1 stuck
unfolding enqueue run_step new_run_queue
stuck-Steps =
    enqueued (run_of 2) {result = ok tt}
      (ran
        {q = record stuck { phase = processing (run_of 1); buffer = []; accepted = run_of 1 ∷ [] }}
        false
        (ran
          {q = record stuck {
            phase = waiting;
            buffer = run_of 1 ∷ [];
            accepted = run_of 1 ∷ [];
            taken = [];
          }}
          false (enqueued (run_of 1) {result = ok tt} made refl) refl)
        refl)
      refl

Steps-at_most_one_example :
    (stuck.accepted ≡ stuck.taken ++ stuck.buffer)
    × (length stuck.taken ≤ 1)
    × (length stuck.buffer ≤ 1)
Steps-at_most_one_example = Steps-at_most_one 1 stuck stuck-Steps

enqueue_full_example :
    (enqueue (run_of 3) stuck ≡ (err run_queue_full, stuck))
    ↔ ((stuck.queue_closed ≡ false) × (length stuck.buffer ≡ 1))
enqueue_full_example = enqueue_full 1 (run_of 3) stuck (omega arith) stuck-Steps

-- The first run is being processed, and the second waits: only the first can be cancelled.
abbrev at_work : Queue
at_work = record stuck { phase = processing (run_of 1) }

abbrev watching : Cancels
watching = record { keys = 1 ∷ []; cancelled = [] }

at_work-Watched : Watched 1 at_work true watching
unfolding enqueue run_step new_run_queue go_on add_cancel
at_work-Watched =
    Cancel.added (run_of 1)
      (Cancel.enqueued (run_of 2) (
        Cancel.ran {q' = record at_work { buffer = []; accepted = run_of 1 ∷ [] }} false
          (Cancel.enqueued (run_of 1) Cancel.made) refl refl))
      refl

cancel_run_lem_example : cancel_run 2 watching ≡ (
    if true && any (λ r. r.run_id == 2) at_work.taken
    then (ok tt, record watching { cancelled = 2 ∷ [] })
    else (panic, watching))
cancel_run_lem_example = cancel_run_lem 2 at_work-Watched
