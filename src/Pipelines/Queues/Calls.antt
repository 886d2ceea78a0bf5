-- ===== src/Pipelines/Queues/Calls.antt =====
-- What each call on the map of run queues of `internal/service/pipeline_service.go` returns and leaves.
use mathlib.Core.Option
use simple_ci.Base.{
  ◌≡◌, ◌↔◌, refl, ap, ◌∙◌, inl, inr, ℕ, List, [], ◌∷◌, any, Bool, true, false, Option, none, some,
  ◌==◌, if◌then◌else◌, arith, Bool-cases, Option-cases, ==_iff,
}
use simple_ci.Base.Errors.{Result, ok, err, panic}
use simple_ci.Store.{Run, Pipeline}
use simple_ci.RunQueue.Channels.{enqueue, shutdown}
use simple_ci.Pipelines.Queues.{
  Slot, Service, Blocking, lookup, put, put_all, shut_all, start, new_slot, ids_of, no_queue,
  add_run_queues, start_run_queues, add_run_queue, get_pipeline_run_queue, start_found,
  start_run_queue, remove_run_queue, enqueue_found, enqueue_run, shutdown_all,
  initialize_run_queues,
}
use simple_ci.Pipelines.Queues.Laws.{
  free, lookup-put, lookup-erase, lookup-put_all, lookup-start_all,
}

-- The call waits while the mutex is held; when it is free the call returns `r`, frees the mutex, and
-- leaves the queue that `left` says to each pipeline.
abbrev pub Returns :
    {A : Type 0} → Blocking A → List (ℕ × Slot) → Result A → (ℕ → Option Slot) → Type 0
Returns m qs r left =
    (m (record { queues = qs; locked = true }) ≡ none)
    × (s : Service) × (m (free qs) ≡ some (r, s))
    × (s.locked ≡ false)
    × ((j : ℕ) → lookup j s.queues ≡ left j)

abbrev with_run : Run → Slot → Slot
with_run r slot = record slot { queue = (enqueue r slot.queue).1 }

abbrev shut_slot : Slot → Slot
shut_slot slot = record slot { queue = shutdown slot.queue }

-- What `EnqueueRun` gets from the queue of the pipeline.
abbrev answer_of : Run → Option Slot → Result (Unit {0})
answer_of r none = err (no_queue r.run_pipeline_id)
answer_of r (some slot) = (enqueue r slot.queue).0

abbrev started_or : ℕ → Option Slot → Result (Unit {0})
started_or id none = err (no_queue id)
started_or id (some slot) = ok tt

abbrev closed : Option Slot → Bool
closed none = false
closed (some slot) = slot.queue.queue_closed

module _ (id size : ℕ) (ids : List ℕ) (ps : List Pipeline) (r : Run) (qs : List (ℕ × Slot)) where
  pub AllReturn : Type 0
  AllReturn =
      Returns (add_run_queues ids size) qs (ok tt)
        (λ j. if any (λ i. j == i) ids then some (new_slot size) else lookup j qs)
      × Returns start_run_queues qs (ok tt) (λ j. Option.map start (lookup j qs))
      × Returns (initialize_run_queues (ok ps) size) qs (ok tt) (λ j.
        Option.map start
          (if any (λ i. j == i) (ids_of ps) then some (new_slot size) else lookup j qs))
      × Returns (add_run_queue id size) qs (ok tt)
          (λ j. if j == id then some (new_slot size) else lookup j qs)
      × Returns (start_run_queue id) qs (started_or id (lookup id qs))
          (λ j. if j == id then Option.map start (lookup id qs) else lookup j qs)
      × Returns (get_pipeline_run_queue id) qs (ok (lookup id qs)) (λ j. lookup j qs)
      × Returns (remove_run_queue id) qs (ok tt) (λ j. if j == id then none else lookup j qs)
      × Returns (enqueue_run r) qs (answer_of r (lookup r.run_pipeline_id qs)) (λ j.
        if j == r.run_pipeline_id
        then Option.map (with_run r) (lookup r.run_pipeline_id qs)
        else lookup j qs)
      × ((answer_of r (lookup r.run_pipeline_id qs) ≡ panic)
          ↔ (closed (lookup r.run_pipeline_id qs) ≡ true))
      × Returns shutdown_all qs (ok tt) (λ j. Option.map shut_slot (lookup j qs))

lookup-shut_all :
    (j : ℕ) (qs : List (ℕ × Slot)) → lookup j (shut_all qs) ≡ Option.map shut_slot (lookup j qs)
unfolding shut_all lookup
lookup-shut_all j [] = refl
lookup-shut_all j (e ∷ rest) = ground (arith, lookup-shut_all j rest)

-- A slot put where there was one.
replaced :
    (id : ℕ) (f : Slot → Slot) (slot : Slot) (qs : List (ℕ × Slot)) (j : ℕ)
    → lookup id qs ≡ some slot
    → lookup j (put id (f slot) qs) ≡ (if j == id then Option.map f (lookup id qs) else lookup j qs)
replaced id f slot qs j e = lookup-put id j (f slot) qs ∙ rw e refl

-- Without one there is nothing to change.
absent :
    (id : ℕ) (f : Slot → Slot) (qs : List (ℕ × Slot)) (j : ℕ)
    → lookup id qs ≡ none
    → lookup j qs ≡ (if j == id then Option.map f (lookup id qs) else lookup j qs)
absent id f qs j e = elim (Bool-cases (j == id)) [
  | inl same ↦ rw (same, (==_iff j id).0 same, e) refl
  | inr other ↦ rw other refl
]

start_run_queue-Returns :
    (id : ℕ) (qs : List (ℕ × Slot))
    → Returns
        (start_run_queue id)
        qs
        (started_or id (lookup id qs))
        (λ j. if j == id then Option.map start (lookup id qs) else lookup j qs)
unfolding start_run_queue get_pipeline_run_queue start_found
start_run_queue-Returns id qs = elim (Option-cases (lookup id qs)) [
  | inl e ↦ (refl, free qs, rw e refl, refl, λ j. absent id start qs j e)
  | inr (slot, e) ↦
      (refl, free (put id (start slot) qs), rw e refl, refl, λ j. replaced id start slot qs j e)
]

enqueue_run-Returns :
    (r : Run) (qs : List (ℕ × Slot))
    → Returns (enqueue_run r) qs (answer_of r (lookup r.run_pipeline_id qs)) (λ j.
      if j == r.run_pipeline_id
      then Option.map (with_run r) (lookup r.run_pipeline_id qs)
      else lookup j qs)
unfolding enqueue_run get_pipeline_run_queue enqueue_found
enqueue_run-Returns r qs =
    let k = r.run_pipeline_id in
    elim (Option-cases (lookup k qs)) [
      | inl e ↦ (refl, free qs, rw e refl, refl, λ j. absent k (with_run r) qs j e)
      | inr (slot, e) ↦ (
        refl,
        free (put k (with_run r slot) qs),
        rw e refl,
        refl,
        λ j. replaced k (with_run r) slot qs j e,
      )
    ]

enqueue_panics : (r : Run) (o : Option Slot) → (answer_of r o ≡ panic) ↔ (closed o ≡ true)
unfolding enqueue
enqueue_panics r none = ground arith
enqueue_panics r (some slot) = ground arith

-- Every call on the queues but the one that shuts a single queue down waits while the mutex is held,
-- and returns when it is free, with the mutex free again. Adding sets up an empty queue without a
-- goroutine and replaces one that was there; starting gives one goroutine more; the start of the
-- program, given the pipelines, does both for all of them; asking for a queue finds it and changes
-- nothing; removing takes the queue of that pipeline away; enqueueing changes only the queue of the
-- run's pipeline, gives the answer of that queue, and panics exactly when it is closed; starting one
-- queue or enqueueing is an error where there is none; shutting all down does so to each queue.
pub calls-Returns :
    (id size : ℕ) (ids : List ℕ) (ps : List Pipeline) (r : Run) (qs : List (ℕ × Slot))
    → AllReturn id size ids ps r qs
unfolding AllReturn add_run_queues start_run_queues add_run_queue get_pipeline_run_queue
    remove_run_queue shutdown_all initialize_run_queues
calls-Returns id size ids ps r qs = (
  (refl, _, refl, refl, λ j. lookup-put_all ids size j qs),
  (refl, _, refl, refl, λ j. lookup-start_all j qs),
  (
    refl,
    _,
    refl,
    refl,
    λ j.
        lookup-start_all j (put_all (ids_of ps) size qs)
        ∙ ap (Option.map start) (lookup-put_all (ids_of ps) size j qs),
  ),
  (refl, _, refl, refl, λ j. lookup-put id j (new_slot size) qs),
  start_run_queue-Returns id qs,
  (refl, _, refl, refl, λ j. refl),
  (refl, _, refl, refl, λ j. lookup-erase id j qs),
  enqueue_run-Returns r qs,
  enqueue_panics r (lookup r.run_pipeline_id qs),
  (refl, _, refl, refl, λ j. lookup-shut_all j qs),
)
