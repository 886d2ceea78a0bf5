-- ===== src/Pipelines/Queues/Laws.antt =====
-- What the calls on the map of run queues do: `internal/service/pipeline_service.go`.
use mathlib.Core.Option
use simple_ci.Base.{
  ◌≡◌, refl, ap, ◌∙◌, inl, inr, ℕ, List, [], ◌∷◌, any, false, Option, none, some, ◌==◌,
  if◌then◌else◌, arith, Bool-cases,
}
use simple_ci.Base.Errors.{ok}
use simple_ci.Store.{Pipeline}
use simple_ci.RunQueue.Channels.{new_run_queue}
use simple_ci.Pipelines.Queues.{
  Slot, Service, lookup, put, erase, put_all, start_all, start, new_slot, ids_of, add_run_queues,
  start_run_queues, shutdown_run_queue, initialize_run_queues,
}

pub lookup-put :
    (id j : ℕ) (slot : Slot) (qs : List (ℕ × Slot))
    → lookup j (put id slot qs) ≡ (if j == id then some slot else lookup j qs)
unfolding lookup put
lookup-put id j slot [] = ground arith
lookup-put id j slot (e ∷ rest) = ground (arith, lookup-put id j slot rest)

pub lookup-erase :
    (id j : ℕ) (qs : List (ℕ × Slot))
    → lookup j (erase id qs) ≡ (if j == id then none else lookup j qs)
unfolding lookup erase
lookup-erase id j [] = ground arith
lookup-erase id j (e ∷ rest) = ground (arith, lookup-erase id j rest)

abbrev pub free : List (ℕ × Slot) → Service
free qs = record { queues = qs; locked = false }

-- Shutting down the queue of one pipeline never comes back, whatever the state: when the mutex is
-- free the call takes it and waits for itself.
pub shutdown_run_queue_blocks : (id : ℕ) (s : Service) → shutdown_run_queue id s ≡ none
unfolding shutdown_run_queue
shutdown_run_queue_blocks id s = ground arith

pub lookup-put_all :
    (ids : List ℕ) (size j : ℕ) (qs : List (ℕ × Slot))
    → lookup j (put_all ids size qs)
      ≡ (if any (λ i. j == i) ids then some (new_slot size) else lookup j qs)
unfolding put_all
lookup-put_all [] size j qs = refl
lookup-put_all (id ∷ ids) size j qs =
    let ih = lookup-put_all ids size j (put id (new_slot size) qs) in
    let here = lookup-put id j (new_slot size) qs in ground (arith, ih, here)

pub lookup-start_all :
    (j : ℕ) (qs : List (ℕ × Slot)) → lookup j (start_all qs) ≡ Option.map start (lookup j qs)
unfolding start_all lookup
lookup-start_all j [] = refl
lookup-start_all j (e ∷ rest) = ground (arith, lookup-start_all j rest)

-- After the start of the program every pipeline has an empty queue with exactly one goroutine, and
-- nothing else has a queue.
pub initialize_run_queues_lem :
    (ps : List Pipeline) (size : ℕ)
    → (s : Service) × (initialize_run_queues (ok ps) size (free []) ≡ some (ok tt, s))
      × ((j : ℕ)
          → lookup j s.queues ≡ (
              if any (λ i. j == i) (ids_of ps)
              then some (record { queue = new_run_queue size; goroutines = 1 })
              else none))
unfolding initialize_run_queues add_run_queues start_run_queues lookup
initialize_run_queues_lem ps size = (
  free (start_all (put_all (ids_of ps) size [])),
  refl,
  λ j.
      lookup-start_all j (put_all (ids_of ps) size [])
      ∙ ap (Option.map start) (lookup-put_all (ids_of ps) size j [])
      ∙ one_each j,
)
  where
    one_each :
        (j : ℕ)
        → Option.map start
            (if any (λ i. j == i) (ids_of ps) then some (new_slot size) else lookup j [])
          ≡ (if any (λ i. j == i) (ids_of ps)
              then some (record { queue = new_run_queue size; goroutines = 1 })
              else none)
    one_each j = elim (Bool-cases (any (λ i. j == i) (ids_of ps))) [
      | inl e ↦ rw e refl
      | inr e ↦ rw e refl
    ]
