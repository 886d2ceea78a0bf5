-- ===== src/RunQueue/Channels/Invariant.antt =====
-- What holds of every run queue of `internal/service/run_queue.go` at every time.
use mathlib.Core.Option.{none-ne-some}
use simple_ci.Base.{
  ◌≡◌, ◌↔◌, refl, sym, ap, ◌∙◌, ℕ, ◌≤◌, ◌<◌, List, [], ◌∷◌, ◌++◌, length, length-append, Bool, true,
  false, some, ltb, ltb→lt, if_both, ◌==◌, ◌&&◌, arith, append_assoc,
}
use simple_ci.Base.Errors.{run_queue_full, Result, ok, err}
use simple_ci.Store.{Run}
use simple_ci.RunQueue.Channels.{
  Phase, waiting, processing, sending, receiving, closing, stopped, Queue, new_run_queue, enqueue,
  run_step, shutdown, shutdown_at, take_with, take_run, stop, select, move, is_waiting, Steps, made,
  ran, enqueued, shut,
}

-- Which runs have been taken out in a phase, and when `rq.done` must be closed.
abbrev pub AtPhase : Phase → Queue → Type 0
AtPhase waiting q = (q.taken ≡ []) × (q.queue_closed ≡ false)
AtPhase (processing r) q = q.taken ≡ r ∷ []
AtPhase (sending r) q = q.taken ≡ r ∷ []
AtPhase (receiving r) q = q.taken ≡ r ∷ []
AtPhase (closing r) q = (q.taken ≡ r ∷ []) × (q.done_closed ≡ true)
AtPhase stopped q = (q.taken ≡ []) × (q.queue_closed ≡ true)

abbrev pub IsSoundAt : ℕ → Phase → Queue → Type 0
IsSoundAt c p q =
    (q.accepted ≡ q.taken ++ q.buffer) × (length q.buffer ≤ c) × (q.capacity ≡ c) × AtPhase p q

-- The runs come out in the order in which they went in, and no more are kept than fit.
abbrev pub IsSound : ℕ → Queue → Type 0
IsSound c q = IsSoundAt c q.phase q

take-IsSound :
    (c : ℕ) (buffer : List Run) (q q' : Queue)
    → buffer ≡ q.buffer
    → IsSoundAt c waiting q
    → take_with buffer q ≡ some (ok q')
    → IsSound c q'
unfolding take_with
take-IsSound c [] q q' same h e = absurd (none-ne-some _ e)
take-IsSound c (r ∷ rest) q q' same h e =
    let q1 = record q { phase = processing r; buffer = rest; taken = q.taken ++ r ∷ [] } in
    let sound : IsSound c q1 = (
      h.0 ∙ ap (λ b. q.taken ++ b) (sym same) ∙ sym (append_assoc q.taken (r ∷ []) rest),
      ground (arith, same, h.1),
      h.2,
      ap (λ t. t ++ r ∷ []) h.3.0,
    ) in
    ground (arith, sound, e)

stop-IsSound : (c : ℕ) (q q' : Queue) → IsSoundAt c waiting q → stop q ≡ some (ok q') → IsSound c q'
unfolding stop
stop-IsSound c q q' h e = ground (arith, e, h)

select-IsSound :
    (c : ℕ) (d : Bool) (q q' : Queue)
    → IsSoundAt c waiting q
    → select d q ≡ some (ok q')
    → IsSound c q'
unfolding select take_run
select-IsSound c d q q' h e =
    let stops = stop-IsSound c q q' h in
    let takes = take-IsSound c q.buffer q q' refl h in ground (arith, stops, takes, e)

move-IsSound :
    (c : ℕ) (p : Phase) (d : Bool) (q q' : Queue)
    → IsSoundAt c p q
    → move p d q ≡ some (ok q')
    → IsSound c q'
unfolding move
move-IsSound c waiting d q q' h e = select-IsSound c d q q' h e
move-IsSound c (processing r) d q q' h e = ground (arith, e, h)
move-IsSound c (sending r) d q q' h e = ground (arith, e, h)
move-IsSound c (receiving r) d q q' h e = ground (arith, e, h)
move-IsSound c (closing r) d q q' h e = ground (arith, e, h)
move-IsSound c stopped d q q' h e = absurd (none-ne-some _ e)

AtPhase-same :
    (p : Phase) (q q' : Queue)
    → q'.taken ≡ q.taken
    → q'.queue_closed ≡ q.queue_closed
    → q'.done_closed ≡ q.done_closed
    → AtPhase p q
    → AtPhase p q'
AtPhase-same waiting q q' t c d h = (t ∙ h.0, c ∙ h.1)
AtPhase-same (processing r) q q' t c d h = t ∙ h
AtPhase-same (sending r) q q' t c d h = t ∙ h
AtPhase-same (receiving r) q q' t c d h = t ∙ h
AtPhase-same (closing r) q q' t c d h = (t ∙ h.0, d ∙ h.1)
AtPhase-same stopped q q' t c d h = (t ∙ h.0, c ∙ h.1)

waiting_taken : (p : Phase) (q : Queue) → is_waiting p ≡ true → AtPhase p q → q.taken ≡ []
waiting_taken waiting q e h = h.0
waiting_taken (processing r) q e h = absurd (cc e)
waiting_taken (sending r) q e h = absurd (cc e)
waiting_taken (receiving r) q e h = absurd (cc e)
waiting_taken (closing r) q e h = absurd (cc e)
waiting_taken stopped q e h = absurd (cc e)

no_room : (b : List Run) → length b ≤ 0 → b ≡ []
no_room [] h = refl
no_room (r ∷ rest) h = absurd (omega (arith, h))

push-IsSound :
    (c : ℕ) (r : Run) (q : Queue)
    → IsSound c q
    → ltb (length q.buffer) q.capacity ≡ true
    → IsSound c (record q { buffer = q.buffer ++ r ∷ []; accepted = q.accepted ++ r ∷ [] })
push-IsSound c r q h free =
    let push = record q { buffer = q.buffer ++ r ∷ []; accepted = q.accepted ++ r ∷ [] } in
    (
      ap (λ l. l ++ r ∷ []) h.0 ∙ append_assoc q.taken q.buffer (r ∷ []),
      omega (arith, length-append q.buffer (r ∷ []), ltb→lt (length q.buffer) q.capacity free, h.2),
      h.2,
      AtPhase-same q.phase q push refl refl refl h.3,
    )

hand-IsSound :
    (c : ℕ) (r : Run) (q : Queue)
    → IsSound c q
    → q.capacity ≡ 0
    → is_waiting q.phase ≡ true
    → IsSound c (record q {
      phase = processing r;
      accepted = q.accepted ++ r ∷ [];
      taken = q.taken ++ r ∷ [];
    })
hand-IsSound c r q h zero waits =
    let none_taken = waiting_taken q.phase q waits h.3 in
    let empty = no_room q.buffer (omega (arith, h.1, h.2, zero)) in
    let none_in : q.accepted ≡ [] = h.0 ∙ ap (λ l. l ++ q.buffer) none_taken ∙ empty in
    (
      ap (λ l. l ++ r ∷ []) none_in
          ∙ sym (ap (λ l. (l ++ r ∷ []) ++ q.buffer) none_taken ∙ ap (λ l. r ∷ l) empty),
      h.1,
      h.2,
      ap (λ l. l ++ r ∷ []) none_taken,
    )

enqueue-IsSound : (c : ℕ) (r : Run) (q : Queue) → IsSound c q → IsSound c (enqueue r q).1
unfolding enqueue
enqueue-IsSound c r q h =
    let push = push-IsSound c r q h in
    let hand = hand-IsSound c r q h in
    let P = λ (p : Result (Unit {0}) × Queue). IsSound c p.1 in
    if_both P q.queue_closed _ _ (λ e. h)
      (λ e. if_both P (ltb (length q.buffer) q.capacity) _ _ push (λ full.
        if_both P ((q.capacity == 0) && is_waiting q.phase) _ _
          (λ now. hand (ground (arith, now)) (ground (arith, now))) (λ no. h)))

shutdown-IsSoundAt :
    (c : ℕ) (p : Phase) (q : Queue) → p ≡ q.phase → IsSoundAt c p q → IsSound c (shutdown_at p q)
unfolding shutdown_at
shutdown-IsSoundAt c waiting q e h = rw (sym e) h
shutdown-IsSoundAt c (processing r) q e h = rw (sym e) h
shutdown-IsSoundAt c (sending r) q e h = h
shutdown-IsSoundAt c (receiving r) q e h = rw (sym e) h
shutdown-IsSoundAt c (closing r) q e h = rw (sym e) (h.0, h.1, h.2, (h.3.0, refl))
shutdown-IsSoundAt c stopped q e h = rw (sym e) h

shutdown-IsSound : (c : ℕ) (q : Queue) → IsSound c q → IsSound c (shutdown q)
unfolding shutdown
shutdown-IsSound c q h =
    if_both (IsSound c) q.done_closed _ _ (λ e. h) (λ e. shutdown-IsSoundAt c q.phase q refl h)

pub Steps-IsSound : (c : ℕ) (q : Queue) → Steps c q → IsSound c q
unfolding new_run_queue run_step
Steps-IsSound c _ made = (refl, omega arith, refl, (refl, refl))
Steps-IsSound c q' (ran {q = q} d s e) = move-IsSound c q.phase d q q' (Steps-IsSound c q s) e
Steps-IsSound c q' (enqueued {q = q} r s e) =
    rw (sym (ap (λ p. p.1) e)) (enqueue-IsSound c r q (Steps-IsSound c q s))
Steps-IsSound c _ (shut {q = q} s) = shutdown-IsSound c q (Steps-IsSound c q s)

taken_at_most_one : (p : Phase) (q : Queue) → AtPhase p q → length q.taken ≤ 1
taken_at_most_one waiting q h = rw h.0 (omega arith)
taken_at_most_one (processing r) q h = rw h (omega arith)
taken_at_most_one (sending r) q h = rw h (omega arith)
taken_at_most_one (receiving r) q h = rw h (omega arith)
taken_at_most_one (closing r) q h = rw h.0 (omega arith)
taken_at_most_one stopped q h = rw h.0 (omega arith)

-- Whatever its users do, a run queue takes up at most one run in its life: what else it accepts
-- waits behind that run, in order and within the capacity, and is never processed.
pub Steps-at_most_one :
    (capacity : ℕ) (q : Queue)
    → Steps capacity q
    → (q.accepted ≡ q.taken ++ q.buffer) × (length q.taken ≤ 1) × (length q.buffer ≤ capacity)
Steps-at_most_one c q s = let h = Steps-IsSound c q s in (h.0, taken_at_most_one q.phase q h.3, h.1)

-- A queue with a buffer refuses a run as full exactly when it is not closed and its buffer is
-- full, and it then stays as it is.
pub enqueue_full :
    (capacity : ℕ) (r : Run) (q : Queue)
    → 0 < capacity
    → Steps capacity q
    → (enqueue r q ≡ (err run_queue_full, q))
      ↔ ((q.queue_closed ≡ false) × (length q.buffer ≡ capacity))
unfolding enqueue
enqueue_full c r q pos s =
    let h = Steps-IsSound c q s in
    let fits = h.1 in let size = h.2 in ground (arith, pos, fits, size)
