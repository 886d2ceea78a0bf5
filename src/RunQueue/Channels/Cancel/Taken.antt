-- ===== src/RunQueue/Channels/Cancel/Taken.antt =====
-- Which runs `CancelRun` of `internal/service/run_queue.go` cancels.
use mathlib.Core.Path.{subst}
use mathlib.Core.Option.{none-ne-some, some-injective}
use simple_ci.Base.{
  ◌≡◌, refl, sym, ap, ◌∙◌, ◌⊎◌, inl, inr, ℕ, List, [], ◌∷◌, ◌++◌, Bool, true, false, any, Option,
  none, some, ltb, length, ◌==◌, ◌&&◌, if◌then◌else◌, if_both, arith,
}
use simple_ci.Base.Errors.{Result, ok, panic}
use simple_ci.Store.{Run}
use simple_ci.RunQueue.Channels as Channels
use simple_ci.RunQueue.Channels.{
  Phase, waiting, processing, sending, receiving, closing, stopped, Queue, new_run_queue, enqueue,
  run_step, shutdown, shutdown_at, take_with, take_run, stop, select, move, is_waiting, or_else,
  Steps,
}
use simple_ci.RunQueue.Channels.Invariant.{AtPhase, Steps-IsSound}
use simple_ci.RunQueue.Channels.Cancel.{
  Cancels, add_cancel, call, cancel_run, go_on, Watched, made, added, ran, enqueued, shut, cancel,
}

-- The same queue without its map.
Watched-Steps : {c : ℕ} {q : Queue} {b : Bool} {m : Cancels} → Watched c q b m → Steps c q
Watched-Steps made = Channels.made
Watched-Steps (added r w e) = Watched-Steps w
Watched-Steps (ran d w e g) = Channels.ran d (Watched-Steps w) e
Watched-Steps (enqueued {q = q} r w) =
    Channels.enqueued r {result = (enqueue r q).0} (Watched-Steps w) refl
Watched-Steps (shut w) = Channels.shut (Watched-Steps w)
Watched-Steps (cancel k w) = Watched-Steps w

-- In each phase, whether the run has been added, and what the keys of the map are.
abbrev KeysAt : Phase → Bool → Cancels → Type 0
KeysAt waiting b m = (b ≡ false) × (m.keys ≡ [])
KeysAt (processing r) b m = m.keys ≡ (if b then r.run_id ∷ [] else [])
KeysAt (sending r) b m = (b ≡ true) × (m.keys ≡ r.run_id ∷ [])
KeysAt (receiving r) b m = (b ≡ true) × (m.keys ≡ r.run_id ∷ [])
KeysAt (closing r) b m = (b ≡ true) × (m.keys ≡ r.run_id ∷ [])
KeysAt stopped b m = (b ≡ false) × (m.keys ≡ [])

-- At the `select`, the goroutine takes a run or stops.
abbrev LeavesSelect : Phase → Type 0
LeavesSelect p = ((r : Run) × (p ≡ processing r)) ⊎ (p ≡ stopped)

take_with_phase :
    (buffer : List Run) (q q' : Queue) → take_with buffer q ≡ some (ok q') → LeavesSelect q'.phase
unfolding take_with
take_with_phase [] q q' e = absurd (none-ne-some _ e)
take_with_phase (r ∷ rest) q q' e = inl (r, ground (arith, e))

stop_phase : (q q' : Queue) → stop q ≡ some (ok q') → LeavesSelect q'.phase
unfolding stop
stop_phase q q' e = inr (ground (arith, e))

either_of :
    (P : Type 0) (a b : Option (Result Queue)) (q' : Queue)
    → (a ≡ some (ok q') → P)
    → (b ≡ some (ok q') → P)
    → or_else a b ≡ some (ok q')
    → P
either_of P none b q' f g e = g e
either_of P (some r) b q' f g e = f e

select_phase : (d : Bool) (q q' : Queue) → select d q ≡ some (ok q') → LeavesSelect q'.phase
unfolding select take_run
select_phase true q q' e =
    either_of (LeavesSelect q'.phase) (stop q) (take_run q) q' (stop_phase q q')
      (take_with_phase q.buffer q q') e
select_phase false q q' e =
    either_of (LeavesSelect q'.phase) (take_run q) (stop q) q' (take_with_phase q.buffer q q')
      (stop_phase q q') e

add_first : (k : ℕ) (m : Cancels) → m.keys ≡ [] → (add_cancel k m).keys ≡ k ∷ []
unfolding add_cancel
add_first k m h = ground (arith, h)

leaving-KeysAt :
    (p : Phase) (b : Bool) (m : Cancels) → KeysAt waiting b m → LeavesSelect p → KeysAt p b m
leaving-KeysAt p b m h (inl (r, e)) = rw e (h.1 ∙ rw h.0 refl)
leaving-KeysAt p b m h (inr e) = rw e h

processed-KeysAt :
    (r : Run) (b b' : Bool) (m m' : Cancels)
    → KeysAt (processing r) b m
    → go_on (processing r) b m ≡ some (b', m')
    → KeysAt (sending r) b' m'
unfolding go_on
processed-KeysAt r true b' m m' h g =
    let e = some-injective _ _ g in (ap (λ p. p.0) (sym e), ap (λ p. p.1.keys) (sym e) ∙ h)
processed-KeysAt r false b' m m' h g = absurd (none-ne-some _ g)

move-KeysAt :
    (p : Phase) (d : Bool) (q q' : Queue) (b b' : Bool) (m m' : Cancels)
    → AtPhase p q
    → KeysAt p b m
    → move p d q ≡ some (ok q')
    → go_on p b m ≡ some (b', m')
    → KeysAt q'.phase b' m'
unfolding move go_on
move-KeysAt waiting d q q' b b' m m' at h e g =
    let same = some-injective _ _ g in
    subst (λ p. KeysAt q'.phase p.0 p.1) same
      (leaving-KeysAt q'.phase b m h (select_phase d q q' e))
move-KeysAt (processing r) d q q' b b' m m' at h e g =
    let to : sending r ≡ q'.phase = ground (arith, e) in
    rw (← to) (processed-KeysAt r b b' m m' h g)
move-KeysAt (sending r) d q q' b b' m m' at h e g = absurd (ground (arith, e))
move-KeysAt (receiving r) d q q' b b' m m' at h e g =
    let to : closing r ≡ q'.phase = ground (arith, e) in
    let same = some-injective _ _ g in rw (← to) (subst (λ p. KeysAt (closing r) p.0 p.1) same h)
move-KeysAt (closing r) d q q' b b' m m' at h e g =
    let shut = at.1 in absurd (ground (arith, e, shut))
move-KeysAt stopped d q q' b b' m m' at h e g = absurd (none-ne-some _ e)

waiting_phase : (p : Phase) → is_waiting p ≡ true → p ≡ waiting
waiting_phase waiting e = refl
waiting_phase (processing r) e = absurd (cc e)
waiting_phase (sending r) e = absurd (cc e)
waiting_phase (receiving r) e = absurd (cc e)
waiting_phase (closing r) e = absurd (cc e)
waiting_phase stopped e = absurd (cc e)

handed-KeysAt :
    (r : Run) (p : Phase) (b : Bool) (m : Cancels)
    → p ≡ waiting
    → KeysAt p b m
    → KeysAt (processing r) b m
handed-KeysAt r p b m e h =
    leaving-KeysAt (processing r) b m (subst (λ p. KeysAt p b m) e h) (inl (r, refl))

enqueue-KeysAt :
    (r : Run) (q : Queue) (b : Bool) (m : Cancels)
    → KeysAt q.phase b m
    → KeysAt (enqueue r q).1.phase b m
unfolding enqueue
enqueue-KeysAt r q b m h =
    let P = λ (p : Result (Unit {0}) × Queue). KeysAt p.1.phase b m in
    if_both P q.queue_closed _ _ (λ e. h)
      (λ e.
        if_both P (ltb (length q.buffer) q.capacity) _ _ (λ free. h)
          (λ full.
            if_both P ((q.capacity == 0) && is_waiting q.phase) _ _
              (λ now. handed-KeysAt r q.phase b m (waiting_phase q.phase (ground (arith, now))) h)
              (λ no. h)))

shutdown-KeysAt :
    (p : Phase) (q : Queue) (b : Bool) (m : Cancels)
    → p ≡ q.phase
    → KeysAt p b m
    → KeysAt (shutdown_at p q).phase b m
unfolding shutdown_at
shutdown-KeysAt waiting q b m e h = rw (← e) h
shutdown-KeysAt (processing r) q b m e h = rw (← e) h
shutdown-KeysAt (sending r) q b m e h = h
shutdown-KeysAt (receiving r) q b m e h = rw (← e) h
shutdown-KeysAt (closing r) q b m e h = rw (← e) h
shutdown-KeysAt stopped q b m e h = rw (← e) h

added-KeysAt :
    (r : Run) (p : Phase) (m : Cancels)
    → p ≡ processing r
    → KeysAt p false m
    → KeysAt p true (add_cancel r.run_id m)
added-KeysAt r p m e h = rw e (add_first r.run_id m (subst (λ p. KeysAt p false m) e h))

KeysAt-same :
    (p : Phase) (b : Bool) (m m' : Cancels) → m'.keys ≡ m.keys → KeysAt p b m → KeysAt p b m'
KeysAt-same waiting b m m' e h = (h.0, e ∙ h.1)
KeysAt-same (processing r) b m m' e h = e ∙ h
KeysAt-same (sending r) b m m' e h = (h.0, e ∙ h.1)
KeysAt-same (receiving r) b m m' e h = (h.0, e ∙ h.1)
KeysAt-same (closing r) b m m' e h = (h.0, e ∙ h.1)
KeysAt-same stopped b m m' e h = (h.0, e ∙ h.1)

call_keys : (k : ℕ) (m : Cancels) → (cancel_run k m).1.keys ≡ m.keys
unfolding cancel_run
call_keys k m = ground arith

Watched-KeysAt : {c : ℕ} {q : Queue} {b : Bool} {m : Cancels} → Watched c q b m → KeysAt q.phase b m
unfolding new_run_queue run_step shutdown
Watched-KeysAt made = (refl, refl)
Watched-KeysAt (added {q = q} {m = m} r w e) = added-KeysAt r q.phase m e (Watched-KeysAt w)
Watched-KeysAt {c = c} (ran {q = q} {q' = q'} {b = b} {b' = b'} {m = m} {m' = m'} d w e g) =
    move-KeysAt q.phase d q q' b b' m m' (Steps-IsSound c q (Watched-Steps w)).3 (Watched-KeysAt w)
      e g
Watched-KeysAt (enqueued {q = q} {b = b} {m = m} r w) = enqueue-KeysAt r q b m (Watched-KeysAt w)
Watched-KeysAt (shut {q = q} {b = b} {m = m} w) =
    if_both (λ (s : Queue). KeysAt s.phase b m) q.done_closed _ _ (λ e. Watched-KeysAt w)
      (λ e. shutdown-KeysAt q.phase q b m refl (Watched-KeysAt w))
Watched-KeysAt (cancel {q = q} {b = b} {m = m} k w) =
    KeysAt-same q.phase b m (cancel_run k m).1 (call_keys k m) (Watched-KeysAt w)

-- A run is in the map exactly when it has been taken and added.
has_key :
    (p : Phase) (q : Queue) (b : Bool) (m : Cancels) (k : ℕ)
    → AtPhase p q
    → KeysAt p b m
    → any (λ j. j == k) m.keys ≡ (b && any (λ r. r.run_id == k) q.taken)
has_key waiting q b m k at h = let (f, e) = h in rw (f, e) refl
has_key (processing r) q true m k at h = rw (at, h) refl
has_key (processing r) q false m k at h = rw h refl
has_key (sending r) q b m k at h = let (f, e) = h in rw (f, e, at) refl
has_key (receiving r) q b m k at h = let (f, e) = h in rw (f, e, at) refl
has_key (closing r) q b m k at h = let (f, e) = h in let t = at.0 in rw (f, e, t) refl
has_key stopped q b m k at h = let (f, e) = h in rw (f, e) refl

-- At any time, `CancelRun` cancels the context of the run that the queue has taken up and whose
-- function it has added to the map, also when that run has ended, since the queue never gets to
-- where it takes the function out again. For any other run, waiting, taken but not yet added, or
-- unknown, it panics and cancels nothing.
pub cancel_run_lem :
    {capacity : ℕ} {q : Queue} {b : Bool} {m : Cancels} (run_id : ℕ)
    → Watched capacity q b m
    → cancel_run run_id m ≡ (
        if b && any (λ r. r.run_id == run_id) q.taken
        then (ok tt, record m { cancelled = m.cancelled ++ run_id ∷ [] })
        else (panic, m))
unfolding cancel_run call
cancel_run_lem {capacity} {q} {b} {m} k w =
    ap (λ c. if c then (ok tt, record m { cancelled = m.cancelled ++ k ∷ [] }) else (panic, m))
      (has_key q.phase q b m k (Steps-IsSound capacity q (Watched-Steps w)).3 (Watched-KeysAt w))
