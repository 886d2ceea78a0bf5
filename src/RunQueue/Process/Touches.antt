-- ===== src/RunQueue/Process/Touches.antt =====
-- What a call of the run store leaves alone, for `processRun` and `handleProcessingFailed` of
-- `internal/service/run_queue.go`.
use mathlib.Core.Option
use simple_ci.Base.{
  ◌≡◌, refl, ap, ◌∙◌, ◌≢◌, ℕ, Option, none, some, ◌==◌, true, arith, inl, inr, Bool-cases, ==_iff,
}
use simple_ci.Base.Errors.{Result, ok, err, panic}
use simple_ci.Base.Exec.{Exec, ◌>>=◌, Respects, Respects-bind, Respects-bind_ok}
use simple_ci.Store.{Run}
use simple_ci.Store.Runs.Interface.{RunStore, Updates, Reads}
use simple_ci.RunQueue.Process.{World}

-- A run keeps its key, its pipeline, its branch and what it has printed.
abbrev pub SameRun : Option Run → Option Run → Type 0
SameRun none none = Unit
SameRun none (some r) = ⊥
SameRun (some r) none = ⊥
SameRun (some r) (some r') =
    (r'.run_id ≡ r.run_id)
    × (r'.run_pipeline_id ≡ r.run_pipeline_id)
    × (r'.branch ≡ r.branch)
    × (r'.output ≡ r.output)
    × (r'.created_on ≡ r.created_on)

SameRun-refl : (o : Option Run) → SameRun o o
SameRun-refl none = tt
SameRun-refl (some r) = (refl, refl, refl, refl, refl)

SameRun-trans : (a b c : Option Run) → SameRun a b → SameRun b c → SameRun a c
SameRun-trans none none none h k = tt
SameRun-trans none none (some c) h k = k
SameRun-trans none (some b) c h k = absurd h
SameRun-trans (some a) none c h k = absurd h
SameRun-trans (some a) (some b) none h k = k
SameRun-trans (some a) (some b) (some c) h k = ground arith

module _ (rs : RunStore) (k : ℕ) where
  open rs use {State, row}

  -- Of the stored runs only run `k` is touched, and it stays the same run.
  pub record Touches (s t : State) : Type 0 where
    pub others : (j : ℕ) → j ≢ k → row t j ≡ row s j
    pub same : SameRun (row s k) (row t k)

  pub Touches-refl : (s : State) → Touches s s
  Touches-refl s = record { others = λ j h. refl; same = SameRun-refl (row s k) }

  pub Touches-trans : (s t u : State) → Touches s t → Touches t u → Touches s u
  Touches-trans s t u h h' = record {
    others = λ j ne. h'.others j ne ∙ h.others j ne;
    same = SameRun-trans (row s k) (row t k) (row u k) h.same h'.same;
  }

  abbrev pub Moves : World State → World State → Type 0
  Moves w v = Touches w.store v.store

  abbrev pub Keeps : {A : Type 0} → Exec (World State) A → Type 0
  Keeps m = Respects Moves m

  pub Keeps-bind_ok :
      {A B : Type 0} (Q : A → Type 0) (m : Exec (World State) A) (f : A → Exec (World State) B)
      → Keeps m
      → ((w : World State) (a : A) → (m w).0 ≡ ok a → Q a)
      → ((a : A) → Q a → Keeps (f a))
      → Keeps (m >>= f)
  Keeps-bind_ok Q m f =
      Respects-bind_ok Moves (λ w. Touches-refl w.store)
        (λ s t u. Touches-trans s.store t.store u.store) Q m f

  pub Keeps-bind :
      {A B : Type 0} (m : Exec (World State) A) (f : A → Exec (World State) B)
      → Keeps m
      → ((a : A) → Keeps (f a))
      → Keeps (m >>= f)
  Keeps-bind m f =
      Respects-bind Moves (λ w. Touches-refl w.store)
        (λ s t u. Touches-trans s.store t.store u.store) m f

  map-SameRun :
      (f : Run → Run) (o : Option Run)
      → ((r : Run) → SameRun (some r) (some (f r)))
      → SameRun o (Option.map f o)
  map-SameRun f none same = tt
  map-SameRun f (some r) same = same r

  pub Updates-Touches :
      (f : Run → Run) (s : State) (p : Result (Unit {0}) × State)
      → ((r : Run) → SameRun (some r) (some (f r)))
      → Updates row k f s p
      → Touches s p.1
  Updates-Touches f s (ok a, t) same h =
      let self : (k == k) ≡ true = (==_iff k k).1 refl in
      record {
        others = λ j ne. h j ∙ (elim (Bool-cases (j == k)) [
          | inl e ↦ absurd (ne ((==_iff j k).0 e))
          | inr e ↦ rw e refl
        ]);
        same = rw (h k) (rw self (map-SameRun f (row s k) same));
      }
  Updates-Touches f s (err e, t) same h = record {
    others = λ j ne. h j;
    same = rw (h k) (SameRun-refl (row s k));
  }
  Updates-Touches f s (panic, t) same h = absurd h

  pub Reads-Touches : (s : State) (p : Result Run × State) → Reads row k s p → Touches s p.1
  Reads-Touches s (ok r, t) h = record {
    others = λ j ne. h.1 j;
    same = rw (h.1 k) (SameRun-refl (row s k));
  }
  Reads-Touches s (err e, t) h = record {
    others = λ j ne. h j;
    same = rw (h k) (SameRun-refl (row s k));
  }
  Reads-Touches s (panic, t) h = absurd h

  pub read-key :
      (s : State) (r : Run) (p : Result Run × State) → Reads row k s p → p.0 ≡ ok r → r.run_id ≡ k
  read-key s r (ok r', t) h e = rs.row_key s k r (h.0 ∙ ap some (ground arith))
  read-key s r (err x, t) h e = absurd (cc (e))
  read-key s r (panic, t) h e = absurd h
