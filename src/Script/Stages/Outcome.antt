-- ===== src/Script/Stages/Outcome.antt =====
-- When a script passes, and what a failure stops.
use simple_ci.Base.{
  ◌≡◌, refl, ap, sym, ◌∙◌, ◌↔◌, none, some, List, [], ◌∷◌, ◌++◌, ℕ, suc, ◌+◌, length, All, arith,
  Option-cases, inl, inr,
}
use simple_ci.Script.{Step, Stage}
use simple_ci.Script.Report.{Report, send, ◌>>◌, >>_passes, >>_stops, >>_assoc}
use simple_ci.Script.Group.Schedules.{run_group_passes}
use simple_ci.Script.Stages.{
  Executor, run_step, threads, execute_stages, starting, passed, passed_stage,
}
use simple_ci.Script.Stages.Batches.{batches, run_batch, run_batches, IsBatch, flatten, batches_lem}
use simple_ci.Script.Stages.Equivalence.{run_stage, run_stages, execute_stages-eq-run_stages}

-- Every step from position `j` on runs without an error.
abbrev pub AllPass : Executor → ℕ → ℕ → List Step → Type 0
AllPass x i j [] = Unit
AllPass x i j (s ∷ ss) = ((x.execute i j s).error ≡ none) × AllPass x i (suc j) ss

-- So does every step of every stage.
abbrev pub StagesPass : Executor → ℕ → List Stage → Type 0
StagesPass x i [] = Unit
StagesPass x i (s ∷ ss) = AllPass x i 0 s.steps × StagesPass x (suc i) ss

run_step_passes :
    (x : Executor) (i j : ℕ) (s : Step)
    → ((run_step x i j s).error ≡ none) ↔ ((x.execute i j s).error ≡ none)
unfolding run_step
run_step_passes x i j s = go (x.execute i j s)
  where
    go :
        (r : Report)
        → ((send (starting s) >> (r >> send (passed s))).error ≡ none) ↔ (r.error ≡ none)
    go r = (
      (λ h. ((>>_passes r (send (passed s))).0 h).0),
      λ h. (>>_passes r (send (passed s))).1 (h, refl),
    )

threads_pass :
    (x : Executor) (i j : ℕ) (ss : List Step)
    → All (λ r. r.error ≡ none) (threads x i j ss) ↔ AllPass x i j ss
unfolding threads
threads_pass x i j [] = ((λ h. tt), λ h. tt)
threads_pass x i j (s ∷ ss) =
    let here = run_step_passes x i j s in
    let there = threads_pass x i (suc j) ss in
    ((λ h. (here.0 h.0, there.0 h.1)), λ h. (here.1 h.0, there.1 h.1))

AllPass-append :
    (x : Executor) (i j : ℕ) (ss ts : List Step)
    → AllPass x i j (ss ++ ts) ↔ (AllPass x i j ss × AllPass x i (j + length ss) ts)
AllPass-append x i j [] ts = let e : j + 0 ≡ j = omega arith in rw e ((λ h. (tt, h)), λ h. h.1)
AllPass-append x i j (s ∷ ss) ts =
    let e : j + suc (length ss) ≡ suc j + length ss = omega arith in
    let ih = AllPass-append x i (suc j) ss ts in
    rw e ((λ h. ((h.0, (ih.0 h.1).0), (ih.0 h.1).1)), λ h. (h.0.0, ih.1 (h.0.1, h.1)))

run_batch_passes :
    (x : Executor) (i j : ℕ) (b : List Step)
    → IsBatch b
    → ((run_batch x i j b).error ≡ none) ↔ AllPass x i j b
unfolding run_batch
run_batch_passes x i j [] h = absurd h
run_batch_passes x i j (s ∷ ss) (inl (p, e)) =
    let one = run_step_passes x i j s in simp p (rw e ((λ h. (one.0 h, tt)), λ h. one.1 h.0))
run_batch_passes x i j (s ∷ ss) (inr (p, h)) =
    let group = run_group_passes (x.schedule i j) (threads x i j (s ∷ ss)) in
    let all = threads_pass x i j (s ∷ ss) in
    simp p ((λ h. all.0 (group.0 h)), λ h. group.1 (all.1 h))

run_batches_pass :
    (x : Executor) (i j : ℕ) (bs : List (List Step))
    → All IsBatch bs
    → ((run_batches x i j bs).error ≡ none) ↔ AllPass x i j (flatten bs)
unfolding run_batches
run_batches_pass x i j [] h = ((λ h. tt), λ h. refl)
run_batches_pass x i j (b ∷ bs) h =
    let here = run_batch_passes x i j b h.0 in
    let there = run_batches_pass x i (j + length b) bs h.1 in
    let both = >>_passes (run_batch x i j b) (run_batches x i (j + length b) bs) in
    let all = AllPass-append x i j b (flatten bs) in
    (
      (λ e. all.1 (here.0 (both.0 e).0, there.0 (both.0 e).1)),
      λ e. both.1 (here.1 (all.0 e).0, there.1 (all.0 e).1),
    )

run_stage_passes :
    (x : Executor) (i : ℕ) (s : Stage) → ((run_stage x i s).error ≡ none) ↔ AllPass x i 0 s.steps
unfolding run_stage
run_stage_passes x i s =
    let cut = batches_lem s.steps in
    let all = run_batches_pass x i 0 (batches s.steps) cut.1 in
    let last = >>_passes (run_batches x i 0 (batches s.steps)) (send (passed_stage s)) in
    ((λ e. rw cut.0 at (all.0 (last.0 e).0)), λ h. last.1 (all.1 (rw (← cut.0) at h), refl))

run_stages_pass :
    (x : Executor) (i : ℕ) (ss : List Stage)
    → ((run_stages x i ss).error ≡ none) ↔ StagesPass x i ss
unfolding run_stages
run_stages_pass x i [] = ((λ h. tt), λ h. refl)
run_stages_pass x i (s ∷ ss) =
    let here = run_stage_passes x i s in
    let there = run_stages_pass x (suc i) ss in
    let both = >>_passes (run_stage x i s) (run_stages x (suc i) ss) in
    ((λ e. (here.0 (both.0 e).0, there.0 (both.0 e).1)), λ h. both.1 (here.1 h.0, there.1 h.1))

-- If the command of every step comes back and every message is taken off `rq.outputCh`, the loops
-- over the stages and steps of a script come to their end, and they end without an error exactly
-- when every step of every stage does, whatever the schedules of its parallel steps.
pub execute_stages_passes :
    (x : Executor) (i : ℕ) (ss : List Stage)
    → (r : Report) × (execute_stages x i ss ≡ some r) × ((r.error ≡ none) ↔ StagesPass x i ss)
execute_stages_passes x i ss =
    (run_stages x i ss, execute_stages-eq-run_stages x i ss, run_stages_pass x i ss)

run_stages-append :
    (x : Executor) (i : ℕ) (ss ts : List Stage)
    → run_stages x i (ss ++ ts) ≡ (run_stages x i ss >> run_stages x (i + length ss) ts)
unfolding run_stages
run_stages-append x i [] ts = let e : i + 0 ≡ i = omega arith in rw e refl
run_stages-append x i (s ∷ ss) ts =
    let e : i + suc (length ss) ≡ suc i + length ss = omega arith in
    rw e (
      ap (λ r. run_stage x i s >> r) (run_stages-append x (suc i) ss ts)
      ∙ sym (
          >>_assoc (run_stage x i s) (run_stages x (suc i) ss)
            (run_stages x (suc i + length ss) ts)))

-- If some step of some stage fails, no stage behind those runs: the messages and the error are
-- those of the script cut off there.
pub execute_stages-append_failed :
    (x : Executor) (i : ℕ) (ss ts : List Stage)
    → ¬ StagesPass x i ss
    → execute_stages x i (ss ++ ts) ≡ execute_stages x i ss
execute_stages-append_failed x i ss ts bad = elim (Option-cases (run_stages x i ss).error) [
  | inl e ↦ absurd (bad ((run_stages_pass x i ss).0 e))
  | inr (y, e) ↦
      execute_stages-eq-run_stages x i (ss ++ ts)
      ∙ ap some (run_stages-append x i ss ts ∙ >>_stops _ _ e)
      ∙ sym (execute_stages-eq-run_stages x i ss)
]
