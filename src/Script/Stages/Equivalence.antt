-- ===== src/Script/Stages/Equivalence.antt =====
-- The index loops over a script run the batches of its stages in order, and their fuel is enough.
use simple_ci.Base.{
  ◌≡◌, refl, ap, sym, ◌∙◌, none, some, List, [], ◌∷◌, ℕ, zero, suc, ◌≤◌, ◌+◌, ◌<◌, length,
  get_elem?, drop, arith, Bool-cases, Option-cases, inl, inr, true, false,
}
use simple_ci.Script.{Step, Stage}
use simple_ci.Script.Report.{Report, pass, send, ◌>>◌}
use simple_ci.Script.Group.{run_group}
use simple_ci.Script.Stages.{
  Executor, run_step, threads, collect, stage_loop, and_then, execute_steps, execute_stages,
  starting_stage, passed_stage, surround, then_stages,
}
use simple_ci.Script.Stages.Batches.{batches, run_batch, run_batches}
use simple_ci.Script.Stages.Collect.{
  take_parallel, drop-none, drop-some, batches-sequential, batches-parallel, collect-Run,
  length-drop_parallel-le,
}

length-drop-le {ℓ} : {A : Type ℓ} (n : ℕ) (xs : List A) → length (drop n xs) ≤ length xs
length-drop-le zero xs = omega arith
length-drop-le (suc n) [] = omega arith
length-drop-le (suc n) (x ∷ xs) = omega (arith, length-drop-le n xs)

module _ (x : Executor) (i fuel : ℕ) (steps : List Step) (si : ℕ) where
  stage_loop-none : get_elem? steps si ≡ none → stage_loop x i (suc fuel) steps si ≡ some pass
  unfolding stage_loop
  stage_loop-none e = ground arith

  module _ (s : Step) (e : get_elem? steps si ≡ some s) where
    stage_loop-parallel :
        s.parallel ≡ true
        → let found = collect (length steps) steps (suc si) in
          stage_loop x i (suc fuel) steps si
          ≡ and_then
              (run_group (x.schedule i si) (threads x i si (s ∷ found.0)))
              (stage_loop x i fuel steps found.1)
    unfolding stage_loop
    stage_loop-parallel p = ground arith

    stage_loop-sequential :
        s.parallel ≡ false
        → stage_loop x i (suc fuel) steps si
          ≡ and_then (run_step x i si s) (stage_loop x i fuel steps (suc si))
    unfolding stage_loop
    stage_loop-sequential q = ground arith

run_batch-parallel :
    (x : Executor) (i j : ℕ) (s : Step) (ss : List Step)
    → s.parallel ≡ true
    → run_batch x i j (s ∷ ss) ≡ run_group (x.schedule i j) (threads x i j (s ∷ ss))
unfolding run_batch
run_batch-parallel x i j s ss p = ground arith

run_batch-sequential :
    (x : Executor) (i j : ℕ) (s : Step) (ss : List Step)
    → s.parallel ≡ false
    → run_batch x i j (s ∷ ss) ≡ run_step x i j s
unfolding run_batch
run_batch-sequential x i j s ss q = ground arith

run_batches-cons :
    (x : Executor) (i si : ℕ) (b : List Step) (bs : List (List Step)) {next : ℕ} {r : Report}
    → si + length b ≡ next
    → run_batch x i si b ≡ r
    → run_batches x i si (b ∷ bs) ≡ (r >> run_batches x i next bs)
unfolding run_batches
run_batches-cons x i si b bs {next} at run =
    ap (λ j. run_batch x i si b >> run_batches x i j bs) at
    ∙ ap (λ r. r >> run_batches x i next bs) run

stage_loop_lem :
    (x : Executor) (i fuel : ℕ) (steps : List Step) (si : ℕ)
    → length (drop si steps) < fuel
    → stage_loop x i fuel steps si ≡ some (run_batches x i si (batches (drop si steps)))
stage_loop_lem x i zero steps si h = absurd (omega arith)
stage_loop_lem x i (suc fuel) steps si h = elim (Option-cases (get_elem? steps si)) [
  | inl e ↦
      unfold run_batches batches in
      rw (stage_loop-none x i fuel steps si e, drop-none steps si e) refl
  | inr (s, e) ↦
      let left = drop-some steps si e in
      let after = drop (suc si) steps in
      elim (Bool-cases s.parallel) [
        | inl p ↦
            let found = collect (length steps) steps (suc si) in
            let run =
              collect-Run (length steps) steps (suc si)
                (omega (arith, length-drop-le (suc si) steps)) in
            let ih =
              stage_loop_lem x i fuel steps found.1
                (omega (arith, ap length left, ap length run.1, length-drop_parallel-le after)) in
            let group =
              λ (more : List Step). run_group (x.schedule i si) (threads x i si (s ∷ more)) in
            stage_loop-parallel x i fuel steps si s e p
            ∙ ap (and_then (group found.0)) ih
            ∙ ap some (
                sym (
                  ap (run_batches x i si) (ap batches left ∙ batches-parallel s after p)
                  ∙ run_batches-cons x i si (s ∷ take_parallel after) _ {next = found.1}
                      (omega (arith, run.2))
                      (run_batch-parallel x i si s _ p ∙ ap group (sym run.0))
                  ∙ ap (λ l. group found.0 >> run_batches x i found.1 (batches l)) (sym run.1)))
        | inr q ↦
            let ih = stage_loop_lem x i fuel steps (suc si) (omega (arith, ap length left)) in
            stage_loop-sequential x i fuel steps si s e q
            ∙ ap (and_then (run_step x i si s)) ih
            ∙ ap some (
                sym (
                  ap (run_batches x i si) (ap batches left ∙ batches-sequential s after q)
                  ∙ run_batches-cons x i si (s ∷ []) _ (omega arith)
                      (run_batch-sequential x i si s [] q)))
      ]
]

-- One stage by its batches.
unfoldable pub run_stage : Executor → ℕ → Stage → Report
run_stage x i s =
    send (starting_stage s) >> (run_batches x i 0 (batches s.steps) >> send (passed_stage s))

-- The stages by their batches, with no index and no fuel.
unfoldable pub run_stages : Executor → ℕ → List Stage → Report
run_stages x i [] = pass
run_stages x i (s ∷ ss) = run_stage x i s >> run_stages x (suc i) ss

execute_steps_lem :
    (x : Executor) (i : ℕ) (steps : List Step)
    → execute_steps x i steps ≡ some (run_batches x i 0 (batches steps))
unfolding execute_steps
execute_steps_lem x i steps = stage_loop_lem x i (suc (length steps)) steps 0 (omega arith)

-- The loops over stages and steps end, and they do what running the batches of each stage in
-- order does: the same messages, in the same order, and the same error.
pub execute_stages-eq-run_stages :
    (x : Executor) (i : ℕ) (ss : List Stage) → execute_stages x i ss ≡ some (run_stages x i ss)
unfolding execute_stages run_stages run_stage
execute_stages-eq-run_stages x i [] = refl
execute_stages-eq-run_stages x i (s ∷ ss) =
    ap
      (λ r.
        then_stages (surround (starting_stage s) r (passed_stage s)) (execute_stages x (suc i) ss))
      (execute_steps_lem x i s.steps)
    ∙ ap (and_then (run_stage x i s)) (execute_stages-eq-run_stages x (suc i) ss)
