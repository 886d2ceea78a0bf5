-- ===== src/Script/Stages/Batches.antt =====
-- A stage as the list of batches that the loops of `internal/service/run_queue.go` make of it: a
-- reference that says nothing of indices.
use simple_ci.Base.{
  ◌≡◌, refl, ap, ◌∙◌, ◌⊎◌, inl, inr, Bool, true, false, ◌&&◌, List, [], ◌∷◌, ◌++◌, ℕ, ◌+◌, length,
  All, arith, if◌then◌else◌, Bool-cases,
}
use simple_ci.Script.{Step}
use simple_ci.Script.Report.{Report, pass, ◌>>◌}
use simple_ci.Script.Group.{run_group}
use simple_ci.Script.Stages.{Executor, run_step, threads}

-- Whether a batch begins with a parallel step.
abbrev pub is_parallel : List Step → Bool
is_parallel [] = false
is_parallel (s ∷ ss) = s.parallel

unfoldable pub join_batch : Step → List (List Step) → List (List Step)
join_batch s [] = (s ∷ []) ∷ []
join_batch s (b ∷ bs) = if s.parallel && is_parallel b then (s ∷ b) ∷ bs else (s ∷ []) ∷ b ∷ bs

unfoldable pub batches : List Step → List (List Step)
batches [] = []
batches (s ∷ ss) = join_batch s (batches ss)

unfoldable pub run_batch : Executor → ℕ → ℕ → List Step → Report
run_batch x i j [] = pass
run_batch x i j (s ∷ ss) =
    if s.parallel then run_group (x.schedule i j) (threads x i j (s ∷ ss)) else run_step x i j s

unfoldable pub run_batches : Executor → ℕ → ℕ → List (List Step) → Report
unfolding run_batch
run_batches x i j [] = pass
run_batches x i j (b ∷ bs) = run_batch x i j b >> run_batches x i (j + length b) bs

abbrev pub flatten : List (List Step) → List Step
flatten [] = []
flatten (b ∷ bs) = b ++ flatten bs

-- One step that is not parallel, or parallel steps only.
abbrev pub IsBatch : List Step → Type 0
IsBatch [] = ⊥
IsBatch (s ∷ ss) =
    ((s.parallel ≡ false) × (ss ≡ [])) ⊎ ((s.parallel ≡ true) × All (λ t. t.parallel ≡ true) ss)

-- No two parallel batches stand side by side.
abbrev pub IsMaximal : List (List Step) → Type 0
IsMaximal [] = Unit
IsMaximal (b ∷ []) = Unit
IsMaximal (b ∷ c ∷ bs) = ((is_parallel b && is_parallel c) ≡ false) × IsMaximal (c ∷ bs)

flatten-join_batch : (s : Step) (bs : List (List Step)) → flatten (join_batch s bs) ≡ s ∷ flatten bs
unfolding join_batch
flatten-join_batch s [] = refl
flatten-join_batch s (b ∷ bs) = ground arith

flatten-batches : (ss : List Step) → flatten (batches ss) ≡ ss
unfolding batches
flatten-batches [] = refl
flatten-batches (s ∷ ss) = flatten-join_batch s (batches ss) ∙ ap (◌∷◌ s) (flatten-batches ss)

join_batch-IsBatch :
    (s : Step) (bs : List (List Step)) → All IsBatch bs → All IsBatch (join_batch s bs)
unfolding join_batch
join_batch-IsBatch s [] h =
    (elim (Bool-cases s.parallel) [ inl p ↦ inr (p, tt) | inr q ↦ inl (q, refl) ], tt)
join_batch-IsBatch s ([] ∷ bs) h = absurd h.0
join_batch-IsBatch s ((t ∷ ts) ∷ bs) h = ground arith

batches-IsBatch : (ss : List Step) → All IsBatch (batches ss)
unfolding batches
batches-IsBatch [] = tt
batches-IsBatch (s ∷ ss) = join_batch-IsBatch s (batches ss) (batches-IsBatch ss)

join_batch-IsMaximal :
    (s : Step) (bs : List (List Step)) → All IsBatch bs → IsMaximal bs → IsMaximal (join_batch s bs)
unfolding join_batch
join_batch-IsMaximal s [] h m = tt
join_batch-IsMaximal s ([] ∷ bs) h m = absurd h.0
join_batch-IsMaximal s ((t ∷ ts) ∷ []) h m = ground arith
join_batch-IsMaximal s ((t ∷ ts) ∷ c ∷ bs) h m = ground arith

batches-IsMaximal : (ss : List Step) → IsMaximal (batches ss)
unfolding batches
batches-IsMaximal [] = tt
batches-IsMaximal (s ∷ ss) =
    join_batch-IsMaximal s (batches ss) (batches-IsBatch ss) (batches-IsMaximal ss)

-- The batches of a stage are its steps in their order, each batch is one sequential step or a run
-- of parallel ones, and no run of parallel steps is cut in two.
pub batches_lem :
    (ss : List Step)
    → (flatten (batches ss) ≡ ss) × All IsBatch (batches ss) × IsMaximal (batches ss)
batches_lem ss = (flatten-batches ss, batches-IsBatch ss, batches-IsMaximal ss)
