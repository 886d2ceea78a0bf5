-- ===== src/Script/Stages/Collect.antt =====
-- The loop on `sii`, which gathers the parallel steps behind a parallel step.
use simple_ci.Base.{
  ◌≡◌, refl, ap, true, false, none, some, List, [], ◌∷◌, ℕ, zero, suc, ◌+◌, ◌<◌, ◌≤◌, length,
  get_elem?, drop, arith, Bool-cases, Option-cases, inl, inr,
}
use simple_ci.Script.{Step}
use simple_ci.Script.Stages.{collect}
use simple_ci.Script.Stages.Batches.{join_batch, batches}

pub take_parallel : List Step → List Step
take_parallel [] = []
take_parallel (s ∷ ss) = elim s.parallel [ true ↦ s ∷ take_parallel ss | false ↦ [] ]

pub drop_parallel : List Step → List Step
drop_parallel [] = []
drop_parallel (s ∷ ss) = elim s.parallel [ true ↦ drop_parallel ss | false ↦ s ∷ ss ]

take_parallel-true :
    (s : Step) (ss : List Step) → s.parallel ≡ true → take_parallel (s ∷ ss) ≡ s ∷ take_parallel ss
unfolding take_parallel
take_parallel-true s ss h = ground arith

take_parallel-false : (s : Step) (ss : List Step) → s.parallel ≡ false → take_parallel (s ∷ ss) ≡ []
unfolding take_parallel
take_parallel-false s ss h = ground arith

drop_parallel-true :
    (s : Step) (ss : List Step) → s.parallel ≡ true → drop_parallel (s ∷ ss) ≡ drop_parallel ss
unfolding drop_parallel
drop_parallel-true s ss h = ground arith

drop_parallel-false :
    (s : Step) (ss : List Step) → s.parallel ≡ false → drop_parallel (s ∷ ss) ≡ s ∷ ss
unfolding drop_parallel
drop_parallel-false s ss h = ground arith

module _ (fuel : ℕ) (steps : List Step) (j : ℕ) (s : Step) (e : get_elem? steps j ≡ some s) where
  collect-parallel :
      s.parallel ≡ true
      → collect (suc fuel) steps j
        ≡ (s ∷ (collect fuel steps (suc j)).0, (collect fuel steps (suc j)).1)
  unfolding collect
  collect-parallel p = ground arith

  collect-sequential : s.parallel ≡ false → collect (suc fuel) steps j ≡ ([], j)
  unfolding collect
  collect-sequential q = ground arith

module _ {ℓ} {A : Type ℓ} where
  pub drop-none : (xs : List A) (j : ℕ) → get_elem? xs j ≡ none → drop j xs ≡ []
  drop-none [] zero h = refl
  drop-none [] (suc j) h = refl
  drop-none (x ∷ xs) zero h = cc
  drop-none (x ∷ xs) (suc j) h = drop-none xs j h

  pub drop-some :
      (xs : List A) (j : ℕ) {x : A} → get_elem? xs j ≡ some x → drop j xs ≡ x ∷ drop (suc j) xs
  drop-some [] zero h = cc
  drop-some [] (suc j) h = cc
  drop-some (y ∷ xs) zero h = ground arith
  drop-some (y ∷ xs) (suc j) h = drop-some xs j h

pub batches-sequential :
    (s : Step) (ss : List Step) → s.parallel ≡ false → batches (s ∷ ss) ≡ (s ∷ []) ∷ batches ss
unfolding batches join_batch
batches-sequential s ss h = go (batches ss)
  where
    go : (bs : List (List Step)) → join_batch s bs ≡ (s ∷ []) ∷ bs
    go [] = refl
    go (b ∷ bs) = ground arith

-- `batches` takes a parallel step and the parallel steps after it into one batch.
pub batches-parallel :
    (s : Step) (ss : List Step)
    → s.parallel ≡ true
    → batches (s ∷ ss) ≡ (s ∷ take_parallel ss) ∷ batches (drop_parallel ss)
unfolding batches join_batch take_parallel drop_parallel
batches-parallel s [] h = refl
batches-parallel s (t ∷ ss) h = elim (Bool-cases t.parallel) [
  | inl p ↦ rw (batches-parallel t ss p) (ground arith)
  | inr q ↦ rw (batches-sequential t ss q) (ground arith)
]

-- `found` is the longest run of parallel steps from position `j` on, and the position after it.
abbrev pub Run : List Step → ℕ → List Step × ℕ → Type 0
Run steps j found =
    (found.0 ≡ take_parallel (drop j steps))
    × (drop found.1 steps ≡ drop_parallel (drop j steps))
    × (found.1 ≡ j + length (take_parallel (drop j steps)))

nil_of_length {ℓ} : {A : Type ℓ} (xs : List A) → length xs < 1 → xs ≡ []
nil_of_length [] h = refl
nil_of_length (x ∷ xs) h = absurd (omega arith)

Run-end : (steps : List Step) (j : ℕ) → drop j steps ≡ [] → Run steps j ([], j)
unfolding take_parallel drop_parallel
Run-end steps j e = rw e (refl, refl, omega arith)

pub collect-Run :
    (fuel : ℕ) (steps : List Step) (j : ℕ)
    → length (drop j steps) < suc fuel
    → Run steps j (collect fuel steps j)
collect-Run zero steps j h = unfold collect in Run-end steps j (nil_of_length (drop j steps) h)
collect-Run (suc fuel) steps j h = elim (Option-cases (get_elem? steps j)) [
  | inl e ↦ unfold collect in rw (e, collect) (Run-end steps j (drop-none steps j e))
  | inr (s, e) ↦ elim (Bool-cases s.parallel) [
    | inl p ↦
        let ih = collect-Run fuel steps (suc j) (omega (arith, ap length (drop-some steps j e))) in
        let taken = drop-some steps j e in
        rw
          (
            collect-parallel fuel steps j s e p,
            taken,
            take_parallel-true s _ p,
            drop_parallel-true s _ p,
          )
          (ap (◌∷◌ s) ih.0, ih.1, omega (arith, ih.2))
    | inr q ↦
        let taken = drop-some steps j e in
        rw
          (
            collect-sequential fuel steps j s e q,
            taken,
            take_parallel-false s _ q,
            drop_parallel-false s _ q,
          )
          (refl, refl, omega arith)
  ]
]

pub length-drop_parallel-le : (ss : List Step) → length (drop_parallel ss) ≤ length ss
unfolding drop_parallel
length-drop_parallel-le [] = omega arith
length-drop_parallel-le (s ∷ ss) = ground (arith, length-drop_parallel-le ss)
