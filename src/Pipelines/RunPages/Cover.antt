-- ===== src/Pipelines/RunPages/Cover.antt =====
-- What the pages of `GetPipelineRunsPage` of `internal/handler/pipelines.go` show together.
use mathlib.Core.Path.{subst}
use mathlib.Core.Nat as Nat
use mathlib.Core.List
use mathlib.Core.List.Perm
use mathlib.Core.List.{Perm, map-append}
use simple_ci.Base.{
  ◌≡◌, refl, sym, ap, ◌∙◌, ℕ, zero, suc, ◌+◌, ◌-◌, ◌*◌, ◌≤◌, max, List, [], ◌∷◌, ◌++◌, map, length,
  take, drop, true, arith,
}
use simple_ci.Base.Errors.{ok}
use simple_ci.Store.{Run}
use simple_ci.Store.Table.{Table}
use simple_ci.Store.Driver.{statement}
use simple_ci.Store.Runs.Lists.{runs_of, listed, count_pipeline_runs, list_pipeline_runs_paginated}
use simple_ci.Web.{Reply, Visit}
use simple_ci.Web.Paging.{max_pages, offset, current_page}
use simple_ci.Pipelines.RunPages.{
  RunsView, Site, known, get_pipeline_runs_page, get_pipeline_runs_list,
}

suc_add : (a b : ℕ) → suc a + b ≡ suc (a + b)
suc_add a b = omega arith

zero_add : (b : ℕ) → 0 + b ≡ b
zero_add b = omega arith

module _ {A : Type 0} where
  take-nil : (b : ℕ) → take {A = A} b [] ≡ []
  take-nil zero = refl
  take-nil (suc b) = refl

  drop-nil : (b : ℕ) → drop {A = A} b [] ≡ []
  drop-nil zero = refl
  drop-nil (suc b) = refl

  take-add : (a b : ℕ) (l : List A) → take (a + b) l ≡ take a l ++ take b (drop a l)
  take-add zero b l = ap (λ n. take n l) (zero_add b)
  take-add (suc a) b [] = take-nil (suc a + b) ∙ sym (take-nil b)
  take-add (suc a) b (x ∷ l) =
      ap (λ n. take n (x ∷ l)) (suc_add a b) ∙ ap (λ r. x ∷ r) (take-add a b l)

  drop-add : (a b : ℕ) (l : List A) → drop (a + b) l ≡ drop b (drop a l)
  drop-add zero b l = ap (λ n. drop n l) (zero_add b)
  drop-add (suc a) b [] = drop-nil (suc a + b) ∙ sym (drop-nil b)
  drop-add (suc a) b (x ∷ l) = ap (λ n. drop n (x ∷ l)) (suc_add a b) ∙ drop-add a b l

  take_all : (n : ℕ) (l : List A) → length l ≤ n → take n l ≡ l
  take_all zero [] h = refl
  take_all zero (x ∷ l) h = absurd (omega (arith, h))
  take_all (suc n) [] h = refl
  take_all (suc n) (x ∷ l) h = ap (λ r. x ∷ r) (take_all n l (omega (arith, h)))

-- The lists of the pages from number `k` on, counted from 0, one after the other.
abbrev pub gather : {A : Type 0} → (ℕ → List A) → ℕ → ℕ → List A
gather f k zero = []
gather f k (suc n) = f k ++ gather f (suc k) n

gather-pages :
    {A B : Type 0} (f : A → B) (l : List A) (k n : ℕ)
    → gather (λ j. map f (take 10 (drop (j * 10) l))) k n ≡ map f (take (n * 10) (drop (k * 10) l))
gather-pages f l k zero = refl
gather-pages f l k (suc n) =
    let rest = drop (k * 10) l in
    let next : drop (suc k * 10) l ≡ drop 10 rest =
      ap (λ (m : ℕ). drop m l) (omega arith) ∙ drop-add (k * 10) 10 l in
    ap (λ r. map f (take 10 rest) ++ r)
      (gather-pages f l (suc k) n ∙ ap (λ r. map f (take (n * 10) r)) next)
    ∙ sym (map-append f (take 10 rest) (take (n * 10) (drop 10 rest)))
    ∙ ap (map f) (sym (take-add 10 (n * 10) rest))
    ∙ ap (λ (m : ℕ). map f (take m rest)) (omega arith)

-- Enough pages for all, the first if there is no other.
pages_enough : (count : ℕ) → count ≤ max 1 (max_pages count) * 10
unfolding max_pages
pages_enough count = ground arith

gathered_all :
    {A B : Type 0} (f : A → B) (l : List A)
    → gather (λ j. map f (take 10 (drop (j * 10) l))) 0 (max 1 (max_pages (length l))) ≡ map f l
gathered_all f l =
    gather-pages f l 0 (max 1 (max_pages (length l)))
    ∙ ap (map f) (take_all (max 1 (max_pages (length l)) * 10) l (pages_enough (length l)))

native : Nat.ℕ → ℕ
native Nat.zero = 0
native (Nat.suc n) = suc (native n)

native-length : {A : Type 0} (l : List A) → native (List.length l) ≡ length l
unfolding native
native-length [] = refl
native-length (x ∷ l) = ap suc (native-length l)

length-perm : {A : Type 0} (l m : List A) → Perm l m → length l ≡ length m
length-perm l m p = sym (native-length l) ∙ ap native (Perm.length-eq p) ∙ native-length m

module _ (latest_first : List Run → List Run) (id : ℕ) where
  -- What page `n`, counted from 0, shows of the runs.
  abbrev view : Table Run → ℕ → RunsView
  view t n = record {
    runs = map listed (take 10 (drop (n * 10) (latest_first (runs_of id t))));
    pipeline_id = id;
    current = suc n;
    pages = max_pages (length (runs_of id t));
  }

  -- A site whose runs are the rows of a table, with a database that refuses no query on them.
  abbrev pub with_runs : Table Run → Site → Site
  with_runs t a = record a { runs = record { stored = t; refusals = [] } }

  -- Both handlers answer with what `render` makes of `w` for this page.
  abbrev pub Shows : Visit → Site → ℕ → RunsView → Type 0
  Shows v a n w =
      (render : RunsView → Reply)
      → (get_pipeline_runs_page latest_first render (ok (record { pipeline_id = id; page = n })) v a
          ≡ (ok (render w), a))
        × (get_pipeline_runs_list latest_first render (ok (record { pipeline_id = id; page = n })) v
              a
            ≡ (ok (render w), a))

  Shows-view :
      (v : Visit) (t : Table Run) (a : Site) (n : ℕ)
      → known latest_first id a ≡ true
      → Shows v (with_runs t a) (suc n) (view t n)
  unfolding get_pipeline_runs_page get_pipeline_runs_list count_pipeline_runs
      list_pipeline_runs_paginated statement offset current_page
  Shows-view v t a n stored render =
      let at : (suc n - 1) * 10 ≡ n * 10 = omega arith in
      let this : max (suc n) 1 ≡ suc n = ground arith in
      (rw (stored, at, this) refl, rw (stored, at) refl)

  -- With a number from 1 on, both handlers of a stored pipeline show one page, whatever they render
  -- it with, and pages 1 to the number of pages shown, or page 1 alone where that number is 0, show
  -- each of its runs once, if the order of the query only rearranges the rows and no query is
  -- refused.
  pub pages_cover :
      (v : Visit) (t : Table Run) (a : Site)
      → ((l : List Run) → Perm (latest_first l) l)
      → known latest_first id a ≡ true
      → (view : ℕ → RunsView) × ((n : ℕ)
          → ((view n).current ≡ suc n) × Shows v (with_runs t a) (suc n) (view n))
        × Perm (gather (λ n. (view n).runs) 0 (max 1 (view 0).pages)) (map listed (runs_of id t))
  pages_cover v t a rearranges stored =
      let runs = runs_of id t in
      let same = length-perm (latest_first runs) runs (rearranges runs) in
      (
        view t,
        λ n. (refl, Shows-view v t a n stored),
        subst (λ l. Perm l (map listed runs))
            (sym (gathered_all listed (latest_first runs))
              ∙ ap
                  (λ c.
                    gather (λ j. map listed (take 10 (drop (j * 10) (latest_first runs)))) 0
                      (max 1 (max_pages c)))
                  same)
            (Perm.map listed (rearranges runs)),
      )
