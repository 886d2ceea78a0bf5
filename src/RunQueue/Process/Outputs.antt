-- ===== src/RunQueue/Process/Outputs.antt =====
-- `handleOutput` of `internal/service/run_queue.go`, which stores what a run prints.
use mathlib.Core.Option
use text.Mathlib.TextLemmas.{append-nil, append_assoc}
use simple_ci.Base.{
  ◌≡◌, refl, ap, sym, ◌∙◌, ℕ, String, ◌<>◌, Option, none, some, List, [], ◌∷◌, ◌==◌, Bool, true,
  false, if◌then◌else◌,
}
use simple_ci.Base.Errors.{Result, ok, err, panic}
use simple_ci.Store.{Run}
use simple_ci.Store.Runs.Interface.{RunStore, Updates, appended, text_or_empty}

-- The run after all of the messages have been appended, one by one.
pub all_appended : List String → Run → Run
all_appended [] r = r
all_appended (m ∷ ms) r = all_appended ms (appended m r)

if_map_id : (b : Bool) (o : Option Run) → o ≡ (if b then Option.map (all_appended []) o else o)
unfolding all_appended
if_map_id false o = refl
if_map_id true none = refl
if_map_id true (some r) = refl

if_map-cons :
    (b : Bool) (m : String) (ms : List String) (o p : Option Run)
    → p ≡ (if b then Option.map (appended m) o else o)
    → (if b then Option.map (all_appended ms) p else p)
      ≡ (if b then Option.map (all_appended (m ∷ ms)) o else o)
unfolding all_appended
if_map-cons false m ms o p e = e
if_map-cons true m ms none p e = ap (Option.map (all_appended ms)) e
if_map-cons true m ms (some r) p e = ap (Option.map (all_appended ms)) e

abbrev pub joined : List String → String
joined [] = ""
joined (m ∷ ms) = m <> joined ms

all_appended-joined :
    (m : String) (ms : List String) (r : Run)
    → all_appended (m ∷ ms) r ≡ appended (joined (m ∷ ms)) r
unfolding all_appended
all_appended-joined m [] r = ap (λ t. appended t r) (sym (append-nil m))
all_appended-joined m (m' ∷ ms) r =
    all_appended-joined m' ms (appended m r)
    ∙ ap (λ t. record r { output = some t })
        (append_assoc (text_or_empty r.output) m (joined (m' ∷ ms)))

if_joined :
    (b : Bool) (m : String) (ms : List String) (o : Option Run)
    → (if b then Option.map (all_appended (m ∷ ms)) o else o)
      ≡ (if b then Option.map (appended (joined (m ∷ ms))) o else o)
if_joined false m ms o = refl
if_joined true m ms none = refl
if_joined true m ms (some r) = ap some (all_appended-joined m ms r)

module _ (rs : RunStore) where
  open rs use {State, row}

  -- The messages in the order of sending. An error is only logged, and the message is lost.
  pub handle_output : ℕ → List String → State → State
  handle_output k [] s = s
  handle_output k (m ∷ ms) s = handle_output k ms (rs.append_pipeline_run_output k m s).1

  -- The store takes every message.
  abbrev pub TakesAll : ℕ → List String → State → Type 0
  TakesAll k [] s = Unit
  TakesAll k (m ∷ ms) s =
      ((rs.append_pipeline_run_output k m s).0 ≡ ok tt)
      × TakesAll k ms (rs.append_pipeline_run_output k m s).1

  append_ok :
      (k : ℕ) (f : Run → Run) (s : State) (p : Result (Unit {0}) × State)
      → Updates row k f s p
      → p.0 ≡ ok tt
      → (j : ℕ) → row p.1 j ≡ (if j == k then Option.map f (row s j) else row s j)
  append_ok k f s (ok _, s') u e j = u j
  append_ok k f s (err _, s') u e j = absurd (cc e)
  append_ok k f s (panic, s') u e j = absurd u

  handle_output_lem :
      (k j : ℕ) (ms : List String) (s : State)
      → TakesAll k ms s
      → row (handle_output k ms s) j
        ≡ (if j == k then Option.map (all_appended ms) (row s j) else row s j)
  unfolding handle_output all_appended
  handle_output_lem k j [] s h = if_map_id (j == k) (row s j)
  handle_output_lem k j (m ∷ ms) s h =
      let s' = (rs.append_pipeline_run_output k m s).1 in
      let ih = handle_output_lem k j ms s' h.1 in
      let step =
        append_ok k (appended m) s (rs.append_pipeline_run_output k m s) (rs.append_lem k m s) h.0
          j in
      ih ∙ if_map-cons (j == k) m ms (row s j) (row s' j) step

  -- When the store takes every message of a run, its stored row has them all behind its output, in
  -- the order in which they were sent, as if they were one; no other run changes.
  pub handle_output_appends :
      (k j : ℕ) (m : String) (ms : List String) (s : State)
      → TakesAll k (m ∷ ms) s
      → row (handle_output k (m ∷ ms) s) j
        ≡ (if j == k then Option.map (appended (joined (m ∷ ms))) (row s j) else row s j)
  handle_output_appends k j m ms s h =
      handle_output_lem k j (m ∷ ms) s h ∙ if_joined (j == k) m ms (row s j)
