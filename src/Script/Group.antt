-- ===== src/Script/Group.antt =====
-- A group of parallel steps: the goroutines under one `sync.WaitGroup` in
-- `executePipelineScriptOnAgent` and `executePipelineScriptOnController`. A goroutine is the
-- `Report` of its step: it sends its messages one by one, and then appends its error under the
-- lock. A schedule names, at each turn, the goroutine that moves; whatever it leaves is run to
-- the end in order, since `wg.Wait()` returns only when all have ended.
pub mod Schedules
use simple_ci.Base.{
  ◌≡◌, refl, String, Bool, true, false, Option, none, some, List, [], ◌∷◌, ◌++◌, ℕ, zero, suc,
}
use simple_ci.Base.Errors.{Error, join, to_errors}
use simple_ci.Script.Report.{Report}

pub record Joined : Type 0 where
  pub sent : List String
  pub errs : List Error

abbrev pub to_list : Option Error → List Error
to_list none = []
to_list (some e) = e ∷ []

-- The messages and the errors of one turn, and the goroutines that are left.
pub record Turn : Type 0 where
  pub now : Joined
  pub left : List Report

move : List String → Option Error → List Report → Turn
move [] e rs = record { now = record { sent = []; errs = to_list e }; left = rs }
move (m ∷ ms) e rs = record {
  now = record { sent = m ∷ []; errs = [] };
  left = record { output = ms; error = e } ∷ rs;
}

resume : ℕ → List Report → Turn
unfolding move
resume k [] = record { now = record { sent = []; errs = [] }; left = [] }
resume zero (r ∷ rs) = move r.output r.error rs
resume (suc k) (r ∷ rs) = let t = resume k rs in record { now = t.now; left = r ∷ t.left }

abbrev pub outputs : List Report → List String
outputs [] = []
outputs (r ∷ rs) = r.output ++ outputs rs

abbrev pub errors_of : List Report → List Error
errors_of [] = []
errors_of (r ∷ rs) = to_list r.error ++ errors_of rs

pub join_all : List ℕ → List Report → Joined
unfolding resume
join_all [] rs = record { sent = outputs rs; errs = errors_of rs }
join_all (k ∷ ks) rs =
    let t = resume k rs in
    let rest = join_all ks t.left in
    record { sent = t.now.sent ++ rest.sent; errs = t.now.errs ++ rest.errs }

-- `if len(errs) > 0 { return errors.Join(errs...) }`
abbrev pub join_errors : List Error → Option Error
join_errors [] = none
join_errors (e ∷ es) = some (join (to_errors (e ∷ es)))

unfoldable pub run_group : List ℕ → List Report → Report
unfolding join_all
run_group schedule rs =
    let j = join_all schedule rs in record { output = j.sent; error = join_errors j.errs }
