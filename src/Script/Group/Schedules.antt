-- ===== src/Script/Group/Schedules.antt =====
-- What a group of parallel steps does under every schedule of its goroutines.
use mathlib.Core.List.{Perm, perm_append_comm, append_assoc}
use mathlib.Core.List.Perm
use simple_ci.Base.{
  ◌≡◌, refl, ◌↔◌, String, Option, none, List, [], ◌∷◌, ◌++◌, ℕ, zero, suc, All, Option-cases, inl,
  inr,
}
use simple_ci.Base.Errors.{Error}
use simple_ci.Script.Report.{Report}
use simple_ci.Script.Group.{
  Turn, to_list, move, resume, outputs, errors_of, join_all, join_errors, run_group,
}

perm_swap_append {ℓ} : {A : Type ℓ} (m a b : List A) → Perm (m ++ (a ++ b)) (a ++ (m ++ b))
perm_swap_append m a b =
    rw (← append_assoc m a b, ← append_assoc a m b) (Perm.append_right b (perm_append_comm m a))

-- One turn loses nothing and makes nothing up.
record Fair (t : Turn) (rs : List Report) : Type 0 where
  sent : Perm (t.now.sent ++ outputs t.left) (outputs rs)
  errs : Perm (t.now.errs ++ errors_of t.left) (errors_of rs)

move-Fair :
    (out : List String) (e : Option Error) (rs : List Report)
    → Fair (move out e rs) (record { output = out; error = e } ∷ rs)
unfolding move
move-Fair [] e rs = record { sent = Perm.refl _; errs = Perm.refl _ }
move-Fair (m ∷ ms) e rs = record { sent = Perm.refl _; errs = Perm.refl _ }

resume-Fair : (k : ℕ) (rs : List Report) → Fair (resume k rs) rs
unfolding resume
resume-Fair zero [] = record { sent = Perm.refl _; errs = Perm.refl _ }
resume-Fair (suc k) [] = record { sent = Perm.refl _; errs = Perm.refl _ }
resume-Fair zero (r ∷ rs) = move-Fair r.output r.error rs
resume-Fair (suc k) (r ∷ rs) =
    let t = resume k rs in
    let ih = resume-Fair k rs in
    record {
      sent =
          Perm.trans (perm_swap_append t.now.sent r.output (outputs t.left))
            (Perm.append_left r.output ih.sent);
      errs =
          Perm.trans (perm_swap_append t.now.errs (to_list r.error) (errors_of t.left))
            (Perm.append_left (to_list r.error) ih.errs);
    }

-- Under every schedule the goroutines send all of their messages, each once, and collect all of
-- their errors, each once: a failing step stops no other step of its group.
pub join_all-perm :
    (schedule : List ℕ) (rs : List Report)
    → Perm (join_all schedule rs).sent (outputs rs)
      × Perm (join_all schedule rs).errs (errors_of rs)
unfolding join_all
join_all-perm [] rs = (Perm.refl _, Perm.refl _)
join_all-perm (k ∷ ks) rs =
    let t = resume k rs in
    let ih = join_all-perm ks t.left in
    let fair = resume-Fair k rs in
    (
      Perm.trans (Perm.append_left t.now.sent ih.0) fair.sent,
      Perm.trans (Perm.append_left t.now.errs ih.1) fair.errs,
    )

errors_of-nil : (rs : List Report) → (errors_of rs ≡ []) ↔ All (λ r. r.error ≡ none) rs
errors_of-nil [] = ((λ h. tt), λ h. refl)
errors_of-nil (r ∷ rs) = elim (Option-cases r.error) [
  | inl e ↦ rw e ((λ h. (refl, (errors_of-nil rs).0 h)), λ h. (errors_of-nil rs).1 h.1)
  | inr (x, e) ↦ rw e ((λ h. absurd (cc)), λ h. absurd (cc (h.0)))
]

perm-nil {ℓ} : {A : Type ℓ} {xs ys : List A} → Perm xs ys → xs ≡ [] → ys ≡ []
perm-nil p e = Perm.eq-nil (Perm.symm (rw e at p))

join_errors-none : (es : List Error) → (join_errors es ≡ none) ↔ (es ≡ [])
join_errors-none [] = ((λ h. refl), λ h. refl)
join_errors-none (e ∷ es) = ((λ h. absurd (cc)), λ h. absurd (cc))

-- Under every schedule the group passes exactly when every one of its goroutines does.
pub run_group_passes :
    (schedule : List ℕ) (rs : List Report)
    → ((run_group schedule rs).error ≡ none) ↔ All (λ r. r.error ≡ none) rs
unfolding run_group
run_group_passes schedule rs =
    let p = (join_all-perm schedule rs).1 in
    (
      (λ h. (errors_of-nil rs).0 (perm-nil p ((join_errors-none _).0 h))),
      λ h. (join_errors-none _).1 (perm-nil (Perm.symm p) ((errors_of-nil rs).1 h)),
    )
