-- ===== src/Pipelines/Schedules/Tasks/Resumed.antt =====
-- What `SchedulePipelines` of `internal/handler/pipelines.go` leaves in the scheduler.
use simple_ci.Base.{
  ◌≡◌, refl, sym, ap, ◌∙◌, ℕ, String, List, [], ◌∷◌, ◌++◌, append_assoc, append-nil, map, filter,
  is_some, Option, none, some,
}
use simple_ci.Base.Errors.{Result, ok, err, panic}
use simple_ci.Base.Exec.{>>=-eq-ok}
use simple_ci.Store.{Pipeline}
use simple_ci.Store.Driver.{statement}
use simple_ci.Store.Runs.Interface.{RunStore}
use simple_ci.Store.Tables.{Tables}
use simple_ci.Store.Tables.Pipelines as Store
use simple_ci.Users.Sessions.{willing}
use simple_ci.Pipelines.Schedules.{App, Job, Cron, add_job, list_scheduled_pipelines}
use simple_ci.Pipelines.Schedules.Tasks.{
  resume_with, resume_at, schedule_one, schedule_each, schedule_listed, schedule_pipelines,
}

-- What a job is for.
abbrev pub target : Job → ℕ × Option String
target j = (j.pipeline, j.branch)

abbrev pub scheduled_as : Pipeline → ℕ × Option String
scheduled_as p = (p.pipeline_id, p.schedule_branch)

map-append : (xs ys : List Job) → map target (xs ++ ys) ≡ map target xs ++ map target ys
map-append [] ys = refl
map-append (x ∷ xs) ys = ap (◌∷◌ (target x)) (map-append xs ys)

module _ {rs : RunStore} where
  -- The scheduler has a job for each of the pipelines behind what it had, and runs and queues stay.
  abbrev pub Resumes : List Pipeline → App rs → App rs → Type 0
  Resumes ps a b =
      (b.runs ≡ a.runs)
      × (b.service ≡ a.service)
      × (map target b.jobs ≡ map target a.jobs ++ map scheduled_as ps)

  with-Resumes :
      (p : Pipeline) (r : Result String) (a b : App rs)
      → resume_with {rs = rs} p r a ≡ (ok tt, b)
      → Resumes (p ∷ []) a b
  unfolding resume_with add_job
  with-Resumes p (ok id) a b h = (
    ap (λ q. q.1.runs) (sym h),
    ap (λ q. q.1.service) (sym h),
    ap (λ q. map target q.1.jobs) (sym h) ∙ map-append a.jobs _,
  )
  with-Resumes p (err e) a b h = absurd (cc (ap (λ q. q.0) h))
  with-Resumes p panic a b h = absurd (cc (ap (λ q. q.0) h))

  at-Resumes :
      (c : Cron) (p : Pipeline) (o : Option String) (a b : App rs)
      → resume_at {rs = rs} c p o a ≡ (ok tt, b)
      → Resumes (p ∷ []) a b
  unfolding resume_at
  at-Resumes c p none a b h = absurd (cc (ap (λ q. q.0) h))
  at-Resumes c p (some schedule) a b h = with-Resumes p (c.new_job schedule) a b h

  each-Resumes :
      (c : Cron) (ps : List Pipeline) (a b : App rs)
      → schedule_each {rs = rs} c ps a ≡ (ok tt, b)
      → Resumes ps a b
  unfolding schedule_each schedule_one
  each-Resumes c [] a b h = (
    ap (λ q. q.1.runs) (sym h),
    ap (λ q. q.1.service) (sym h),
    ap (λ q. map target q.1.jobs) (sym h) ∙ sym (append-nil (map target a.jobs)),
  )
  each-Resumes c (p ∷ ps) a b h =
      let (done, m, first, rest) =
        >>=-eq-ok (schedule_one {rs = rs} c p) (λ _. schedule_each {rs = rs} c ps) a h in
      let (runs, service, jobs) = at-Resumes c p p.schedule a m first in
      let (runs', service', jobs') = each-Resumes c ps m b rest in
      (
        runs' ∙ runs,
        service' ∙ service,
        jobs'
            ∙ ap (λ l. l ++ map scheduled_as ps) jobs
            ∙ append_assoc (map target a.jobs) (scheduled_as p ∷ []) (map scheduled_as ps),
      )

  -- On a database that refuses nothing, every stored pipeline with a schedule gets its job.
  pub schedule_pipelines-Resumes :
      (c : Cron) (t : Tables) (a b : App rs)
      → schedule_pipelines {rs = rs} c (record a { db = willing t }) ≡ (ok tt, b)
      → Resumes (filter (λ p. is_some p.schedule) t.pipelines.rows) a b
  unfolding schedule_pipelines schedule_listed list_scheduled_pipelines statement
      Store.list_scheduled_pipelines
  schedule_pipelines-Resumes c t a b h =
      each-Resumes c (filter (λ p. is_some p.schedule) t.pipelines.rows)
        (record a { db = willing t }) b h
