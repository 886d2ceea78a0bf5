-- ===== src/Pipelines/Schedules/Laws.antt =====
-- What `UpdatePipelineSchedule` of `internal/service/pipeline_service.go` does to the jobs and to the
-- stored schedule.
use mathlib.Core.Option.{some-injective}
use simple_ci.Base.{
  ◌≡◌, sym, ap, ◌∙◌, inl, inr, ℕ, String, [], ◌∷◌, ◌++◌, true, false, Option, none, some, is_some,
  arith, Bool-cases, Option-cases,
}
use simple_ci.Base.Errors.{ok, Result-cases}
use simple_ci.Base.Exec.{>>=-eq-ok}
use simple_ci.Store.{Pipeline}
use simple_ci.Store.Table
use simple_ci.Store.Driver.{statement, statement_outcome}
use simple_ci.Store.Runs.Interface.{RunStore}
use simple_ci.Store.Tables.{pipeline_key, or_no_rows}
use simple_ci.Store.Tables.Pipelines as Store
use simple_ci.Pipelines.Schedules.{
  App, Cron, on_db, add_job, schedule_pipeline_run, reschedule, unschedule, change_schedule,
  update_pipeline_schedule, without,
}

abbrev pub pipeline_row : {rs : RunStore} → App rs → ℕ → Option Pipeline
pipeline_row a id = Table.find pipeline_key id a.db.stored.pipelines.rows

module _ (rs : RunStore) where
  pub read_row :
      (id : ℕ) (p : Pipeline) (a u : App rs)
      → on_db (statement (Store.read_pipeline_by_id id)) a ≡ (ok p, u)
      → (pipeline_row {rs = rs} a id ≡ some p) × (u.db.stored ≡ a.db.stored) × (u.jobs ≡ a.jobs)
  unfolding Store.read_pipeline_by_id
  read_row id p a u h = elim (statement_outcome (Store.read_pipeline_by_id id) a.db) [
    | inl (e, r, s) ↦ absurd (ground (arith, r, h))
    | inr (r, s) ↦ (
      found (Table.find pipeline_key id a.db.stored.pipelines.rows) (sym r ∙ ap (λ q. q.0) h),
      ap (λ q. q.1.db.stored) (sym h) ∙ s,
      ap (λ q. q.1.jobs) (sym h),
    )
  ]
    where
      found : (o : Option Pipeline) → or_no_rows o ≡ ok p → o ≡ some p
      found none e = absurd (cc e)
      found (some q) e = ground (arith, e)

  unscheduled_from :
      (c : Cron) (branch : Option String) (p : Pipeline) (u b : App rs)
      → is_some p.schedule ≡ true
      → change_schedule {rs = rs} (some c) none branch p u ≡ (ok tt, b)
      → (job : String) × (p.schedule_job_id ≡ some job)
        × (b.jobs ≡ without job u.jobs)
        × (b.db.stored ≡ u.db.stored)
  unfolding change_schedule unschedule
  unscheduled_from c branch p u b on h = elim (Option-cases p.schedule_job_id) [
    | inl e ↦ absurd (ground (arith, on, e, h))
    | inr (job, e) ↦ elim (Bool-cases (c.is_uuid job)) [
      | inr bad ↦ absurd (ground (arith, on, e, bad, h))
      | inl good ↦
          let made = rw (on, e, good) at h in
          (job, e, ap (λ q. q.1.jobs) (sym made), ap (λ q. q.1.db.stored) (sym made))
    ]
  ]

  -- An update that takes the schedule away from a pipeline that has one, and that succeeds,
  -- removes the job of the pipeline and leaves the database as it is: the pipeline stays stored
  -- with its schedule and its job.
  pub unscheduled_lem :
      (c : Cron) (id : ℕ) (branch : Option String) (p : Pipeline) (a b : App rs)
      → pipeline_row {rs = rs} a id ≡ some p
      → is_some p.schedule ≡ true
      → update_pipeline_schedule {rs = rs} (some c) id none branch a ≡ (ok tt, b)
      → (job : String) × (p.schedule_job_id ≡ some job)
        × (b.jobs ≡ without job a.jobs)
        × (b.db.stored ≡ a.db.stored)
  unfolding update_pipeline_schedule change_schedule unschedule
  unscheduled_lem c id branch p a b row on h =
      let (q, u, hr, hc) =
        >>=-eq-ok (on_db {rs = rs} (statement (Store.read_pipeline_by_id id)))
          (change_schedule {rs = rs} (some c) none branch) a h in
      let (at, same, jobs) = read_row id q a u hr in
      let eq : p ≡ q = some-injective p q (sym row ∙ at) in
      let (job, stored, left, kept) =
        unscheduled_from c branch p u b on
          (ap (λ x. change_schedule {rs = rs} (some c) none branch x u) eq ∙ hc) in
      (job, stored, left ∙ ap (without job) jobs, kept ∙ same)

  rescheduled_from :
      (c : Cron) (schedule branch : String) (p : Pipeline) (u b : App rs)
      → change_schedule {rs = rs} (some c) (some schedule) (some branch) p u ≡ (ok tt, b)
      → (job : String) × (c.new_job schedule ≡ ok job)
        × (b.jobs
            ≡ u.jobs
              ++ record {
                job_id = job;
                pipeline = p.pipeline_id;
                branch = some branch;
                resumed = false;
              }
                ∷ [])
        × (b.db.stored
            ≡ (Store.update_pipeline_schedule p.pipeline_id
                (some schedule)
                (some branch)
                (some job)
                u.db.stored).1)
  unfolding change_schedule reschedule schedule_pipeline_run add_job
  rescheduled_from c schedule branch p u b h = elim (Result-cases (c.new_job schedule)) [
    | inr (inl (e, n)) ↦ absurd (ground (arith, n, h))
    | inr (inr n) ↦ absurd (ground (arith, n, h))
    | inl (job, n) ↦
        let made = rw n at h in
        elim (statement_outcome
          (Store.update_pipeline_schedule p.pipeline_id (some schedule) (some branch) (some job))
          u.db) [
            | inl (e, r, s) ↦ absurd (ground (arith, r, made))
            | inr (r, s) ↦
                (job, n, ap (λ q. q.1.jobs) (sym made), ap (λ q. q.1.db.stored) (sym made) ∙ s)
          ]
  ]

  -- An update that sets a schedule and succeeds adds a new job and stores it with the schedule;
  -- every older job stays, that of the pipeline too.
  pub rescheduled_lem :
      (c : Cron) (id : ℕ) (schedule branch : String) (a b : App rs)
      → update_pipeline_schedule {rs = rs} (some c) id (some schedule) (some branch) a ≡ (ok tt, b)
      → (p : Pipeline) × (job : String) × (pipeline_row {rs = rs} a id ≡ some p)
        × (c.new_job schedule ≡ ok job)
        × (b.jobs
            ≡ a.jobs
              ++ record {
                job_id = job;
                pipeline = p.pipeline_id;
                branch = some branch;
                resumed = false;
              }
                ∷ [])
        × (b.db.stored
            ≡ (Store.update_pipeline_schedule p.pipeline_id
                (some schedule)
                (some branch)
                (some job)
                a.db.stored).1)
  unfolding update_pipeline_schedule change_schedule reschedule schedule_pipeline_run add_job
  rescheduled_lem c id schedule branch a b h =
      let (p, u, hr, hc) =
        >>=-eq-ok (on_db {rs = rs} (statement (Store.read_pipeline_by_id id)))
          (change_schedule {rs = rs} (some c) (some schedule) (some branch)) a h in
      let (at, same, jobs) = read_row id p a u hr in
      let (job, new, more, wrote) = rescheduled_from c schedule branch p u b hc in
      (
        p,
        job,
        at,
        new,
        more
            ∙ ap
                (λ l.
                  l
                  ++ record {
                    job_id = job;
                    pipeline = p.pipeline_id;
                    branch = some branch;
                    resumed = false;
                  }
                    ∷ [])
                jobs,
        wrote
            ∙ ap
                (λ t.
                  (Store.update_pipeline_schedule p.pipeline_id (some schedule) (some branch)
                    (some job) t).1)
                same,
      )
