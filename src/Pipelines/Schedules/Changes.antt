-- ===== src/Pipelines/Schedules/Changes.antt =====
-- What a change of a schedule does, whichever way it goes: `UpdatePipelineSchedule` of
-- `internal/service/pipeline_service.go`.
use simple_ci.Base.{◌≡◌, String, [], ◌∷◌, ◌++◌, true, false, some, is_some}
use simple_ci.Base.Errors.{ok}
use simple_ci.Store.{Pipeline}
use simple_ci.Store.Runs.Interface.{RunStore}
use simple_ci.Store.Tables.Pipelines as Store
use simple_ci.Pipelines.Schedules.{App, Cron, without, update_pipeline_schedule}

module _ (rs : RunStore) where
  -- The schedule of `p` was taken away: its job left the scheduler, and nothing was stored.
  abbrev pub Unscheduled : Pipeline → App rs → App rs → Type 0
  Unscheduled p a b =
      (is_some p.schedule ≡ true)
      × ((job : String) × (p.schedule_job_id ≡ some job)
          × (b.jobs ≡ without job a.jobs)
          × (b.db.stored ≡ a.db.stored))

  -- A job was added behind all others, and stored with the schedule.
  abbrev pub Rescheduled : Cron → String → String → Pipeline → App rs → App rs → Type 0
  Rescheduled c schedule branch p a b =
      (job : String) × (c.new_job schedule ≡ ok job)
      × (b.jobs
          ≡ a.jobs
            ++ record {
              job_id = job;
              pipeline = p.pipeline_id;
              branch = some branch;
              resumed = false;
            }
              ∷ [])
      × (b.db.stored
          ≡ (Store.update_pipeline_schedule p.pipeline_id (some schedule) (some branch) (some job)
              a.db.stored).1)
