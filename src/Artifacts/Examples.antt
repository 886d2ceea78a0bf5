-- ===== src/Artifacts/Examples.antt =====
-- A collection of artifacts of `internal/service/pipeline_service.go` from an agent with one file.
use simple_ci.Base.{◌≡◌, refl, [], ◌∷◌, none, some}
use simple_ci.Base.Errors.{message, ok}
use simple_ci.Store.{Run}
use simple_ci.Store.Runs.Sqlite.{new_run}
use simple_ci.Store.Table
use simple_ci.Store.Runs.Sqlite as Runs
use simple_ci.Store.Tables.Fleet as Store
use simple_ci.Store.Tables.Pipelines as Rows
use simple_ci.Script.{PipelineScript}
use simple_ci.Users.Sessions.{willing}
use simple_ci.Fleet.Examples.{app, with_pipeline}
use simple_ci.Artifacts.{FilePath, file, dir, end, entry, Disk}
use simple_ci.Artifacts.Archive.{Zip, archive_directory, copy_all, starts_with, last_name}
use simple_ci.Artifacts.Remote.{Far}
use simple_ci.Artifacts.Collect.{Collecting}

abbrev disk : Disk
disk = record { mkdir_all = λ p. none; mkdir = λ p. none; create = λ p. none }

abbrev script : PipelineScript
script = record {
  stages =
      record { stage = "Build"; steps = []; artifacts = "" }
      ∷ record { stage = "Pack"; steps = []; artifacts = "out" }
      ∷ [];
  artifacts = "";
}

abbrev far : Far
far = record {
  ssh = record { parse_private_key = λ k. none; dial = λ u h. none };
  new_session = none;
  output = λ command. ok "stages";
  unmarshal = λ text. ok script;
  sftp_client = none;
  remote = λ p. dir none (entry "app" (file none (1 ∷ 2 ∷ []) none) end);
  join = λ p. "ci/work/app";
}

abbrev started : Run
started = record (new_run 1 5 1 "main") { working_directory = some "work" }

abbrev before : Collecting
before = record {
  app = record app {
    db = willing with_pipeline;
    runs = record { stored = record { rows = started ∷ []; last_id = 1 }; refusals = [] };
  };
  local = record { dirs = []; files = [] };
}

abbrev packed : FilePath
packed = "artifacts" ∷ "1" ∷ "2_pack" ∷ "out" ∷ []

abbrev after : Collecting
after = record before {
  local = record {
    dirs = ("artifacts" ∷ []) ∷ ("artifacts" ∷ "1" ∷ []) ∷ packed ∷ [];
    files = ("artifacts" ∷ "1" ∷ "2_pack" ∷ "out" ∷ "app" ∷ [], 1 ∷ 2 ∷ []) ∷ [];
  };
}

abbrev zip : Zip
zip = record { create = none; walk = λ fs. fs; copy = λ p. some (message "gone"); close = none }

-- A file that cannot be copied leaves an archive without it, no error, and no name to send.
archived_example :
    (archive_directory zip ("artifacts" ∷ "1" ∷ []) (record { collecting = after; zips = [] })).0
    ≡ ok ""
unfolding archive_directory copy_all starts_with last_name
archived_example = refl
