-- ===== src/Artifacts/Archive.antt =====
-- `ArchiveDirectory` and `copyToArchive` of `internal/util/files.go`, and `GetPipelineRunArtifacts` of
-- `internal/handler/pipelines.go`. What the file system says, and the order of `filepath.WalkDir`, is a
-- parameter.
use simple_ci.Base.{
  ℕ, String, ◌<>◌, decimal, ◌is◌, Option, none, some, List, [], ◌∷◌, any, filter, Bool, true, false,
  ◌&&◌, if◌then◌else◌,
}
use simple_ci.Base.Errors.{Error, Result, ok, err, panic}
use simple_ci.Base.Exec.{Exec, pure, lift, modify, gets, ◌>>=◌, ◌>>◌}
use simple_ci.Security.{Gcm}
use simple_ci.Web.{Reply, Visit, new_error}
use simple_ci.Users.{to_result}
use simple_ci.Pipelines.Requests.{RunParams}
use simple_ci.Artifacts.{FilePath, Disk}
use simple_ci.Artifacts.Remote.{Far}
use simple_ci.Artifacts.Collect.{Collecting, collect_pipeline_run_artifacts}

abbrev pub File : Type 0
File = FilePath × List ℕ

pub record Archives : Type 0 where
  pub collecting : Collecting
  -- the archives in the directory `artifacts`, by file name; one that was not closed is there too
  pub zips : List (String × List File)

pub record Zip : Type 0 where
  pub create : Option Error
  pub walk : List File → List File
  -- of a file: opening it, its entry in the archive, and the copy
  pub copy : FilePath → Option Error
  pub close : Option Error

-- Whether a file is below a directory
unfoldable pub starts_with : FilePath → FilePath → Bool
starts_with [] q = true
starts_with (x ∷ p) [] = false
starts_with (x ∷ p) (y ∷ q) = (x is y) && starts_with p q

-- The name at the end of a path
unfoldable pub last_name : FilePath → String
last_name [] = ""
last_name (x ∷ []) = x
last_name (x ∷ y ∷ p) = last_name (y ∷ p)

abbrev below : FilePath → Archives → List File
below p a = filter (λ f. starts_with p f.0) a.collecting.local.files

abbrev put_zip : String → List File → Exec Archives (Unit {0})
put_zip name files = modify λ a. record a {
  zips = (name, files) ∷ filter (λ z. if z.0 is name then false else true) a.zips;
}

-- What was copied before the first file that fails, and whether one did.
unfoldable pub copy_all : (FilePath → Option Error) → List File → List File × Bool
copy_all copy [] = ([], true)
copy_all copy (f ∷ fs) =
    let (copied, passed) = copy_all copy fs in
    elim (copy f.0) [ some e ↦ ([], false) | none ↦ (f ∷ copied, passed) ]

-- A file that fails ends it with the empty name and no error.
unfoldable pub archive_directory : Zip → FilePath → Exec Archives String
unfolding starts_with last_name copy_all
archive_directory zip p = do
  lift (to_result zip.create)
  files ← gets (below p)
  let (copied, passed) = copy_all zip.copy (zip.walk files)
  put_zip (last_name p <> ".zip") copied
  if passed then (lift (to_result zip.close) >> pure (last_name p <> ".zip")) else pure ""

-- What is sent: an answer, or the file of this name (`c.File`).
pub data Sent : Type 0 where
  replied : Reply → Sent
  sent : String → Sent

abbrev on_collecting : {A : Type 0} → Exec Collecting A → Exec Archives A
on_collecting m a = let (r, c) = m a.collecting in (r, record a { collecting = c })

abbrev branch_to :
    {A : Type 0} → (Error → Sent) → (A → Exec Archives Sent) → Result A → Exec Archives Sent
branch_to otherwise next (ok x) a = next x a
branch_to otherwise next (err e) a = (ok (otherwise e), a)
branch_to otherwise next panic a = (panic, a)

abbrev attempt_to :
    {A : Type 0} → Exec Archives A → (Error → Sent) → (A → Exec Archives Sent) → Exec Archives Sent
attempt_to m otherwise next a = let (r, b) = m a in branch_to otherwise next r b

abbrev otherwise : ℕ → String → Visit → Error → Sent
otherwise status text v e = replied (new_error v (some e) status text)

module _ (disk : Disk) (far : Far) (gcm : Gcm) (key : List ℕ) (zip : Zip) where
  -- An archive of the run that is there is sent as it is.
  unfoldable pub send_archive : ℕ → FilePath → Visit → Exec Archives Sent
  unfolding archive_directory
  send_archive run_id p v a =
      if any (λ z. z.0 is (decimal run_id <> ".zip")) a.zips
      then (ok (sent (decimal run_id <> ".zip")), a)
      else attempt_to (archive_directory zip p)
          (otherwise 500 "unable to archive collected output" v) (λ name. pure (sent name)) a

  unfoldable pub get_pipeline_run_artifacts : Result RunParams → Visit → Exec Archives Sent
  unfolding send_archive
  get_pipeline_run_artifacts bound v =
      attempt_to (lift bound) (otherwise 400 "invalid pipeline or run ID" v) λ rp.
        attempt_to
          (on_collecting (collect_pipeline_run_artifacts disk far gcm key rp.pipeline_id rp.run_id))
          (otherwise 500 "unable to collect pipeline artifacts" v) (λ p. send_archive rp.run_id p v)
