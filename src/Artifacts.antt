-- ===== src/Artifacts.antt =====
-- `CollectPipelineRunArtifacts` of `internal/service/pipeline_service.go` and what it calls:
-- `recursiveDownload` and `downloadFile`, and `RemoveNonAlphabetChars` of `internal/util/strings.go`.
-- A path is the list of the parts that `filepath.Join` puts together.
pub mod Download
pub mod Remote
pub mod Collect
pub mod Archive
mod Examples
use Prim.Native.Char.{Char, code}
use simple_ci.Base.{
  ◌≡◌, refl, ℕ, suc, ◌-◌, String, ◌<>◌, decimal, ◌is◌, leb, ◌==◌, ◌&&◌, Option, none, some, List,
  [], ◌∷◌, ◌++◌, Bool, if◌then◌else◌,
}
use simple_ci.Base.Errors.{Error, message, Result, ok, err, panic}
use simple_ci.Base.Exec.{Exec, pure, raise, lift, modify, ◌>>=◌, ◌>>◌}
use simple_ci.Script.{Stage}

abbrev pub FilePath : Type 0
FilePath = List String

-- What SFTP finds below a path: a file with the error of opening it, the bytes that come and the
-- error that ends them, and a directory with the error of reading it.
mutual
  pub data Node : Type 0 where
    file : Option Error → List ℕ → Option Error → Node
    dir : Option Error → Entries → Node

  pub data Entries : Type 0 where
    end : Entries
    entry : String → Node → Entries → Entries

-- What the controller's file system says to `os.MkdirAll`, `os.Mkdir` and `os.Create`.
pub record Disk : Type 0 where
  pub mkdir_all : FilePath → Option Error
  pub mkdir : FilePath → Option Error
  pub create : FilePath → Option Error

-- The directories that were asked for and the files that were made, the oldest first; the parents that
-- `os.MkdirAll` makes on the way are left out.
pub record Local : Type 0 where
  pub dirs : List FilePath
  pub files : List (FilePath × List ℕ)

abbrev pub check : Option Error → Exec Local (Unit {0})
check none = pure tt
check (some e) = raise e

abbrev pub make_dir : FilePath → Exec Local (Unit {0})
make_dir p = modify λ l. record l { dirs = l.dirs ++ p ∷ [] }

abbrev pub write : FilePath → List ℕ → Exec Local (Unit {0})
write p bytes = modify λ l. record l { files = l.files ++ (p, bytes) ∷ [] }

abbrev pub below : FilePath → String → FilePath
below p name = p ++ name ∷ []

module _ (disk : Disk) where
  unfoldable pub download_file :
      Option Error → List ℕ → Option Error → FilePath → Exec Local (Unit {0})
  download_file open_error bytes copy_error p = do
    check open_error
    check (disk.create p)
    write p bytes
    check copy_error

  -- The body of the loop of `recursiveDownload`, and the loop.
  mutual
    pub download : FilePath → Node → Exec Local (Unit {0})
    download p (file open_error bytes copy_error) = download_file open_error bytes copy_error p
    download p (dir read_error entries) =
        check read_error >> (check (disk.mkdir_all p) >> (make_dir p >> download_entries p entries))

    pub download_entries : FilePath → Entries → Exec Local (Unit {0})
    download_entries p end = pure tt
    download_entries p (entry name node rest) =
        download (below p name) node >> download_entries p rest

  -- `ReadDir` of what is no directory is an error.
  unfoldable pub recursive_download : FilePath → Node → Exec Local (Unit {0})
  recursive_download p (file open_error bytes copy_error) = raise (message "not a directory")
  recursive_download p (dir read_error entries) = download p (dir read_error entries)

nth : ℕ → String → String
nth n String.[] = ""
nth n (String.◌∷◌ c s) = let rest = nth (n - 1) s in if n == 0 then String.◌∷◌ c "" else rest

-- `strings.ToLower` of a character, if that is one of a to z. Two other letters have such a one.
letter : Char → String
unfolding nth
letter c =
    if leb b'a' (code c) && leb (code c) b'z'
    then String.◌∷◌ c ""
    else if leb b'A' (code c) && leb (code c) b'Z'
    then nth (code c - b'A') "abcdefghijklmnopqrstuvwxyz"
    else if code c == 0x212A
    then "k"
    else if code c == 0x130
    then "i"
    else ""

unfoldable pub remove_non_alphabet_chars : String → String
unfolding letter
remove_non_alphabet_chars String.[] = ""
remove_non_alphabet_chars (String.◌∷◌ c s) = letter c <> remove_non_alphabet_chars s

-- `fmt.Sprintf("%d_%s", i+1, stageName)` and the artifacts, below the directory of the run.
unfoldable pub stage_path : FilePath → ℕ → Stage → FilePath
stage_path p i s =
    p ++ (decimal (suc i) <> "_" <> remove_non_alphabet_chars s.stage) ∷ s.artifacts ∷ []

-- The loop on the stages, from number `i` on; `remote` is what SFTP finds at a path of the run.
module _ (disk : Disk) (remote : String → Node) where
  unfoldable pub collect_stages : FilePath → ℕ → List Stage → Exec Local (Unit {0})
  unfolding recursive_download
  collect_stages p i [] = pure tt
  collect_stages p i (s ∷ ss) =
      (if s.artifacts is ""
        then pure tt
        else recursive_download disk (stage_path p i s) (remote s.artifacts))
      >> collect_stages p (suc i) ss

name_example : remove_non_alphabet_chars "Unit-Tests 2" ≡ "unittests"
unfolding remove_non_alphabet_chars
name_example = refl
