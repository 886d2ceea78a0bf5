-- ===== src/Artifacts/Download.antt =====
-- What `recursiveDownload` of `internal/service/pipeline_service.go` leaves on the controller.
use simple_ci.Base.{
  ◌≡◌, refl, sym, ap, ◌∙◌, ℕ, Option, none, some, List, [], ◌∷◌, ◌++◌, append_assoc, append-nil,
}
use simple_ci.Base.Errors.{Error, ok}
use simple_ci.Base.Exec.{Exec, ◌>>◌, >>=-eq-ok}
use simple_ci.Artifacts.{
  FilePath, Node, file, dir, Entries, end, entry, Disk, Local, check, make_dir, write, below,
  download_file, download, download_entries, recursive_download,
}

-- The files of a tree under a path, in the order of the walk.
mutual
  pub files_of : FilePath → Node → List (FilePath × List ℕ)
  files_of p (file open_error bytes copy_error) = (p, bytes) ∷ []
  files_of p (dir read_error entries) = entry_files p entries

  pub entry_files : FilePath → Entries → List (FilePath × List ℕ)
  entry_files p end = []
  entry_files p (entry name node rest) = files_of (below p name) node ++ entry_files p rest

-- The directories of a tree under a path, each before what is in it.
mutual
  pub dirs_of : FilePath → Node → List FilePath
  dirs_of p (file open_error bytes copy_error) = []
  dirs_of p (dir read_error entries) = p ∷ entry_dirs p entries

  pub entry_dirs : FilePath → Entries → List FilePath
  entry_dirs p end = []
  entry_dirs p (entry name node rest) = dirs_of (below p name) node ++ entry_dirs p rest

abbrev pub Adds : List (FilePath × List ℕ) → List FilePath → Local → Local → Type 0
Adds files dirs l m = (m.files ≡ l.files ++ files) × (m.dirs ≡ l.dirs ++ dirs)

pub Adds-nothing : (l : Local) → Adds [] [] l l
Adds-nothing l = (sym (append-nil l.files), sym (append-nil l.dirs))

pub Adds-then :
    (fs gs : List (FilePath × List ℕ)) (ds es : List FilePath) (l m n : Local)
    → Adds fs ds l m
    → Adds gs es m n
    → Adds (fs ++ gs) (ds ++ es) l n
Adds-then fs gs ds es l m n h k = (
  k.0 ∙ ap (λ x. x ++ gs) h.0 ∙ append_assoc l.files fs gs,
  k.1 ∙ ap (λ x. x ++ es) h.1 ∙ append_assoc l.dirs ds es,
)

check_ok : (o : Option Error) (l m : Local) → check o l ≡ (ok tt, m) → m ≡ l
check_ok none l m h = sym (ap (λ p. p.1) h)
check_ok (some e) l m h = absurd (cc (ap (λ p. p.0) h))

pub then_ok :
    (m n : Exec Local (Unit {0})) (l k : Local)
    → (m >> n) l ≡ (ok tt, k)
    → (j : Local) × (m l ≡ (ok tt, j)) × (n j ≡ (ok tt, k))
then_ok m n l k h = let (a, j, first, second) = >>=-eq-ok m (λ _. n) l h in (j, first, second)

checked :
    (o : Option Error) (n : Exec Local (Unit {0})) (l k : Local)
    → (check o >> n) l ≡ (ok tt, k)
    → n l ≡ (ok tt, k)
checked none n l k h = h
checked (some e) n l k h = absurd (cc (ap (λ p. p.0) h))

module _ (disk : Disk) where
  download_file-Adds :
      (o : Option Error) (bytes : List ℕ) (e : Option Error) (p : FilePath) (l m : Local)
      → download_file disk o bytes e p l ≡ (ok tt, m)
      → Adds ((p, bytes) ∷ []) [] l m
  unfolding download_file
  download_file-Adds o bytes e p l m h =
      let opened = checked o _ l m h in
      let made = checked (disk.create p) (write p bytes >> check e) l m opened in
      let last = check_ok e (record l { files = l.files ++ (p, bytes) ∷ [] }) m made in
      (ap (λ k. k.files) last, ap (λ k. k.dirs) last ∙ sym (append-nil l.dirs))

  mutual
    unfolding download download_entries files_of dirs_of

    download-Adds :
        (p : FilePath) (node : Node) (l m : Local)
        → download disk p node l ≡ (ok tt, m)
        → Adds (files_of p node) (dirs_of p node) l m
    download-Adds p (file o bytes e) l m h = download_file-Adds o bytes e p l m h
    download-Adds p (dir o entries) l m h =
        let read =
          checked o (check (disk.mkdir_all p) >> (make_dir p >> download_entries disk p entries)) l
            m h in
        let made =
          checked (disk.mkdir_all p) (make_dir p >> download_entries disk p entries) l m read in
        let k = record l { dirs = l.dirs ++ p ∷ [] } in
        Adds-then [] (entry_files p entries) (p ∷ []) (entry_dirs p entries) l k m
          (sym (append-nil l.files), refl) (entries-Adds p entries k m made)

    entries-Adds :
        (p : FilePath) (entries : Entries) (l m : Local)
        → download_entries disk p entries l ≡ (ok tt, m)
        → Adds (entry_files p entries) (entry_dirs p entries) l m
    entries-Adds p end l m h = (
      ap (λ k. k.files) (sym (ap (λ q. q.1) h)) ∙ sym (append-nil l.files),
      ap (λ k. k.dirs) (sym (ap (λ q. q.1) h)) ∙ sym (append-nil l.dirs),
    )
    entries-Adds p (entry name node rest) l m h =
        let (k, first, later) =
          then_ok (download disk (below p name) node) (download_entries disk p rest) l m h in
        Adds-then (files_of (below p name) node) (entry_files p rest) (dirs_of (below p name) node)
          (entry_dirs p rest) l k m (download-Adds (below p name) node l k first)
          (entries-Adds p rest k m later)

  pub recursive_download-Adds :
      (p : FilePath) (node : Node) (l m : Local)
      → recursive_download disk p node l ≡ (ok tt, m)
      → Adds (files_of p node) (dirs_of p node) l m
  unfolding recursive_download
  recursive_download-Adds p (file o bytes e) l m h = absurd (cc (ap (λ q. q.0) h))
  recursive_download-Adds p (dir o entries) l m h = download-Adds p (dir o entries) l m h

  -- Nothing goes wrong below a path.
  mutual
    pub Fits : FilePath → Node → Type 0
    Fits p (file o bytes e) = (o ≡ none) × (disk.create p ≡ none) × (e ≡ none)
    Fits p (dir o entries) = (o ≡ none) × (disk.mkdir_all p ≡ none) × AllFit p entries

    pub AllFit : FilePath → Entries → Type 0
    AllFit p end = Unit
    AllFit p (entry name node rest) = Fits (below p name) node × AllFit p rest

  passes :
      (o : Option Error) (n : Exec Local (Unit {0})) (l : Local) → o ≡ none → (check o >> n) l ≡ n l
  passes o n l h = ap (λ x. (check x >> n) l) h

  then_passes : (m n : Exec Local (Unit {0})) (l : Local) → (m l).0 ≡ ok tt → (m >> n) l ≡ n (m l).1
  then_passes m n l h = rw h refl

  mutual
    unfolding download download_entries Fits download_file

    download_passes :
        (p : FilePath) (node : Node) (l : Local) → Fits p node → (download disk p node l).0 ≡ ok tt
    download_passes p (file o bytes e) l h = rw (h.0, h.1, h.2) refl
    download_passes p (dir o entries) l h =
        rw (h.0, h.1) (entries_pass p entries (record l { dirs = l.dirs ++ p ∷ [] }) h.2)

    entries_pass :
        (p : FilePath) (entries : Entries) (l : Local)
        → AllFit p entries
        → (download_entries disk p entries l).0 ≡ ok tt
    entries_pass p end l h = refl
    entries_pass p (entry name node rest) l h =
        ap (λ q. q.0)
          (then_passes (download disk (below p name) node) (download_entries disk p rest) l
            (download_passes (below p name) node l h.0))
        ∙ entries_pass p rest (download disk (below p name) node l).1 h.1

  -- The end of the walk of a directory, which is what is downloaded.
  abbrev pub IsDir : Node → Type 0
  IsDir (file o bytes e) = ⊥
  IsDir (dir o entries) = Unit

  pub recursive_download_passes :
      (p : FilePath) (node : Node) (l : Local)
      → IsDir node
      → Fits p node
      → (recursive_download disk p node l).0 ≡ ok tt
  unfolding recursive_download
  recursive_download_passes p (file o bytes e) l d h = absurd d
  recursive_download_passes p (dir o entries) l d h = download_passes p (dir o entries) l h
