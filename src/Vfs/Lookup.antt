-- ===== src/Vfs/Lookup.antt =====
-- What `findFile`, `findDir` and `findContainingDir` of src/storage/vfs/VirtualFilesystem.cpp find.
use teilpunkt.Base.{
  ℕ, ◌+◌, ◌≤◌, ◌<◌, ◌≡◌, ◌↔◌, ◌⊎◌, inl, inr, refl, none, some, List, [], ◌∷◌, ◌++◌, arith, true,
  false, if◌then◌else◌, All,
}
use teilpunkt.Vfs.{
  FileId, eq_id, VirtualFile, DirectoryData, Dirs, nil, cons, VirtualDirectory, find_file, has_dir,
}
use teilpunkt.Vfs.Search.{
  Pointer, Visit, rounds_for, start, find_file_in, find_containing_dir, contains,
}
use teilpunkt.Vfs.Search.Tree.{get_at, total, whole, cache_total, one, own, size-total}
use teilpunkt.Vfs.Search.Outcome.{IsAt, walk-Ends}

pub eq_id_iff : (a b : FileId) → (eq_id a b ≡ true) ↔ (a ≡ b)
unfolding eq_id
eq_id_iff a b = ground arith

-- How many of the files have the identifier.
unfoldable pub files_with : FileId → List VirtualFile → ℕ
files_with fid [] = 0
files_with fid (f ∷ fs) = (if eq_id f.fid fid then 1 else 0) + files_with fid fs

pub files_with-append :
    (x : FileId) (fs : List VirtualFile) (f : VirtualFile)
    → files_with x (fs ++ f ∷ []) ≡ files_with x fs + (if eq_id f.fid x then 1 else 0)
unfolding files_with
files_with-append x [] f = omega arith
files_with-append x (y ∷ fs) f = omega (arith, files_with-append x fs f)

abbrev pub files_of : FileId → DirectoryData → ℕ
files_of fid d = files_with fid d.files

-- How often a file with the identifier stands in the tree.
abbrev pub file_count : FileId → VirtualDirectory → ℕ
file_count fid = whole (own (files_of fid))

abbrev pub is_dir : FileId → DirectoryData → ℕ
is_dir fid d = if eq_id d.fid fid then 1 else 0

-- How often a directory with the identifier stands in the tree, and how often below the root.
abbrev pub dir_count : FileId → VirtualDirectory → ℕ
dir_count fid = whole (own (is_dir fid))

abbrev pub dir_count_below : FileId → VirtualDirectory → ℕ
dir_count_below fid root = total (own (is_dir fid)) root.dirs

pub find_file-none_iff :
    (fid : FileId) (fs : List VirtualFile) → (find_file fid fs ≡ none) ↔ (files_with fid fs ≡ 0)
unfolding find_file files_with
find_file-none_iff fid [] = ground arith
find_file-none_iff fid (f ∷ fs) = ground (arith, find_file-none_iff fid fs)

pub start_covers : (root : VirtualDirectory) → cache_total one (start root) ≤ rounds_for root
start_covers root = omega (arith, size-total root.dirs)

pub start-IsAt : (root : VirtualDirectory) → All (IsAt root) (start root)
unfolding get_at
start-IsAt root = (refl, tt)

-- The directory at the end of a pointer, with what is said of it.
pub record Found (root : VirtualDirectory) (p : Pointer) (P : VirtualDirectory → Type 0)
    : Type 0 where
  pub dir : VirtualDirectory
  pub at : get_at p root ≡ some dir
  pub holds : P dir

-- `findFile` returns: a file that a directory of the tree finds by the identifier, or `nullptr`, and
-- then no file of the tree has it.
pub find_file_in_lem :
    (file : FileId) (root : VirtualDirectory)
    → ((f : VirtualFile) × (find_file_in file root ≡ some (some f))
        × (p : Pointer) × Found root p (λ dir. find_file file dir.self.files ≡ some f))
      ⊎ ((find_file_in file root ≡ some none) × (file_count file root ≡ 0))
unfolding find_file_in
find_file_in_lem file root =
    elim (walk-Ends root (λ v. find_file file v.dir.self.files) (own (files_of file))
      (λ v e. (find_file-none_iff file v.dir.self.files).0 e) (rounds_for root) (start root)
      (start-IsAt root) (start_covers root)) [
        | inl (f, ends, hit) ↦ inl (
          f,
          ends,
          hit.visit.pointer,
          record { dir = hit.visit.dir; at = hit.at; holds = hit.hit },
        )
        | inr (ends, zeros) ↦ inr (ends, omega (arith, zeros))
      ]

-- The number of directories in a directory that have the identifier
unfoldable pub children_with : FileId → Dirs → ℕ
children_with fid nil = 0
children_with fid (cons d ds rest) = is_dir fid d + children_with fid rest

abbrev pub children_of : FileId → DirectoryData → Dirs → ℕ
children_of fid d ds = children_with fid ds

-- Each directory below the root is in one directory.
pub total-children :
    (fid : FileId) (ds : Dirs)
    → total (children_of fid) ds + children_with fid ds ≡ total (own (is_dir fid)) ds
unfolding total children_with
total-children fid nil = refl
total-children fid (cons d ds rest) = omega (arith, total-children fid ds, total-children fid rest)

pub has_dir_iff : (fid : FileId) (ds : Dirs) → (has_dir fid ds ≡ false) ↔ (children_with fid ds ≡ 0)
unfolding has_dir children_with
has_dir_iff fid nil = ground arith
has_dir_iff fid (cons d ds rest) = ground (arith, has_dir_iff fid rest)

abbrev contents_of : FileId → DirectoryData → Dirs → ℕ
contents_of fid d ds = files_with fid d.files + children_with fid ds

total-contents :
    (fid : FileId) (ds : Dirs)
    → total (contents_of fid) ds ≡ total (own (files_of fid)) ds + total (children_of fid) ds
unfolding total
total-contents fid nil = refl
total-contents fid (cons d ds rest) = omega (arith, total-contents fid ds, total-contents fid rest)

contains-none :
    (fid : FileId) (v : Visit) → contains fid v ≡ none → contents_of fid v.dir.self v.dir.dirs ≡ 0
unfolding contains
contains-none fid v h =
    ground (arith, find_file-none_iff fid v.dir.self.files, has_dir_iff fid v.dir.dirs)

-- That a directory holds a file or a directory with an identifier.
abbrev pub Holds : FileId → VirtualDirectory → Type 0
Holds fid dir = 0 < files_with fid dir.self.files + children_with fid dir.dirs

contains-some :
    (fid : FileId) (v : Visit) {p : Pointer}
    → contains fid v ≡ some p
    → (p ≡ v.pointer) × Holds fid v.dir
unfolding contains
contains-some fid v h =
    ground (arith, find_file-none_iff fid v.dir.self.files, has_dir_iff fid v.dir.dirs)

-- `findContainingDir` returns: a directory of the tree that holds a file or a directory with the
-- identifier, or `nullptr`, and then no file, and no directory but the root, has it.
pub find_containing_dir_lem :
    (fid : FileId) (root : VirtualDirectory)
    → ((p : Pointer) × (find_containing_dir fid root ≡ some (some p)) × Found root p (Holds fid))
      ⊎ ((find_containing_dir fid root ≡ some none)
          × (file_count fid root ≡ 0)
          × (dir_count_below fid root ≡ 0))
unfolding find_containing_dir
find_containing_dir_lem fid root =
    elim (walk-Ends root (contains fid) (contents_of fid) (contains-none fid) (rounds_for root)
      (start root) (start-IsAt root) (start_covers root)) [
        | inl (p, ends, hit) ↦
            let (e, holds) = contains-some fid hit.visit hit.hit in
            inl (p, ends, record { dir = hit.visit.dir; at = rw e hit.at; holds = holds })
        | inr (ends, zeros) ↦ inr (
          ends,
          omega (arith, zeros, total-contents fid root.dirs),
          omega (arith, zeros, total-contents fid root.dirs, total-children fid root.dirs),
        )
      ]
