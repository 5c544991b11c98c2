-- ===== src/Storage/Names.antt =====
-- File names are unique per directory, as src/storage/vfs/VirtualFilesystem.h promises, and so are
-- the names of directories.
pub mod Kept
use teilpunkt.Base.{
  ℕ, zero, suc, ◌+◌, ◌≤◌, ◌<◌, ◌≡◌, ◌≢◌, ◌⊎◌, inl, inr, refl, ap, sym, ◌∙◌, Option, none, some,
  List, [], ◌∷◌, ◌++◌, Str, eq_str, eq_str_iff, arith, Bool, Bool-cases, Option-cases,
  if◌then◌else◌, true, false, not, length, ◌&&◌, map, All, All-append,
}
use teilpunkt.Vfs.{
  FileId, eq_id, VirtualFile, DirectoryData, Dirs, nil, cons, VirtualDirectory, FileCreationInfo,
  DirectoryCreationInfo, file_name_exists, dir_name_exists, append_dir, new_directory,
}
use teilpunkt.Vfs.Directory
use teilpunkt.Vfs.Directory.{file_add, dir_add, erase_file, erase_dir, is_erased, some_is_erased}
use teilpunkt.Vfs.Search.{Pointer}
use teilpunkt.Vfs.Search.Tree.{nth_dir, set_dir, get_at, set_at}
use teilpunkt.Storage.{UserAccessControl, StorageEndpoint, can_action}
use teilpunkt.Storage.Commands.{
  Command, create_file, create_dir, delete_file, delete_dir, elsewhere, step, run,
  create_file_cases, create_dir_cases, delete_file_cases, delete_dir_cases,
}

abbrev pub IsUnique : List Str → Type 0
IsUnique [] = Unit {0}
IsUnique (x ∷ xs) = All (λ (y : Str). y ≢ x) xs × IsUnique xs

abbrev pub file_names : List VirtualFile → List Str
file_names fs = map (λ (f : VirtualFile). f.info.name) fs

abbrev pub dir_names : Dirs → List Str
dir_names nil = []
dir_names (cons d ds rest) = d.info.name ∷ dir_names rest

-- The names of the files of a directory, and those of its directories, differ.
abbrev pub HasOwnNames : DirectoryData → Dirs → Type 0
HasOwnNames d ds = IsUnique (file_names d.files) × IsUnique (dir_names ds)

abbrev pub AllHaveOwnNames : Dirs → Type 0
AllHaveOwnNames nil = Unit {0}
AllHaveOwnNames (cons d ds rest) = HasOwnNames d ds × AllHaveOwnNames ds × AllHaveOwnNames rest

-- In the directory and in every directory below it
abbrev pub HasUniqueNames : VirtualDirectory → Type 0
HasUniqueNames dir = HasOwnNames dir.self dir.dirs × AllHaveOwnNames dir.dirs

pub IsUnique-append :
    (xs : List Str) (y : Str) → IsUnique xs → All (λ (x : Str). x ≢ y) xs → IsUnique (xs ++ y ∷ [])
IsUnique-append [] y u h = (tt, tt)
IsUnique-append (x ∷ xs) y (a, u) (p, h) =
    (All-append (λ (z : Str). z ≢ x) xs (y ∷ []) a (λ e. p (sym e), tt), IsUnique-append xs y u h)

pub file_names-differ :
    (name : Str) (fs : List VirtualFile)
    → file_name_exists name fs ≡ false
    → All (λ (x : Str). x ≢ name) (file_names fs)
unfolding file_name_exists
file_names-differ name [] h = tt
file_names-differ name (f ∷ fs) h = (
  λ same. ground (arith, same, eq_str_iff f.info.name name),
  file_names-differ name fs (ground arith),
)

pub dir_names-differ :
    (name : Str) (ds : Dirs)
    → dir_name_exists name ds ≡ false
    → All (λ (x : Str). x ≢ name) (dir_names ds)
unfolding dir_name_exists
dir_names-differ name nil h = tt
dir_names-differ name (cons d ds rest) h = (
  λ same. ground (arith, same, eq_str_iff d.info.name name),
  dir_names-differ name rest (ground arith),
)

module _ (P : Str → Type 0) where
  All-erase_file :
      (fid : FileId) (fs : List VirtualFile)
      → All P (file_names fs)
      → All P (file_names (erase_file fid fs))
  unfolding erase_file
  All-erase_file fid [] h = tt
  All-erase_file fid (f ∷ fs) (p, h) = elim (Bool-cases (eq_id f.fid fid)) [
    | inl e ↦ rw e (All-erase_file fid fs h)
    | inr e ↦ rw e (p, All-erase_file fid fs h)
  ]

  All-erase_dir :
      (fid : FileId) (ds : Dirs) → All P (dir_names ds) → All P (dir_names (erase_dir fid ds))
  unfolding erase_dir
  All-erase_dir fid nil h = tt
  All-erase_dir fid (cons d ds rest) (p, h) = elim (Bool-cases (is_erased fid d ds)) [
    | inl e ↦ rw e (All-erase_dir fid rest h)
    | inr e ↦ rw e (p, All-erase_dir fid rest h)
  ]

pub IsUnique-erase_file :
    (fid : FileId) (fs : List VirtualFile)
    → IsUnique (file_names fs)
    → IsUnique (file_names (erase_file fid fs))
unfolding erase_file
IsUnique-erase_file fid [] h = tt
IsUnique-erase_file fid (f ∷ fs) (p, h) = elim (Bool-cases (eq_id f.fid fid)) [
  | inl e ↦ rw e (IsUnique-erase_file fid fs h)
  | inr e ↦
      rw e (All-erase_file (λ (y : Str). y ≢ f.info.name) fid fs p, IsUnique-erase_file fid fs h)
]

pub IsUnique-erase_dir :
    (fid : FileId) (ds : Dirs) → IsUnique (dir_names ds) → IsUnique (dir_names (erase_dir fid ds))
unfolding erase_dir
IsUnique-erase_dir fid nil h = tt
IsUnique-erase_dir fid (cons d ds rest) (p, h) = elim (Bool-cases (is_erased fid d ds)) [
  | inl e ↦ rw e (IsUnique-erase_dir fid rest h)
  | inr e ↦
      rw e (All-erase_dir (λ (y : Str). y ≢ d.info.name) fid rest p, IsUnique-erase_dir fid rest h)
]

pub AllHaveOwnNames-erase_dir :
    (fid : FileId) (ds : Dirs) → AllHaveOwnNames ds → AllHaveOwnNames (erase_dir fid ds)
unfolding erase_dir
AllHaveOwnNames-erase_dir fid nil h = tt
AllHaveOwnNames-erase_dir fid (cons d ds rest) (p, below, h) =
    elim (Bool-cases (is_erased fid d ds)) [
      | inl e ↦ rw e (AllHaveOwnNames-erase_dir fid rest h)
      | inr e ↦ rw e (p, below, AllHaveOwnNames-erase_dir fid rest h)
    ]
