-- ===== src/Vfs/Search.antt =====
-- src/storage/vfs/VirtualFilesystem.cpp: the searches through the tree. A pointer to a directory is
-- the way to it from the root, the places of the directories on it; the head of `iterationCache` is
-- the vector's back. A search has one round for each directory of the tree, and returns `none` if
-- it has not ended by then.
pub mod Tree
pub mod Skeleton
pub mod Outcome
use teilpunkt.Base.{
  ℕ, zero, suc, ◌+◌, ◌||◌, Bool, true, false, Option, none, some, List, [], ◌∷◌, ◌++◌,
  if◌then◌else◌,
}
use teilpunkt.Vfs.{
  FileId, eq_id, VirtualFile, Dirs, nil, cons, VirtualDirectory, find_file, has_dir,
}

abbrev pub Pointer : Type 0
Pointer = List ℕ

-- An element of `iterationCache`: a pointer, and the directory it points to.
pub record Visit : Type 0 where
  pub pointer : Pointer
  pub dir : VirtualDirectory

unfoldable pub size : Dirs → ℕ
size nil = 0
size (cons d ds rest) = suc (size ds + size rest)

abbrev pub rounds_for : VirtualDirectory → ℕ
rounds_for root = suc (size root.dirs)

-- The directories of a directory are pushed, from place `i` on.
unfoldable pub push_dirs : Pointer → ℕ → Dirs → List Visit → List Visit
push_dirs p i nil cache = cache
push_dirs p i (cons d ds rest) cache =
    push_dirs p (i + 1) rest
      (record { pointer = p ++ i ∷ []; dir = record { self = d; dirs = ds } } ∷ cache)

-- The loop that `findFile` and `findContainingDir` share: `check` is what they do at a directory.
unfoldable pub walk : {A : Type 0} → (Visit → Option A) → ℕ → List Visit → Option (Option A)
unfolding push_dirs
walk check n [] = some none
walk check zero (v ∷ cache) = none
walk check (suc n) (v ∷ cache) = elim (check v) [
  | some result ↦ some (some result)
  | none ↦ walk check n (push_dirs v.pointer 0 v.dir.dirs cache)
]

abbrev pub start : VirtualDirectory → List Visit
start root = record { pointer = []; dir = root } ∷ []

unfoldable pub find_file_in : FileId → VirtualDirectory → Option (Option VirtualFile)
unfolding walk find_file size
find_file_in file root = walk (λ v. find_file file v.dir.self.files) (rounds_for root) (start root)

-- What `findContainingDir` does at a directory
unfoldable pub contains : FileId → Visit → Option Pointer
unfolding find_file has_dir
contains file v = elim (find_file file v.dir.self.files) [
  | some _ ↦ some v.pointer
  | none ↦ if has_dir file v.dir.dirs then some v.pointer else none
]

unfoldable pub find_containing_dir : FileId → VirtualDirectory → Option (Option Pointer)
unfolding walk contains size
find_containing_dir file root = walk (contains file) (rounds_for root) (start root)

-- The inner loop of `findDir`: it returns, or has pushed all.
pub data Scan : Type 0 where
  found : Pointer → Scan
  pushed : List Visit → Scan

unfoldable pub scan : FileId → Pointer → ℕ → Dirs → List Visit → Scan
unfolding eq_id
scan dir p i nil cache = pushed cache
scan dir p i (cons d ds rest) cache =
    let next =
      scan dir p (i + 1) rest
        (record { pointer = p ++ i ∷ []; dir = record { self = d; dirs = ds } } ∷ cache) in
    if eq_id d.fid dir then found (p ++ i ∷ []) else next

unfoldable pub find_rounds : FileId → ℕ → List Visit → Option (Option Pointer)
unfolding scan
find_rounds dir n [] = some none
find_rounds dir zero (v ∷ cache) = none
find_rounds dir (suc n) (v ∷ cache) = elim (scan dir v.pointer 0 v.dir.dirs cache) [
  | found p ↦ some (some p)
  | pushed cache' ↦ find_rounds dir n cache'
]

unfoldable pub find_dir : FileId → VirtualDirectory → Option (Option Pointer)
unfolding eq_id find_rounds size
find_dir dir root =
    if eq_id dir root.self.fid
    then some (some [])
    else find_rounds dir (rounds_for root) (start root)
