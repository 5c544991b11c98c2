-- ===== src/Storage/Targets.antt =====
-- Every operation of src/storage/StorageEndpoint.cpp comes to an end, and what its search points to.
use teilpunkt.Base.{ℕ, ◌≡◌, ◌≢◌, ◌⊎◌, inl, inr, refl, Option, none, some, Str, arith}
use teilpunkt.Vfs.{FileId, FileCreationInfo, DirectoryCreationInfo, VirtualDirectory}
use teilpunkt.Vfs.Search.{Pointer, find_dir, find_containing_dir, find_file_in}
use teilpunkt.Vfs.Search.Tree.{get_at}
use teilpunkt.Vfs.Lookup.{
  Found, Holds, file_count, dir_count, dir_count_below, find_containing_dir_lem, find_file_in_lem,
}
use teilpunkt.Vfs.FindDir.{find_dir_lem}
use teilpunkt.Storage.{
  UserAccessControl, PermissionFlag, StorageEndpoint, unfinished, nullptr, directory, target,
  file_create, dir_create, file_delete, dir_delete, dir_get_entries, info_file, file_open,
}

-- The pointer that a search has returned, and the directory, of which something holds.
pub record Points (root : VirtualDirectory) (search : Option (Option Pointer))
    (P : VirtualDirectory → Type 0) : Type 0 where
  pub pointer : Pointer
  pub dir : VirtualDirectory
  pub finds : search ≡ some (some pointer)
  pub ends : target root search ≡ directory pointer dir
  pub at : get_at pointer root ≡ some dir
  pub holds : P dir

target-Points :
    (root : VirtualDirectory) (p : Pointer) (P : VirtualDirectory → Type 0)
    → Found root p P
    → Points root (some (some p)) P
unfolding target
target-Points root p P f = record {
  pointer = p;
  dir = f.dir;
  finds = refl;
  ends = ground (arith, f.at);
  at = f.at;
  holds = f.holds;
}

pub target-find_dir :
    (fid : FileId) (root : VirtualDirectory)
    → Points root (find_dir fid root) (λ dir. dir.self.fid ≡ fid)
      ⊎ ((target root (find_dir fid root) ≡ nullptr) × (dir_count fid root ≡ 0))
unfolding target
target-find_dir fid root = elim (find_dir_lem fid root) [
  | inl (p, ends, f) ↦ inl (rw ends (target-Points root p (λ dir. dir.self.fid ≡ fid) f))
  | inr (ends, zero) ↦ inr (rw ends refl, zero)
]

pub target-find_containing_dir :
    (fid : FileId) (root : VirtualDirectory)
    → Points root (find_containing_dir fid root) (Holds fid)
      ⊎ ((target root (find_containing_dir fid root) ≡ nullptr)
          × (file_count fid root ≡ 0)
          × (dir_count_below fid root ≡ 0))
unfolding target
target-find_containing_dir fid root = elim (find_containing_dir_lem fid root) [
  | inl (p, ends, f) ↦ inl (rw ends (target-Points root p (Holds fid) f))
  | inr (ends, zero, zero') ↦ inr (rw ends refl, zero, zero')
]

target-find_dir-ne_unfinished :
    (fid : FileId) (root : VirtualDirectory) → target root (find_dir fid root) ≢ unfinished
target-find_dir-ne_unfinished fid root h = elim (target-find_dir fid root) [
  | inl t ↦ cc (t.ends)
  | inr (e, zero) ↦ cc
]

target-find_containing_dir-ne_unfinished :
    (fid : FileId) (root : VirtualDirectory)
    → target root (find_containing_dir fid root) ≢ unfinished
target-find_containing_dir-ne_unfinished fid root h = elim (target-find_containing_dir fid root) [
  | inl t ↦ cc (t.ends)
  | inr (e, zero, zero') ↦ cc
]

find_file_in-ne_none : (file : FileId) (root : VirtualDirectory) → find_file_in file root ≢ none
find_file_in-ne_none file root h = elim (find_file_in_lem file root) [
  | inl (f, ends, p, found) ↦ cc
  | inr (ends, zero) ↦ cc
]

module _ (control : UserAccessControl) (now actor : ℕ) (user_name : ℕ → Str)
    (e : StorageEndpoint) where
  file_create-ne_none :
      (dir : FileId) (info : FileCreationInfo) → file_create control now actor dir info e ≢ none
  unfolding file_create
  file_create-ne_none dir info h = ground (arith, target-find_dir-ne_unfinished dir e.root)

  dir_create-ne_none :
      (dir : FileId) (info : DirectoryCreationInfo) → dir_create control now actor dir info e ≢ none
  unfolding dir_create
  dir_create-ne_none dir info h = ground (arith, target-find_dir-ne_unfinished dir e.root)

  file_delete-ne_none : (file : FileId) → file_delete control now actor file e ≢ none
  unfolding file_delete
  file_delete-ne_none file h = ground (arith, target-find_containing_dir-ne_unfinished file e.root)

  dir_delete-ne_none : (dir : FileId) → dir_delete control now actor dir e ≢ none
  unfolding dir_delete
  dir_delete-ne_none dir h = ground (arith, target-find_containing_dir-ne_unfinished dir e.root)

  dir_get_entries-ne_none : (dir : FileId) → dir_get_entries control user_name actor dir e ≢ none
  unfolding dir_get_entries
  dir_get_entries-ne_none dir h = ground (arith, target-find_dir-ne_unfinished dir e.root)

  info_file-ne_none : (file : FileId) → info_file control user_name actor file e ≢ none
  unfolding info_file
  info_file-ne_none file h = ground (arith, find_file_in-ne_none file e.root)

  file_open-ne_none :
      (flag : PermissionFlag) (file : FileId) → file_open control actor flag file e ≢ none
  unfolding file_open
  file_open-ne_none flag file h = ground (arith, find_file_in-ne_none file e.root)

  -- Every operation of an endpoint returns, whatever the tree and the identifier: the searches have
  -- rounds enough.
  pub operations_return :
      (fid : FileId) (file_info : FileCreationInfo) (dir_info : DirectoryCreationInfo)
      (flag : PermissionFlag)
      → (file_create control now actor fid file_info e ≢ none)
        × (dir_create control now actor fid dir_info e ≢ none)
        × (file_delete control now actor fid e ≢ none)
        × (dir_delete control now actor fid e ≢ none)
        × (dir_get_entries control user_name actor fid e ≢ none)
        × (info_file control user_name actor fid e ≢ none)
        × (file_open control actor flag fid e ≢ none)
  operations_return fid file_info dir_info flag = (
    file_create-ne_none fid file_info,
    dir_create-ne_none fid dir_info,
    file_delete-ne_none fid,
    dir_delete-ne_none fid,
    dir_get_entries-ne_none fid,
    info_file-ne_none fid,
    file_open-ne_none flag fid,
  )
