-- ===== src/Storage.antt =====
-- src/storage/StorageEndpoint.cpp: the operations of a storage endpoint on its virtual file system,
-- with `IsValidFilename` (src/util/Strings.cpp) and `userCanAction`
-- (src/uac/UserAccessControl.cpp). An operation runs under the endpoint's lock, takes no time and
-- logs nothing; it returns `none` if a search of the tree has not ended. What is written through a
-- reference is an `Option`, `none` where nothing is written.
pub mod Targets
pub mod Listing
pub mod Deleting
pub mod Removing
pub mod Names
mod Tests
pub mod Commands
pub mod Numbering
use teilpunkt.Base.{
  ℕ, ◌+◌, ltb, leb, Str, Bool, true, false, not, ◌&&◌, Option, none, some, List, [], ◌∷◌,
  if◌then◌else◌, all, is_empty,
}
use teilpunkt.Vfs.{
  uint32, FileId, new_id, VirtualFile, FileCreationInfo, DirectoryCreationInfo, DirectoryData, nil,
  VirtualDirectory, new_directory,
}
use teilpunkt.Vfs.Directory
use teilpunkt.Vfs.Directory.{file_add, dir_add, ResponseDirectoryEntry, from_file, collect_entries}
use teilpunkt.Vfs.Search.{Pointer, find_file_in, find_dir, find_containing_dir}
use teilpunkt.Vfs.Search.Tree.{get_at, set_at}

pub data StorageStatus : Type 0 where
  invalid : StorageStatus
  ok : StorageStatus
  err_unsuccessful : StorageStatus
  err_no_uac_perm : StorageStatus
  err_no_admin : StorageStatus
  err_no_such_file : StorageStatus
  err_no_such_dir : StorageStatus
  err_invalid_file_name : StorageStatus
  err_no_unique_name : StorageStatus
  err_no_such_endpoint : StorageStatus

pub data UacStatus : Type 0 where
  invalid : UacStatus
  ok : UacStatus
  err_no_access : UacStatus
  err_invalid_args : UacStatus

pub data PermissionFlag : Type 0 where
  invalid : PermissionFlag
  read : PermissionFlag
  delete : PermissionFlag
  create : PermissionFlag
  write : PermissionFlag

-- The access control that an endpoint asks.
pub record UserAccessControl : Type 0 where
  pub user_can_action : ℕ → FileId → PermissionFlag → UacStatus

-- `UserAccessControl::userCanAction`, which lets everybody do everything.
abbrev pub uac : UserAccessControl
uac = record { user_can_action = λ user file flag. UacStatus.ok }

unfoldable pub can_action : UserAccessControl → ℕ → FileId → PermissionFlag → Bool
can_action control user file flag = elim (control.user_can_action user file flag) [
  | UacStatus.ok ↦ true
  | _ ↦ false
]

-- `isprint` in the "C" locale
unfoldable pub is_print : ℕ → Bool
is_print c = leb 32 c && leb c 126

unfoldable pub is_valid_filename : Str → Bool
unfolding is_print
is_valid_filename name = if is_empty name then false else all is_print name

-- The virtual file system of the endpoint, with the counter of identifiers.
pub record StorageEndpoint : Type 0 where
  pub root : VirtualDirectory
  pub uid : ℕ

-- What a search has returned: nothing yet, `nullptr`, or a pointer and the directory it points to.
pub data Target : Type 0 where
  unfinished : Target
  nullptr : Target
  directory : (pointer : Pointer) (dir : VirtualDirectory) → Target

unfoldable pub target : VirtualDirectory → Option (Option Pointer) → Target
unfolding get_at
target root none = unfinished
target root (some none) = nullptr
target root (some (some p)) = elim (get_at p root) [
  | none ↦ unfinished
  | some dir ↦ directory p dir
]

abbrev pub changed : StorageEndpoint → Pointer → VirtualDirectory → StorageEndpoint
changed e p dir = record e { root = set_at p dir e.root }

-- What `fileCreate` and `dirCreate` do with the outcome of `fileAdd` and `dirAdd`
abbrev pub added :
    StorageEndpoint
    → Pointer
    → VirtualDirectory × ℕ × Option FileId
    → StorageEndpoint × StorageStatus × Option FileId
added e p (dir, uid, none) = (e, StorageStatus.err_no_unique_name, none)
added e p (dir, uid, some fid) =
    (record { root = set_at p dir e.root; uid = uid }, StorageStatus.ok, some fid)

-- What `fileDelete` and `dirDelete` do with the outcome of the directory's operation
abbrev pub deleted :
    StorageEndpoint → Pointer → VirtualDirectory × Bool → StorageEndpoint × StorageStatus
deleted e p (dir, done) =
    (changed e p dir, if done then StorageStatus.ok else StorageStatus.err_unsuccessful)

module _ (control : UserAccessControl) (now : ℕ) (actor : ℕ) where
  unfoldable pub file_create :
      FileId
      → FileCreationInfo
      → StorageEndpoint
      → Option (StorageEndpoint × StorageStatus × Option FileId)
  file_create dir info e =
      if not (is_valid_filename info.name)
      then some (e, StorageStatus.err_invalid_file_name, none)
      else if not (can_action control actor dir PermissionFlag.create)
      then some (e, StorageStatus.err_no_uac_perm, none)
      else elim (target e.root (find_dir dir e.root)) [
        | unfinished ↦ none
        | nullptr ↦ some (e, StorageStatus.err_no_such_dir, none)
        | directory p d ↦ some (added e p (file_add now e.uid info d))
      ]

  unfoldable pub dir_create :
      FileId → DirectoryCreationInfo → StorageEndpoint → Option (StorageEndpoint × StorageStatus)
  dir_create dir info e =
      if not (is_valid_filename info.name)
      then some (e, StorageStatus.err_invalid_file_name)
      else if not (can_action control actor dir PermissionFlag.create)
      then some (e, StorageStatus.err_no_uac_perm)
      else elim (target e.root (find_dir dir e.root)) [
        | unfinished ↦ none
        | nullptr ↦ some (e, StorageStatus.err_no_such_dir)
        | directory p d ↦
            let (e', status, created) = added e p (dir_add now e.uid info d) in some (e', status)
      ]

  unfoldable pub file_delete : FileId → StorageEndpoint → Option (StorageEndpoint × StorageStatus)
  file_delete file e =
      if not (can_action control actor file PermissionFlag.delete)
      then some (e, StorageStatus.err_no_uac_perm)
      else elim (target e.root (find_containing_dir file e.root)) [
        | unfinished ↦ none
        | nullptr ↦ some (e, StorageStatus.err_no_such_dir)
        | directory p d ↦ some (deleted e p (Directory.file_delete now file d))
      ]

  unfoldable pub dir_delete : FileId → StorageEndpoint → Option (StorageEndpoint × StorageStatus)
  dir_delete dir e =
      if not (can_action control actor dir PermissionFlag.delete)
      then some (e, StorageStatus.err_no_uac_perm)
      else elim (target e.root (find_containing_dir dir e.root)) [
        | unfinished ↦ none
        | nullptr ↦ some (e, StorageStatus.err_no_such_dir)
        | directory p d ↦ some (deleted e p (Directory.dir_delete now dir d))
      ]

-- The operations that change nothing
module _ (control : UserAccessControl) (user_name : ℕ → Str) (actor : ℕ) where
  unfoldable pub dir_get_entries :
      FileId → StorageEndpoint → Option (StorageStatus × Option (List ResponseDirectoryEntry))
  dir_get_entries dir e =
      if not (can_action control actor dir PermissionFlag.read)
      then some (StorageStatus.err_no_uac_perm, none)
      else elim (target e.root (find_dir dir e.root)) [
        | unfinished ↦ none
        | nullptr ↦ some (StorageStatus.err_no_such_dir, none)
        | directory p d ↦ some (StorageStatus.ok, some (collect_entries user_name d))
      ]

  unfoldable pub info_file :
      FileId → StorageEndpoint → Option (StorageStatus × Option ResponseDirectoryEntry)
  info_file file e =
      if not (can_action control actor file PermissionFlag.read)
      then some (StorageStatus.err_no_uac_perm, none)
      else elim (find_file_in file e.root) [
        | none ↦ none
        | some none ↦ some (StorageStatus.err_no_such_file, none)
        | some (some f) ↦ some (StorageStatus.ok, some (from_file user_name f))
      ]

-- `fileRead` and `fileWrite`, up to the start of the transaction
unfoldable pub file_open :
    UserAccessControl → ℕ → PermissionFlag → FileId → StorageEndpoint → Option StorageStatus
file_open control actor flag file e =
    if not (can_action control actor file flag)
    then some StorageStatus.err_no_uac_perm
    else elim (find_file_in file e.root) [
      | none ↦ none
      | some none ↦ some StorageStatus.err_no_such_file
      | some (some f) ↦ some StorageStatus.ok
    ]

-- `FileID::Root`
abbrev pub root_id : ℕ → FileId
root_id endpoint = record { uid = 4294967295; endpoint = endpoint; directory = true }

-- The constructor, up to the file that it creates: the root is made with the first identifier.
unfoldable pub new_endpoint : ℕ → ℕ → Str → ℕ → ℕ → ℕ → StorageEndpoint
unfolding new_id new_directory
new_endpoint now uid name max_size creator endpoint =
    let info : DirectoryCreationInfo = record {
      name = name;
      creator = creator;
      parent = root_id endpoint;
      max_size = max_size;
    } in
    let (fid, uid') = new_id endpoint true uid in
    record { root = record { self = new_directory now info fid; dirs = nil }; uid = uid' }
