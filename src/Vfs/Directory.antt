-- ===== src/Vfs/Directory.antt =====
-- src/storage/vfs/VirtualDirectory.cpp: the operations of a directory, and what src/server/DTO.cpp
-- reads of it. An operation returns whether it succeeded. Sizes are of type `uint64_t`.
pub mod Sizes
use teilpunkt.Base.{
  ℕ, ◌+◌, ◌-◌, ◌/◌, ◌%◌, ◌==◌, ltb, Str, Bool, true, false, not, ◌&&◌, Option, none, some, List, [],
  ◌∷◌, ◌++◌, map, if◌then◌else◌,
}
use teilpunkt.Vfs.{
  uint64, FileId, eq_id, new_id, FileInfo, FileStats, VirtualFile, FileCreationInfo,
  DirectoryCreationInfo, DirectoryData, Dirs, nil, cons, VirtualDirectory, on_access,
  on_modification, modified_at, new_file, new_directory, find_file, file_name_exists,
  dir_name_exists, append_dir,
}

abbrev pub modify_self : (DirectoryData → DirectoryData) → VirtualDirectory → VirtualDirectory
modify_self f dir = record dir { self = f dir.self }

-- `fileAdd`: the identifier of the new file, if there is one, and the counter.
unfoldable pub file_add :
    ℕ → ℕ → FileCreationInfo → VirtualDirectory → VirtualDirectory × ℕ × Option FileId
unfolding file_name_exists on_modification new_file new_id
file_add now uid create_info dir =
    if file_name_exists create_info.name dir.self.files
    then (dir, uid, none)
    else (let (fid, uid') = new_id create_info.endpoint false uid in
        let modified = modified_at now dir.self in
        (
          record dir {
            self = record modified { files = modified.files ++ new_file now create_info fid ∷ [] };
          },
          uid',
          some fid,
        ))

-- `findFile`, and the change of what it points to.
unfoldable pub set_file : FileId → (VirtualFile → VirtualFile) → List VirtualFile → List VirtualFile
unfolding eq_id
set_file fid f [] = []
set_file fid f (x ∷ xs) =
    let rest = set_file fid f xs in if eq_id x.fid fid then f x ∷ xs else x ∷ rest

unfoldable pub can_hold_size_change : ℕ → ℕ → DirectoryData → Bool
can_hold_size_change curr_size new_size d =
    ltb ((d.stats.size + d.sub_dir_file_size + uint64 - curr_size + new_size) % uint64) d.size_limit

unfoldable pub file_change_size : ℕ → FileId → ℕ → VirtualDirectory → VirtualDirectory × Bool
unfolding find_file can_hold_size_change set_file on_modification
file_change_size now file new_file_size dir = elim (find_file file dir.self.files) [
  | none ↦ (dir, false)
  | some change_file ↦
      let curr_file_size = change_file.stats.size in
      if curr_file_size == new_file_size
      then (dir, true)
      else if not (can_hold_size_change curr_file_size new_file_size dir.self)
      then (dir, false)
      else (let size = (dir.self.stats.size + uint64 - curr_file_size + new_file_size) % uint64 in
          let files =
            set_file file
              (λ f. record f {
                stats = on_modification now (record f.stats { size = new_file_size });
              })
              dir.self.files in
          (
            record dir {
              self = record dir.self {
                stats = on_modification now (record dir.self.stats { size = size });
                files = files;
              };
            },
            true,
          ))
]

-- `std::erase_if` on the files
unfoldable pub erase_file : FileId → List VirtualFile → List VirtualFile
unfolding eq_id
erase_file fid [] = []
erase_file fid (f ∷ fs) = let rest = erase_file fid fs in if eq_id f.fid fid then rest else f ∷ rest

-- `fileDelete` and `fileDeleteImpl`. The file that was found is one that is erased.
unfoldable pub file_delete : ℕ → FileId → VirtualDirectory → VirtualDirectory × Bool
unfolding find_file erase_file on_modification
file_delete now file dir = elim (find_file file dir.self.files) [
  | none ↦ (dir, false)
  | some change_file ↦
      let modified = modified_at now (record dir.self { files = erase_file file dir.self.files }) in
      (
        record dir {
          self = record modified {
            stats = record modified.stats {
              size = (modified.stats.size + uint64 - change_file.stats.size) % uint64;
            };
          };
        },
        true,
      )
]

-- `dirAdd`, as `file_add`.
unfoldable pub dir_add :
    ℕ → ℕ → DirectoryCreationInfo → VirtualDirectory → VirtualDirectory × ℕ × Option FileId
unfolding dir_name_exists on_modification new_directory append_dir new_id
dir_add now uid create_info dir =
    if dir_name_exists create_info.name dir.dirs
    then (dir, uid, none)
    else (let (fid, uid') = new_id create_info.parent.endpoint true uid in
        (
          record {
            self = modified_at now dir.self;
            dirs = append_dir dir.dirs (new_directory now create_info fid);
          },
          uid',
          some fid,
        ))

-- `std::erase_if` on the directories: those that are empty and have the identifier.
unfoldable pub is_erased : FileId → DirectoryData → Dirs → Bool
unfolding eq_id
is_erased fid d nil = elim d.files [ [] ↦ eq_id d.fid fid | _ ∷ _ ↦ false ]
is_erased fid d (cons _ _ _) = false

unfoldable pub erase_dir : FileId → Dirs → Dirs
unfolding is_erased
erase_dir fid nil = nil
erase_dir fid (cons d ds rest) =
    let rest' = erase_dir fid rest in if is_erased fid d ds then rest' else cons d ds rest'

-- Whether `erase_if` counts more than none.
unfoldable pub some_is_erased : FileId → Dirs → Bool
unfolding is_erased
some_is_erased fid nil = false
some_is_erased fid (cons d ds rest) = if is_erased fid d ds then true else some_is_erased fid rest

unfoldable pub dir_delete : ℕ → FileId → VirtualDirectory → VirtualDirectory × Bool
unfolding on_access on_modification erase_dir some_is_erased
dir_delete now fid dir =
    let accessed = modify_self (λ d. record d { stats = on_access now d.stats }) dir in
    if not fid.directory
    then (accessed, false)
    else if some_is_erased fid dir.dirs
    then (record { self = modified_at now accessed.self; dirs = erase_dir fid dir.dirs }, true)
    else (accessed, false)

unfoldable pub rename : ℕ → Str → VirtualDirectory → VirtualDirectory
unfolding on_modification
rename now name = modify_self λ d.
    let modified = modified_at now d in
    record modified { info = record modified.info { name = name } }

pub record ResponseDirectoryEntry : Type 0 where
  pub name : Str
  pub fid : FileId
  pub is_file : Bool
  pub creator : Str
  pub owner : Str
  pub unix_last_edit : ℕ
  pub unix_last_access : ℕ
  pub unix_creation : ℕ
  pub size_bytes : ℕ

abbrev entry_of : (ℕ → Str) → FileId → Bool → FileInfo → FileStats → ℕ → ResponseDirectoryEntry
entry_of user_name fid is_file info stats size = record {
  name = info.name;
  fid = fid;
  is_file = is_file;
  creator = user_name info.creator;
  owner = user_name info.owner;
  unix_last_edit = stats.modified / 1000000000;
  unix_last_access = stats.accessed / 1000000000;
  unix_creation = stats.created / 1000000000;
  size_bytes = size;
}

-- The first argument is what `getUserName` writes for a user.
unfoldable pub from_file : (ℕ → Str) → VirtualFile → ResponseDirectoryEntry
from_file user_name f = entry_of user_name f.fid true f.info f.stats f.stats.size

unfoldable pub from_dir : (ℕ → Str) → DirectoryData → ResponseDirectoryEntry
from_dir user_name d =
    entry_of user_name d.fid false d.info d.stats ((d.stats.size + d.sub_dir_file_size) % uint64)

unfoldable pub dir_entries : (ℕ → Str) → Dirs → List ResponseDirectoryEntry
unfolding from_dir
dir_entries user_name nil = []
dir_entries user_name (cons d ds rest) = from_dir user_name d ∷ dir_entries user_name rest

unfoldable pub collect_entries : (ℕ → Str) → VirtualDirectory → List ResponseDirectoryEntry
unfolding from_file dir_entries
collect_entries user_name dir =
    map (from_file user_name) dir.self.files ++ dir_entries user_name dir.dirs
