-- ===== src/Vfs.antt =====
-- The virtual file system, src/storage/vfs: files (VirtualFile.cpp), directories
-- (VirtualDirectory.cpp) and the identifiers of both (src/common/FileID). The time of an operation
-- and the counter of identifiers are arguments. A `std::vector` is a list; the vector of directories
-- that a directory holds is the type Dirs.
pub mod Directory
pub mod Search
pub mod Lookup
pub mod FindDir
mod Tests
use teilpunkt.Base.{
  ℕ, zero, suc, ◌+◌, ◌-◌, ◌%◌, ◌==◌, ltb, Str, eq_str, Bool, true, false, not, ◌&&◌, ◌||◌, Option,
  none, some, List, [], ◌∷◌, ◌++◌, map, if◌then◌else◌,
}

abbrev pub uint32 : ℕ
uint32 = 4294967296

abbrev pub uint64 : ℕ
uint64 = 18446744073709551616

pub record FileId : Type 0 where
  pub uid : ℕ
  pub endpoint : ℕ
  pub directory : Bool

abbrev eq_bool : Bool → Bool → Bool
eq_bool true b = b
eq_bool false b = not b

unfoldable pub eq_id : FileId → FileId → Bool
eq_id a b = a.uid == b.uid && a.endpoint == b.endpoint && eq_bool a.directory b.directory

-- The constructor: the identifier, and the counter after it.
unfoldable pub new_id : ℕ → Bool → ℕ → FileId × ℕ
new_id endpoint directory uid =
    (record { uid = uid; endpoint = endpoint; directory = directory }, (uid + 1) % uint32)

pub record FileInfo : Type 0 where
  pub name : Str
  pub creator : ℕ
  pub owner : ℕ

pub record FileStats : Type 0 where
  pub created : ℕ
  pub modified : ℕ
  pub accessed : ℕ
  pub modification_count : ℕ
  pub access_count : ℕ
  pub size : ℕ

pub record VirtualFile : Type 0 where
  pub fid : FileId
  pub info : FileInfo
  pub stats : FileStats

pub record FileCreationInfo : Type 0 where
  pub name : Str
  pub creator : ℕ
  pub endpoint : ℕ

pub record DirectoryCreationInfo : Type 0 where
  pub name : Str
  pub creator : ℕ
  pub parent : FileId
  pub max_size : ℕ

-- The fields of a directory but its directories, `info`, `stats` and `limits` spread out.
pub record DirectoryData : Type 0 where
  pub fid : FileId
  pub info : FileInfo
  pub parent : FileId
  pub stats : FileStats
  pub sub_dir_file_size : ℕ
  pub size_limit : ℕ
  pub is_read_only : Bool
  pub files : List VirtualFile

-- A vector of directories: the first with its own directories, and the rest.
pub data Dirs : Type 0 where
  nil : Dirs
  cons : (first : DirectoryData) (dirs rest : Dirs) → Dirs

pub record VirtualDirectory : Type 0 where
  pub self : DirectoryData
  pub dirs : Dirs

abbrev pub start_stats : ℕ → FileStats
start_stats now = record {
  created = now;
  modified = now;
  accessed = now;
  modification_count = 0;
  access_count = 0;
  size = 0;
}

unfoldable pub on_access : ℕ → FileStats → FileStats
on_access now s = record s { accessed = now; access_count = (s.access_count + 1) % uint32 }

unfoldable pub on_modification : ℕ → FileStats → FileStats
unfolding on_access
on_modification now s =
    let accessed = on_access now s in
    record accessed { modified = now; modification_count = (s.modification_count + 1) % uint32 }

abbrev pub modified_at : ℕ → DirectoryData → DirectoryData
unfolding on_modification
modified_at now d = record d { stats = on_modification now d.stats }

unfoldable pub new_file : ℕ → FileCreationInfo → FileId → VirtualFile
new_file now create_info fid = record {
  fid = fid;
  info = record {
    name = create_info.name;
    creator = create_info.creator;
    owner = create_info.creator;
  };
  stats = start_stats now;
}

unfoldable pub new_directory : ℕ → DirectoryCreationInfo → FileId → DirectoryData
new_directory now create_info fid = record {
  fid = fid;
  info = record {
    name = create_info.name;
    creator = create_info.creator;
    owner = create_info.creator;
  };
  parent = create_info.parent;
  stats = start_stats now;
  sub_dir_file_size = 0;
  size_limit = create_info.max_size;
  is_read_only = false;
  files = [];
}

-- `findFile` of a directory
unfoldable pub find_file : FileId → List VirtualFile → Option VirtualFile
unfolding eq_id
find_file fid [] = none
find_file fid (f ∷ fs) = let rest = find_file fid fs in if eq_id f.fid fid then some f else rest

-- `findDir` of a directory, as far as its callers read it: whether there is one.
unfoldable pub has_dir : FileId → Dirs → Bool
unfolding eq_id
has_dir fid nil = false
has_dir fid (cons d ds rest) = eq_id d.fid fid || has_dir fid rest

unfoldable pub file_name_exists : Str → List VirtualFile → Bool
unfolding eq_str
file_name_exists name [] = false
file_name_exists name (f ∷ fs) = eq_str f.info.name name || file_name_exists name fs

unfoldable pub dir_name_exists : Str → Dirs → Bool
unfolding eq_str
dir_name_exists name nil = false
dir_name_exists name (cons d ds rest) = eq_str d.info.name name || dir_name_exists name rest

-- `emplace_back`
unfoldable pub append_dir : Dirs → DirectoryData → Dirs
append_dir nil new = cons new nil nil
append_dir (cons d ds rest) new = cons d ds (append_dir rest new)
