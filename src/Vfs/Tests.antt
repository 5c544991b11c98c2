-- ===== src/Vfs/Tests.antt =====
-- A tree of src/storage/vfs, and the theorems about the searches and the sizes at it.
use teilpunkt.Base.{ℕ, ◌-◌, ◌≡◌, ◌⊎◌, refl, none, some, List, [], ◌∷◌, Str, str, arith, true, false}
use teilpunkt.Vfs.{
  uint64, FileId, eq_id, FileInfo, FileStats, VirtualFile, DirectoryData, nil, cons,
  VirtualDirectory,
}
use teilpunkt.Vfs.Directory
use teilpunkt.Vfs.Directory.{file_add, file_change_size, can_hold_size_change}
use teilpunkt.Vfs.Directory.Sizes.{IsSummed, operations_sum, can_hold_size_change_wraps}
use teilpunkt.Vfs.Search.{Pointer, find_dir, find_rounds, scan, size}
use teilpunkt.Vfs.Lookup.{Found, dir_count, files_with}
use teilpunkt.Vfs.FindDir.{find_dir_lem}

abbrev file_id : ℕ → FileId
file_id uid = record { uid = uid; endpoint = 1; directory = false }

abbrev dir_id : ℕ → FileId
dir_id uid = record { uid = uid; endpoint = 1; directory = true }

abbrev info_named : Str → FileInfo
info_named name = record { name = name; creator = 7; owner = 7 }

abbrev stats_with : ℕ → FileStats
stats_with size = record {
  created = 0;
  modified = 0;
  accessed = 0;
  modification_count = 0;
  access_count = 0;
  size = size;
}

abbrev file_of_size : ℕ → ℕ → VirtualFile
file_of_size uid size = record {
  fid = file_id uid;
  info = info_named (str "f");
  stats = stats_with size;
}

abbrev dir_with : ℕ → ℕ → List VirtualFile → DirectoryData
dir_with uid size files = record {
  fid = dir_id uid;
  info = info_named (str "d");
  parent = dir_id 1;
  stats = stats_with size;
  sub_dir_file_size = 0;
  size_limit = 100;
  is_read_only = false;
  files = files;
}

-- Two directories, the second with two of its own
abbrev tree : VirtualDirectory
tree = record {
  self = dir_with 1 0 [];
  dirs =
      cons (dir_with 2 0 []) nil
        (cons (dir_with 3 0 []) (cons (dir_with 4 0 []) nil (cons (dir_with 5 0 []) nil nil)) nil);
}

finds :
    (find_dir (dir_id 5) tree ≡ some (some (1 ∷ 1 ∷ []))) × (find_dir (dir_id 9) tree ≡ some none)
unfolding find_dir find_rounds scan size eq_id
finds = (refl, refl)

find_dir_lem_example :
    ((p : Pointer) × (find_dir (dir_id 5) tree ≡ some (some p))
      × Found tree p (λ dir. dir.self.fid ≡ dir_id 5))
    ⊎ ((find_dir (dir_id 5) tree ≡ some none) × (dir_count (dir_id 5) tree ≡ 0))
find_dir_lem_example = find_dir_lem (dir_id 5) tree

abbrev used : VirtualDirectory
used = record { self = dir_with 2 30 (file_of_size 3 10 ∷ file_of_size 4 20 ∷ []); dirs = nil }

used-IsSummed : IsSummed used.self
unfolding files_with eq_id
used-IsSummed = record { total = refl; bounded = omega arith; once = λ fid. ground arith }

operations_sum_example :
    IsSummed (file_add 5 9 (record { name = str "g"; creator = 7; endpoint = 1 }) used).0.self
    × IsSummed (file_change_size 5 (file_id 3) 40 used).0.self
    × IsSummed (Directory.file_delete 5 (file_id 3) used).0.self
operations_sum_example =
    operations_sum 5 used used-IsSummed 9 (record { name = str "g"; creator = 7; endpoint = 1 })
      (file_id 3) 40 (unfold files_with eq_id in refl) (omega arith)

can_hold_size_change_wraps_example : can_hold_size_change 10 (uint64 - 20) used.self ≡ true
can_hold_size_change_wraps_example =
    can_hold_size_change_wraps used.self 10 (omega arith) (omega arith) (omega arith)
