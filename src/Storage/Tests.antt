-- ===== src/Storage/Tests.antt =====
-- Runs of the operations of src/storage/StorageEndpoint.cpp, and its theorems at such runs.
use teilpunkt.Base.{
  ℕ, ◌+◌, ◌≡◌, ◌≢◌, ◌≤◌, refl, none, some, List, [], ◌∷◌, ◌++◌, Str, str, arith, true, false, All,
  if◌then◌else◌,
}
use teilpunkt.Vfs.{
  FileId, eq_id, FileCreationInfo, DirectoryCreationInfo, new_file, find_file, has_dir,
}
use teilpunkt.Vfs.Directory.{
  ResponseDirectoryEntry, from_file, from_dir, dir_entries, collect_entries, file_add, dir_add,
  erase_file, erase_dir, is_erased, some_is_erased,
}
use teilpunkt.Vfs.Directory
use teilpunkt.Vfs.Search.{find_dir, find_rounds, scan, walk, contains, find_containing_dir, size}
use teilpunkt.Vfs.Search.Tree.{get_at, set_at, set_dir, nth_dir, total}
use teilpunkt.Vfs.Lookup.{files_with, file_count, dir_count}
use teilpunkt.Storage.{
  StorageStatus, uac, can_action, is_valid_filename, target, StorageEndpoint, new_endpoint,
  file_create, dir_create, file_delete, dir_delete, dir_get_entries, info_file, PermissionFlag,
  file_open,
}
use teilpunkt.Storage.Targets.{operations_return}
use teilpunkt.Storage.Listing.{dir_get_entries-file_create}
use teilpunkt.Storage.Deleting.{file_delete-info_file}
use teilpunkt.Storage.Removing.{dir_delete_lem, is_ok}
use teilpunkt.Storage.Commands.{Command, create_file, create_dir, delete_dir, elsewhere, step, run}
use teilpunkt.Storage.Numbering.Invariant.{IsNumbered, run-IsNumbered, new_endpoint-IsNumbered}
use teilpunkt.Storage.Names.{HasUniqueNames}
use teilpunkt.Storage.Names.Kept.{run-HasUniqueNames}

abbrev root_dir : FileId
root_dir = record { uid = 1; endpoint = 1; directory = true }

abbrev sub_dir : FileId
sub_dir = record { uid = 2; endpoint = 1; directory = true }

abbrev report : FileId
report = record { uid = 3; endpoint = 1; directory = false }

abbrev file_named : Str → FileCreationInfo
file_named name = record { name = name; creator = 7; endpoint = 1 }

abbrev dir_named : Str → DirectoryCreationInfo
dir_named name = record { name = name; creator = 7; parent = root_dir; max_size = 0 }

abbrev new_storage : StorageEndpoint
new_storage = new_endpoint 5 1 (str "Endpoint 1") 10000 1 1

abbrev requests : List (ℕ × Command)
requests =
    (10, create_dir 7 root_dir (dir_named (str "docs")))
    ∷ (20, create_file 7 sub_dir (file_named (str "report.txt")))
    ∷ (25, elsewhere)
    ∷ (30, create_file 7 root_dir (file_named (str "a.txt")))
    ∷ (40, delete_dir 7 sub_dir)
    ∷ []

abbrev storage : StorageEndpoint
storage = run uac requests new_storage

abbrev user_name : ℕ → Str
user_name user = str "someone"

run_counts :
    (file_count report storage.root ≡ 1) × (dir_count sub_dir storage.root ≡ 1) × (storage.uid ≡ 6)
unfolding run new_endpoint step file_create dir_create dir_delete find_dir find_rounds scan get_at
    set_at set_dir nth_dir file_add dir_add is_valid_filename can_action target size
    find_containing_dir walk contains has_dir find_file eq_id Directory.dir_delete erase_dir
    some_is_erased is_erased total files_with
run_counts = (refl, refl, refl)

storage-IsNumbered : IsNumbered storage
storage-IsNumbered =
    run-IsNumbered uac requests new_storage (unfold new_endpoint in omega arith)
      (new_endpoint-IsNumbered 5 1 (str "Endpoint 1") 10000 1 1 (omega arith))

run-IsNumbered_example : IsNumbered storage
run-IsNumbered_example =
    run-IsNumbered uac requests new_storage (unfold new_endpoint in omega arith)
      (new_endpoint-IsNumbered 5 1 (str "Endpoint 1") 10000 1 1 (omega arith))

run-HasUniqueNames_example : HasUniqueNames storage.root
run-HasUniqueNames_example =
    run-HasUniqueNames uac requests new_storage (unfold new_endpoint in ((tt, tt), tt))

operations_return_example :
    (file_create uac 50 7 sub_dir (file_named (str "b.txt")) storage ≢ none)
    × (dir_create uac 50 7 sub_dir (dir_named (str "b.txt")) storage ≢ none)
    × (file_delete uac 50 7 sub_dir storage ≢ none)
    × (dir_delete uac 50 7 sub_dir storage ≢ none)
    × (dir_get_entries uac user_name 7 sub_dir storage ≢ none)
    × (info_file uac user_name 7 sub_dir storage ≢ none)
    × (file_open uac 7 PermissionFlag.read sub_dir storage ≢ none)
operations_return_example =
    operations_return uac 50 7 user_name storage sub_dir (file_named (str "b.txt"))
      (dir_named (str "b.txt")) PermissionFlag.read

-- The endpoint after another file has been created beside the report
abbrev more : StorageEndpoint
more = step uac 50 (create_file 7 sub_dir (file_named (str "b.txt"))) storage

abbrev new_id_of_b : FileId
new_id_of_b = record { uid = 6; endpoint = 1; directory = false }

creation :
    file_create uac 50 7 sub_dir (file_named (str "b.txt")) storage
    ≡ some (more, StorageStatus.ok, some new_id_of_b)
unfolding run new_endpoint step file_create dir_create dir_delete find_dir find_rounds scan get_at
    set_at set_dir nth_dir file_add dir_add is_valid_filename can_action target size
    find_containing_dir walk contains has_dir find_file eq_id Directory.dir_delete erase_dir
    some_is_erased is_erased total files_with
creation = refl

dir_get_entries-file_create_example :
    (old_files sub_dirs : List ResponseDirectoryEntry) × (dir_get_entries uac user_name 8 sub_dir
        storage
      ≡ some (StorageStatus.ok, some (old_files ++ sub_dirs)))
    × (dir_get_entries uac user_name 8 sub_dir more
        ≡ some (
          StorageStatus.ok,
          some (
              old_files
              ++ from_file user_name (new_file 50 (file_named (str "b.txt")) new_id_of_b)
                ∷ sub_dirs),
        ))
    × All (λ (x : ResponseDirectoryEntry). x.is_file ≡ true) old_files
    × All (λ (x : ResponseDirectoryEntry). x.is_file ≡ false) sub_dirs
    × All (λ (x : ResponseDirectoryEntry). x.name ≢ str "b.txt") old_files
dir_get_entries-file_create_example =
    dir_get_entries-file_create uac user_name 50 7 8 sub_dir storage (file_named (str "b.txt"))
      creation (unfold can_action in refl)

file_delete-info_file_example :
    (e' : StorageEndpoint) × (file_delete uac 60 7 report storage ≡ some (e', StorageStatus.ok))
    × (info_file uac user_name 8 report e' ≡ some (StorageStatus.err_no_such_file, none))
    × ((x : FileId)
        → (file_count x e'.root ≡ (if eq_id report x then 0 else file_count x storage.root))
          × (dir_count x e'.root ≡ dir_count x storage.root))
file_delete-info_file_example =
    file_delete-info_file uac user_name 60 7 8 report storage storage-IsNumbered
      (omega (arith, run_counts)) (unfold can_action in refl) (unfold can_action in refl)

refusal :
    dir_delete uac 70 7 sub_dir storage
    ≡ some (step uac 70 (delete_dir 7 sub_dir) storage, StorageStatus.err_unsuccessful)
unfolding run new_endpoint step file_create dir_create dir_delete find_dir find_rounds scan get_at
    set_at set_dir nth_dir file_add dir_add is_valid_filename can_action target size
    find_containing_dir walk contains has_dir find_file eq_id Directory.dir_delete erase_dir
    some_is_erased is_erased total files_with
refusal = refl

dir_delete_lem_example :
    (file_count report (step uac 70 (delete_dir 7 sub_dir) storage).root
      ≡ file_count report storage.root)
    × ((if eq_id sub_dir report
          then 0
          else dir_count report (step uac 70 (delete_dir 7 sub_dir) storage).root)
        ≡ (if eq_id sub_dir report then 0 else dir_count report storage.root))
    × (dir_count sub_dir (step uac 70 (delete_dir 7 sub_dir) storage).root
          + (if is_ok StorageStatus.err_unsuccessful then 1 else 0)
        ≤ dir_count sub_dir storage.root)
dir_delete_lem_example = dir_delete_lem uac 70 7 sub_dir storage report refusal
