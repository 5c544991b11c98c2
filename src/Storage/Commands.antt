-- ===== src/Storage/Commands.antt =====
-- Runs of a storage endpoint, src/storage/StorageEndpoint.cpp: requests one after another, as its
-- lock has it.
use teilpunkt.Base.{
  ℕ, ◌+◌, ◌%◌, ◌≡◌, ◌⊎◌, inl, inr, none, some, List, [], ◌∷◌, arith, Bool-cases, Option-cases, ◌&&◌,
}
use teilpunkt.Vfs.{FileId, uint32, FileCreationInfo, DirectoryCreationInfo}
use teilpunkt.Vfs.Directory
use teilpunkt.Vfs.Directory.{file_add, dir_add}
use teilpunkt.Vfs.Search.{find_dir, find_containing_dir}
use teilpunkt.Vfs.Search.Tree.{set_at}
use teilpunkt.Vfs.Lookup.{Holds}
use teilpunkt.Storage.{
  UserAccessControl, can_action, PermissionFlag, StorageEndpoint, file_create, dir_create,
  file_delete, dir_delete, is_valid_filename,
}
use teilpunkt.Storage.Targets.{Points, target-find_dir, target-find_containing_dir}

-- A request to the endpoint, or the creation of a file or directory at another endpoint, which draws
-- from the same counter of identifiers.
pub data Command : Type 0 where
  create_file : (actor : ℕ) (dir : FileId) (info : FileCreationInfo) → Command
  create_dir : (actor : ℕ) (dir : FileId) (info : DirectoryCreationInfo) → Command
  delete_file : (actor : ℕ) (file : FileId) → Command
  delete_dir : (actor : ℕ) (dir : FileId) → Command
  elsewhere : Command

module _ (control : UserAccessControl) (now : ℕ) where
  unfoldable pub step : Command → StorageEndpoint → StorageEndpoint
  step (create_file actor dir info) e = elim (file_create control now actor dir info e) [
    | none ↦ e
    | some (e', status, fid) ↦ e'
  ]
  step (create_dir actor dir info) e = elim (dir_create control now actor dir info e) [
    | none ↦ e
    | some (e', status) ↦ e'
  ]
  step (delete_file actor file) e = elim (file_delete control now actor file e) [
    | none ↦ e
    | some (e', status) ↦ e'
  ]
  step (delete_dir actor dir) e = elim (dir_delete control now actor dir e) [
    | none ↦ e
    | some (e', status) ↦ e'
  ]
  step elsewhere e = record e { uid = (e.uid + 1) % uint32 }

-- Requests with the times at which they come
unfoldable pub run : UserAccessControl → List (ℕ × Command) → StorageEndpoint → StorageEndpoint
unfolding step
run control [] e = e
run control ((now, command) ∷ commands) e = run control commands (step control now command e)

module _ (control : UserAccessControl) (now actor : ℕ) (e : StorageEndpoint) where
  -- A request that creates leaves the endpoint alone, or has found the directory and added to it.
  pub create_file_cases :
      (dir : FileId) (info : FileCreationInfo)
      → (step control now (create_file actor dir info) e ≡ e)
        ⊎ ((t : Points e.root (find_dir dir e.root) (λ d. d.self.fid ≡ dir)) × (fid : FileId)
            × ((file_add now e.uid info t.dir).2 ≡ some fid)
            × (step control now (create_file actor dir info) e ≡ record {
              root = set_at t.pointer (file_add now e.uid info t.dir).0 e.root;
              uid = (file_add now e.uid info t.dir).1;
            }))
  unfolding step file_create
  create_file_cases dir info =
      elim (Bool-cases
        (is_valid_filename info.name && can_action control actor dir PermissionFlag.create)) [
          | inr refused ↦ inl (ground (arith, refused))
          | inl allowed ↦ elim (target-find_dir dir e.root) [
            | inr (missing, none_left) ↦ inl (ground (arith, missing))
            | inl t ↦ elim (Option-cases ((file_add now e.uid info t.dir).2)) [
              | inl taken ↦ inl (ground (arith, t.ends, taken))
              | inr (fid, fresh) ↦ inr (t, fid, fresh, ground (arith, t.ends, fresh, allowed))
            ]
          ]
        ]

  pub create_dir_cases :
      (dir : FileId) (info : DirectoryCreationInfo)
      → (step control now (create_dir actor dir info) e ≡ e)
        ⊎ ((t : Points e.root (find_dir dir e.root) (λ d. d.self.fid ≡ dir)) × (fid : FileId)
            × ((dir_add now e.uid info t.dir).2 ≡ some fid)
            × (step control now (create_dir actor dir info) e ≡ record {
              root = set_at t.pointer (dir_add now e.uid info t.dir).0 e.root;
              uid = (dir_add now e.uid info t.dir).1;
            }))
  unfolding step dir_create
  create_dir_cases dir info =
      elim (Bool-cases
        (is_valid_filename info.name && can_action control actor dir PermissionFlag.create)) [
          | inr refused ↦ inl (ground (arith, refused))
          | inl allowed ↦ elim (target-find_dir dir e.root) [
            | inr (missing, none_left) ↦ inl (ground (arith, missing))
            | inl t ↦ elim (Option-cases ((dir_add now e.uid info t.dir).2)) [
              | inl taken ↦ inl (ground (arith, t.ends, taken))
              | inr (fid, fresh) ↦ inr (t, fid, fresh, ground (arith, t.ends, fresh, allowed))
            ]
          ]
        ]

  -- A request that deletes leaves the endpoint alone, or has found a directory that holds the file
  -- or directory, and deleted it there.
  pub delete_file_cases :
      (file : FileId)
      → (step control now (delete_file actor file) e ≡ e)
        ⊎ ((t : Points e.root (find_containing_dir file e.root) (Holds file)) × (step control now
                (delete_file actor file)
                e
              ≡ record e {
                root = set_at t.pointer (Directory.file_delete now file t.dir).0 e.root;
              }))
  unfolding step file_delete
  delete_file_cases file = elim (Bool-cases (can_action control actor file PermissionFlag.delete)) [
    | inr refused ↦ inl (ground (arith, refused))
    | inl allowed ↦ elim (target-find_containing_dir file e.root) [
      | inr (missing, no_file, no_dir) ↦ inl (ground (arith, missing))
      | inl t ↦ inr (t, ground (arith, t.ends, allowed))
    ]
  ]

  pub delete_dir_cases :
      (dir : FileId)
      → (step control now (delete_dir actor dir) e ≡ e)
        ⊎ ((t : Points e.root (find_containing_dir dir e.root) (Holds dir)) × (step control now
                (delete_dir actor dir)
                e
              ≡ record e { root = set_at t.pointer (Directory.dir_delete now dir t.dir).0 e.root }))
  unfolding step dir_delete
  delete_dir_cases dir = elim (Bool-cases (can_action control actor dir PermissionFlag.delete)) [
    | inr refused ↦ inl (ground (arith, refused))
    | inl allowed ↦ elim (target-find_containing_dir dir e.root) [
      | inr (missing, no_file, no_dir) ↦ inl (ground (arith, missing))
      | inl t ↦ inr (t, ground (arith, t.ends, allowed))
    ]
  ]
