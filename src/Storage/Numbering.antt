-- ===== src/Storage/Numbering.antt =====
-- The identifiers in the tree of a storage endpoint, src/storage/StorageEndpoint.cpp: what the
-- operations change of the numbers of files and directories that have one.
pub mod Invariant
use teilpunkt.Base.{
  ℕ, zero, suc, ◌+◌, ◌%◌, ◌≤◌, ◌<◌, ◌≡◌, ◌≢◌, ◌⊎◌, inl, inr, refl, ap, sym, ◌∙◌, Option, none, some,
  List, [], ◌∷◌, ◌++◌, Str, arith, Bool, Bool-cases, Option-cases, if◌then◌else◌, true, false, not,
}
use teilpunkt.Vfs.{
  FileId, eq_id, uint32, VirtualFile, DirectoryData, Dirs, nil, cons, FileCreationInfo,
  DirectoryCreationInfo, VirtualDirectory, append_dir, new_directory, new_file,
}
use teilpunkt.Vfs.Directory
use teilpunkt.Vfs.Directory.{file_add, dir_add, erase_file, erase_dir, is_erased, some_is_erased}
use teilpunkt.Vfs.Search.{Pointer, find_dir, find_containing_dir}
use teilpunkt.Vfs.Search.Tree.{get_at, set_at, total, whole, own, whole-set_at}
use teilpunkt.Vfs.Lookup.{
  find_file-none_iff, eq_id_iff, files_with, files_with-append, files_of, is_dir, file_count,
  dir_count,
}
use teilpunkt.Storage.{
  StorageStatus, UserAccessControl, can_action, PermissionFlag, StorageEndpoint, file_create,
  dir_create, file_delete, dir_delete,
}

abbrev pub is_id : FileId → FileId → ℕ
is_id x fid = if eq_id fid x then 1 else 0

pub files_with-erase_file :
    (x fid : FileId) (fs : List VirtualFile)
    → files_with x (erase_file fid fs) ≡ (if eq_id fid x then 0 else files_with x fs)
unfolding files_with erase_file
files_with-erase_file x fid [] = ground arith
files_with-erase_file x fid (f ∷ fs) =
    ground (
      arith,
      files_with-erase_file x fid fs,
      eq_id_iff f.fid fid,
      eq_id_iff f.fid x,
      eq_id_iff fid x,
    )

module _ (g : DirectoryData → ℕ) where
  total-append_dir :
      (ds : Dirs) (new : DirectoryData)
      → total (own g) (append_dir ds new) ≡ total (own g) ds + g new
  unfolding total append_dir
  total-append_dir nil new = omega arith
  total-append_dir (cons d ds rest) new = omega (arith, total-append_dir rest new)

files_with-empty :
    (x fid fid' : FileId) (fs : List VirtualFile)
    → (elim fs [ [] ↦ eq_id fid' fid | _ ∷ _ ↦ false ]) ≡ true
    → files_with x fs ≡ 0
unfolding files_with
files_with-empty x fid fid' [] h = refl
files_with-empty x fid fid' (f ∷ fs) h = cc

-- An erased directory has no files.
is_erased-IsEmpty :
    (x fid : FileId) (d : DirectoryData) (ds : Dirs)
    → is_erased fid d ds ≡ true
    → files_of x d + total (own (files_of x)) ds ≡ 0
unfolding is_erased total
is_erased-IsEmpty x fid d nil h = omega (arith, files_with-empty x fid d.fid d.files h)
is_erased-IsEmpty x fid d (cons _ _ _) h = cc

total-erase_dir :
    (x fid : FileId) (ds : Dirs)
    → total (own (files_of x)) (erase_dir fid ds) ≡ total (own (files_of x)) ds
unfolding total erase_dir
total-erase_dir x fid nil = refl
total-erase_dir x fid (cons d ds rest) =
    ground (arith, total-erase_dir x fid rest, is_erased-IsEmpty x fid d ds)

total-erase_dir-le :
    (x fid : FileId) (ds : Dirs)
    → total (own (is_dir x)) (erase_dir fid ds) ≤ total (own (is_dir x)) ds
unfolding total erase_dir
total-erase_dir-le x fid nil = omega arith
total-erase_dir-le x fid (cons d ds rest) = ground (arith, total-erase_dir-le x fid rest)

module _ (x : FileId) (now uid : ℕ) (d : VirtualDirectory) where
  pub file_add-counts :
      (info : FileCreationInfo) {fid : FileId}
      → (file_add now uid info d).2 ≡ some fid
      → (file_count x (file_add now uid info d).0 ≡ file_count x d + is_id x fid)
        × (dir_count x (file_add now uid info d).0 ≡ dir_count x d)
        × (fid ≡ record { uid = uid; endpoint = info.endpoint; directory = false })
        × ((file_add now uid info d).1 ≡ (uid + 1) % uint32)
  unfolding file_add
  file_add-counts info h = ground (
    arith,
    files_with-append x d.self.files
        (new_file now info (record { uid = uid; endpoint = info.endpoint; directory = false })),
  )

  pub dir_add-counts :
      (info : DirectoryCreationInfo) {fid : FileId}
      → (dir_add now uid info d).2 ≡ some fid
      → (file_count x (dir_add now uid info d).0 ≡ file_count x d)
        × (dir_count x (dir_add now uid info d).0 ≡ dir_count x d + is_id x fid)
        × (fid ≡ record { uid = uid; endpoint = info.parent.endpoint; directory = true })
        × ((dir_add now uid info d).1 ≡ (uid + 1) % uint32)
  unfolding dir_add files_with
  dir_add-counts info h =
      let new =
        new_directory now info
          (record { uid = uid; endpoint = info.parent.endpoint; directory = true }) in
      ground
        (arith, total-append_dir (files_of x) d.dirs new, total-append_dir (is_dir x) d.dirs new)

  pub file_delete-counts :
      (fid : FileId)
      → (dir_count x (Directory.file_delete now fid d).0 ≡ dir_count x d)
        × (file_count x (Directory.file_delete now fid d).0
              + (if eq_id fid x then files_with x d.self.files else 0)
            ≡ file_count x d)
  unfolding Directory.file_delete
  file_delete-counts fid = ground (
    arith,
    files_with-erase_file x fid d.self.files,
    find_file-none_iff fid d.self.files,
    eq_id_iff fid x,
  )

  pub dir_delete-counts :
      (fid : FileId)
      → (file_count x (Directory.dir_delete now fid d).0 ≡ file_count x d)
        × (dir_count x (Directory.dir_delete now fid d).0 ≤ dir_count x d)
  unfolding Directory.dir_delete
  dir_delete-counts fid =
      ground (arith, total-erase_dir x fid d.dirs, total-erase_dir-le x fid d.dirs)
