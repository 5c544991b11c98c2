-- ===== src/Storage/Listing.antt =====
-- What a listing of a directory shows after `fileCreate` and `dirCreate` of
-- src/storage/StorageEndpoint.cpp.
use teilpunkt.Base.{
  ℕ, ◌≡◌, ◌≢◌, inl, inr, refl, ap, sym, ◌∙◌, Option, some, List, [], ◌∷◌, ◌++◌, map, All,
  eq_str_iff, Str, arith, Bool-cases, Option-cases, true, false,
}
use teilpunkt.Vfs.{
  FileId, VirtualFile, FileCreationInfo, VirtualDirectory, Dirs, nil, cons, file_name_exists,
  new_file,
}
use teilpunkt.Vfs.Directory.{
  file_add, ResponseDirectoryEntry, collect_entries, dir_entries, from_file, from_dir,
}
use teilpunkt.Vfs.Search.{Pointer, find_dir}
use teilpunkt.Vfs.Search.Tree.{get_at, set_at, get_at-set_at}
use teilpunkt.Vfs.Search.Skeleton.{find_dir-skeleton, skeleton-set_at, skeleton}
use teilpunkt.Storage.{
  StorageStatus, UserAccessControl, can_action, PermissionFlag, StorageEndpoint, target,
  file_create, dir_get_entries,
}
use teilpunkt.Storage.Targets.{target-find_dir, Points}

-- A change of a directory that keeps its identifier and its directories does not disturb `findDir`.
find_dir-set_at :
    (fid : FileId) (p : Pointer) (new root : VirtualDirectory) {old : VirtualDirectory}
    → get_at p root ≡ some old
    → skeleton new ≡ skeleton old
    → find_dir fid (set_at p new root) ≡ find_dir fid root
find_dir-set_at fid p new root {old} at same =
    sym (find_dir-skeleton fid (set_at p new root))
    ∙ ap (find_dir fid) (skeleton-set_at p new root at same)
    ∙ find_dir-skeleton fid root

map_last {ℓ κ} :
    {A : Type ℓ} {B : Type κ} (f : A → B) (xs : List A) (x : A) (ys : List B)
    → map f (xs ++ x ∷ []) ++ ys ≡ map f xs ++ f x ∷ ys
map_last f [] x ys = refl
map_last f (z ∷ xs) x ys = ap (f z ∷◌) (map_last f xs x ys)

-- No file of the directory has the name, and so no entry of one.
names-differ :
    (user_name : ℕ → Str) (name : Str) (fs : List VirtualFile)
    → file_name_exists name fs ≡ false
    → All (λ (x : ResponseDirectoryEntry). x.name ≢ name) (map (from_file user_name) fs)
unfolding file_name_exists from_file
names-differ user_name name [] h = tt
names-differ user_name name (f ∷ fs) h = (
  λ same. ground (arith, same, eq_str_iff f.info.name name),
  names-differ user_name name fs (ground arith),
)

files-are_files :
    (user_name : ℕ → Str) (fs : List VirtualFile)
    → All (λ (x : ResponseDirectoryEntry). x.is_file ≡ true) (map (from_file user_name) fs)
unfolding from_file
files-are_files user_name [] = tt
files-are_files user_name (f ∷ fs) = (refl, files-are_files user_name fs)

dirs-are_dirs :
    (user_name : ℕ → Str) (ds : Dirs)
    → All (λ (x : ResponseDirectoryEntry). x.is_file ≡ false) (dir_entries user_name ds)
unfolding dir_entries from_dir
dirs-are_dirs user_name nil = tt
dirs-are_dirs user_name (cons d inner rest) = (refl, dirs-are_dirs user_name rest)

module _ (control : UserAccessControl) (user_name : ℕ → Str) (now actor reader : ℕ) (dir : FileId)
    (e : StorageEndpoint) where
  abbrev listing : StorageEndpoint → Option (StorageStatus × Option (List ResponseDirectoryEntry))
  listing = dir_get_entries control user_name reader dir

  pub file_add-some :
      (info : FileCreationInfo) (d : VirtualDirectory) {fid : FileId}
      → (file_add now e.uid info d).2 ≡ some fid
      → (collect_entries user_name (file_add now e.uid info d).0
          ≡ map (from_file user_name) d.self.files
            ++ from_file user_name (new_file now info fid) ∷ dir_entries user_name d.dirs)
        × (skeleton (file_add now e.uid info d).0 ≡ skeleton d)
        × (file_name_exists info.name d.self.files ≡ false)
        × (fid ≡ record { uid = e.uid; endpoint = info.endpoint; directory = false })
  unfolding file_add collect_entries
  file_add-some info d {fid} h = elim (Bool-cases (file_name_exists info.name d.self.files)) [
    | inl taken ↦ absurd (ground (arith, taken))
    | inr fresh ↦
        let same : record { uid = e.uid; endpoint = info.endpoint; directory = false } ≡ fid =
          ground (arith, fresh) in
        (
          rw (← same) (
              rw fresh (
                map_last (from_file user_name) d.self.files
                  (new_file now info
                    (record { uid = e.uid; endpoint = info.endpoint; directory = false }))
                  (dir_entries user_name d.dirs))),
          ground (arith, fresh),
          fresh,
          sym same,
        )
  ]

  pub file_create-inv :
      (info : FileCreationInfo) {e' : StorageEndpoint} {fid : FileId}
      → file_create control now actor dir info e ≡ some (e', StorageStatus.ok, some fid)
      → (t : Points e.root (find_dir dir e.root) (λ d. d.self.fid ≡ dir)) × ((file_add now e.uid
            info t.dir).2
          ≡ some fid)
        × (e' ≡ record {
          root = set_at t.pointer (file_add now e.uid info t.dir).0 e.root;
          uid = (file_add now e.uid info t.dir).1;
        })
  unfolding file_create
  file_create-inv info {e'} {fid} h = elim (target-find_dir dir e.root) [
    | inr (missing, zero) ↦ absurd (ground (arith, missing))
    | inl t ↦ elim (Option-cases ((file_add now e.uid info t.dir).2)) [
      | inl none_added ↦ absurd (ground (arith, t.ends, none_added))
      | inr (fid', added) ↦ (t, ground (arith, t.ends, added), ground (arith, t.ends, added))
    ]
  ]

  listing_at :
      (e : StorageEndpoint) (p : Pointer) (d : VirtualDirectory)
      → can_action control reader dir PermissionFlag.read ≡ true
      → find_dir dir e.root ≡ some (some p)
      → get_at p e.root ≡ some d
      → listing e ≡ some (StorageStatus.ok, some (collect_entries user_name d))
  unfolding dir_get_entries target
  listing_at e p d may_read finds at = ground arith

  -- After a file has been created in a directory, a reader to whom the access control gives the
  -- directory sees what it showed before, first files and then directories, with the new file behind
  -- the files and before the directories; no file that was there before has the new one's name.
  pub dir_get_entries-file_create :
      (info : FileCreationInfo) {e' : StorageEndpoint} {fid : FileId}
      → file_create control now actor dir info e ≡ some (e', StorageStatus.ok, some fid)
      → can_action control reader dir PermissionFlag.read ≡ true
      → (old_files sub_dirs : List ResponseDirectoryEntry) × (listing e
          ≡ some (StorageStatus.ok, some (old_files ++ sub_dirs)))
        × (listing e'
            ≡ some (
              StorageStatus.ok,
              some (old_files ++ from_file user_name (new_file now info fid) ∷ sub_dirs),
            ))
        × All (λ (x : ResponseDirectoryEntry). x.is_file ≡ true) old_files
        × All (λ (x : ResponseDirectoryEntry). x.is_file ≡ false) sub_dirs
        × All (λ (x : ResponseDirectoryEntry). x.name ≢ info.name) old_files
  unfolding collect_entries
  dir_get_entries-file_create info {e'} {fid} h may_read =
      let (t, added, after) = file_create-inv info h in
      let (shown, same, fresh, id) = file_add-some info t.dir added in
      let again =
        find_dir-set_at dir t.pointer (file_add now e.uid info t.dir).0 e.root t.at same in
      (
        map (from_file user_name) t.dir.self.files,
        dir_entries user_name t.dir.dirs,
        listing_at e t.pointer t.dir may_read t.finds t.at,
        listing_at e' t.pointer (file_add now e.uid info t.dir).0 may_read
              (ap (λ (x : StorageEndpoint). find_dir dir x.root) after ∙ again ∙ t.finds)
              (ap (λ (x : StorageEndpoint). get_at t.pointer x.root) after
                ∙ get_at-set_at t.pointer (file_add now e.uid info t.dir).0 e.root t.at)
            ∙ rw shown refl,
        files-are_files user_name t.dir.self.files,
        dirs-are_dirs user_name t.dir.dirs,
        names-differ user_name info.name t.dir.self.files fresh,
      )
