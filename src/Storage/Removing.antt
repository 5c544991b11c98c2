-- ===== src/Storage/Removing.antt =====
-- `dirDelete` of src/storage/StorageEndpoint.cpp removes nothing but empty directories.
use mathlib.Core.Path.{subst}
use teilpunkt.Base.{
  ℕ, ◌+◌, ◌≤◌, ◌<◌, ◌≡◌, inl, inr, refl, some, List, [], ◌∷◌, arith, Bool, Bool-cases,
  if◌then◌else◌, true, false,
}
use teilpunkt.Vfs.{FileId, eq_id, VirtualFile, DirectoryData, Dirs, nil, cons, VirtualDirectory}
use teilpunkt.Vfs.Directory
use teilpunkt.Vfs.Directory.{erase_dir, is_erased, some_is_erased}
use teilpunkt.Vfs.Search.{find_containing_dir}
use teilpunkt.Vfs.Search.Tree.{set_at, total, own, whole-set_at}
use teilpunkt.Vfs.Lookup.{eq_id_iff, files_of, is_dir, file_count, dir_count, Holds}
use teilpunkt.Storage.{
  StorageStatus, UserAccessControl, can_action, PermissionFlag, StorageEndpoint, dir_delete,
}
use teilpunkt.Storage.Targets.{Points, target-find_containing_dir}
use teilpunkt.Storage.Numbering.{dir_delete-counts}

-- An erased directory has the identifier and no directories.
is_erased-eq_id :
    (fid : FileId) (d : DirectoryData) (ds : Dirs)
    → is_erased fid d ds ≡ true
    → (eq_id d.fid fid ≡ true) × (ds ≡ nil)
is_erased-eq_id fid d (cons _ _ _) h = unfold is_erased in cc
is_erased-eq_id fid d nil h = (unfold is_erased in empty d.files h, refl)
  where
    empty :
        (fs : List VirtualFile)
        → (elim fs [ [] ↦ eq_id d.fid fid | _ ∷ _ ↦ false ]) ≡ true
        → eq_id d.fid fid ≡ true
    empty [] h = h
    empty (f ∷ fs) h = cc

total-erase_dir_ne :
    (x fid : FileId) (ds : Dirs)
    → eq_id fid x ≡ false
    → total (own (is_dir x)) (erase_dir fid ds) ≡ total (own (is_dir x)) ds
unfolding total erase_dir
total-erase_dir_ne x fid nil ne = refl
total-erase_dir_ne x fid (cons d ds rest) ne = elim (Bool-cases (is_erased fid d ds)) [
  | inr kept ↦ ground (arith, kept, total-erase_dir_ne x fid rest)
  | inl erased ↦
      let (same, childless) = is_erased-eq_id fid d ds erased in
      rw erased
        (rw childless (ground (arith, same, total-erase_dir_ne x fid rest, eq_id_iff d.fid fid)))
]

total-erase_dir-lt :
    (fid : FileId) (ds : Dirs)
    → total (own (is_dir fid)) (erase_dir fid ds) + (if some_is_erased fid ds then 1 else 0)
      ≤ total (own (is_dir fid)) ds
unfolding total erase_dir some_is_erased
total-erase_dir-lt fid nil = omega arith
total-erase_dir-lt fid (cons d ds rest) = elim (Bool-cases (is_erased fid d ds)) [
  | inr kept ↦ ground (arith, kept, total-erase_dir-lt fid rest)
  | inl erased ↦
      let (same, childless) = is_erased-eq_id fid d ds erased in
      ground (arith, erased, same, total-erase_dir-lt fid rest)
]

module _ (now : ℕ) (dir : FileId) (d : VirtualDirectory) where
  dir_delete_ne :
      (x : FileId)
      → eq_id dir x ≡ false
      → dir_count x (Directory.dir_delete now dir d).0 ≡ dir_count x d
  unfolding Directory.dir_delete
  dir_delete_ne x ne = ground (arith, total-erase_dir_ne x dir d.dirs ne)

  dir_delete_done :
      (Directory.dir_delete now dir d).1 ≡ true
      → dir_count dir (Directory.dir_delete now dir d).0 < dir_count dir d
  unfolding Directory.dir_delete
  dir_delete_done done = ground (arith, total-erase_dir-lt dir d.dirs)

abbrev pub is_ok : StorageStatus → Bool
is_ok StorageStatus.ok = true
is_ok _ = false

module _ (control : UserAccessControl) (now actor : ℕ) (dir : FileId) (e : StorageEndpoint)
    (x : FileId) where
  -- What the removal may do to the numbers of files and directories that have the identifier `x`.
  abbrev Keeps : StorageEndpoint → StorageStatus → Type 0
  Keeps e' status =
      (file_count x e'.root ≡ file_count x e.root)
      × ((if eq_id dir x then 0 else dir_count x e'.root)
          ≡ (if eq_id dir x then 0 else dir_count x e.root))
      × (dir_count dir e'.root + (if is_ok status then 1 else 0) ≤ dir_count dir e.root)

  changed-Keeps :
      (t : Points e.root (find_containing_dir dir e.root) (Holds dir))
      → Keeps
          (record e { root = set_at t.pointer (Directory.dir_delete now dir t.dir).0 e.root })
          (if (Directory.dir_delete now dir t.dir).1
            then StorageStatus.ok
            else StorageStatus.err_unsuccessful)
  changed-Keeps t =
      let new = (Directory.dir_delete now dir t.dir).0 in
      let files = whole-set_at (files_of x) t.pointer new e.root t.at in
      let dirs = whole-set_at (is_dir x) t.pointer new e.root t.at in
      let others = whole-set_at (is_dir dir) t.pointer new e.root t.at in
      (
        ground (arith, files, dir_delete-counts x now e.uid t.dir dir),
        ground (arith, dirs, dir_delete_ne now dir t.dir x),
        ground (
          arith,
          others,
          dir_delete_done now dir t.dir,
          dir_delete-counts dir now e.uid t.dir dir,
        ),
      )

  -- Whatever `dirDelete` returns, every file of the tree stays, and every directory with another
  -- identifier; when it returns OK, there is at least one directory less with the identifier, and
  -- there are never more.
  pub dir_delete_lem :
      {e' : StorageEndpoint} {status : StorageStatus}
      → dir_delete control now actor dir e ≡ some (e', status)
      → (file_count x e'.root ≡ file_count x e.root)
        × ((if eq_id dir x then 0 else dir_count x e'.root)
            ≡ (if eq_id dir x then 0 else dir_count x e.root))
        × (dir_count dir e'.root + (if is_ok status then 1 else 0) ≤ dir_count dir e.root)
  unfolding dir_delete
  dir_delete_lem {e'} {status} h =
      elim (Bool-cases (can_action control actor dir PermissionFlag.delete)) [
        | inr refused ↦ ground (arith, refused)
        | inl allowed ↦ elim (target-find_containing_dir dir e.root) [
          | inr (missing, no_file, no_dir) ↦ ground (arith, allowed, missing)
          | inl t ↦
              let kept = changed-Keeps t in
              let same : (record e {
                root = set_at t.pointer (Directory.dir_delete now dir t.dir).0 e.root;
              }
                    ≡ e')
                  × ((if (Directory.dir_delete now dir t.dir).1
                        then StorageStatus.ok
                        else StorageStatus.err_unsuccessful)
                      ≡ status) =
                ground (arith, allowed, t.ends) in
              let done : StorageStatus =
                if (Directory.dir_delete now dir t.dir).1
                then StorageStatus.ok
                else StorageStatus.err_unsuccessful in
              subst (Keeps e') same.1
                (subst (λ (e'' : StorageEndpoint). Keeps e'' done) same.0 kept)
        ]
      ]
