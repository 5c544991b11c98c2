-- ===== src/Storage/Deleting.antt =====
-- What is deleted by `fileDelete` and `dirDelete` of src/storage/StorageEndpoint.cpp, and what is kept.
use teilpunkt.Base.{
  ℕ, zero, suc, ◌≤◌, ◌<◌, ◌≡◌, inl, inr, none, some, [], ◌∷◌, Str, arith, Option-cases,
  if◌then◌else◌, true,
}
use teilpunkt.Vfs.{FileId, eq_id, DirectoryData, Dirs, nil, cons, VirtualDirectory}
use teilpunkt.Vfs.Directory
use teilpunkt.Vfs.Directory.{erase_dir, is_erased, some_is_erased}
use teilpunkt.Vfs.Search.{Pointer}
use teilpunkt.Vfs.Search.Tree.{get_at, set_at, total, whole, own, whole-set_at, nth_dir}
use teilpunkt.Vfs.Lookup.{
  eq_id_iff, files_with, files_of, is_dir, file_count, dir_count, children_with, find_file-none_iff,
  find_file_in_lem,
}
use teilpunkt.Storage.{
  StorageStatus, UserAccessControl, can_action, PermissionFlag, StorageEndpoint, file_delete,
  info_file,
}
use teilpunkt.Storage.Targets.{target-find_containing_dir}
use teilpunkt.Storage.Numbering.{file_delete-counts}
use teilpunkt.Storage.Numbering.Invariant.{IsNumbered}

module _ (g : DirectoryData → ℕ) where
  total-nth_dir-le :
      (ds : Dirs) (i : ℕ) {d : VirtualDirectory}
      → nth_dir ds i ≡ some d
      → whole (own g) d ≤ total (own g) ds
  unfolding nth_dir total
  total-nth_dir-le nil i h = cc
  total-nth_dir-le (cons d ds rest) zero h = ground arith
  total-nth_dir-le (cons d ds rest) (suc i) {d = d'} h =
      omega (arith, total-nth_dir-le rest i {d = d'} h)

  -- A directory of the tree has no more than the tree.
  whole-get_at-le :
      (p : Pointer) (root : VirtualDirectory) {d : VirtualDirectory}
      → get_at p root ≡ some d
      → whole (own g) d ≤ whole (own g) root
  unfolding get_at
  whole-get_at-le [] root h = ground arith
  whole-get_at-le (i ∷ p) root {d} h = elim (Option-cases (nth_dir root.dirs i)) [
    | inl e ↦ absurd (ground (arith, e))
    | inr (c, e) ↦
        ground (arith, e, total-nth_dir-le root.dirs i {d = c}, whole-get_at-le p c {d = d})
  ]

children_with-le : (x : FileId) (ds : Dirs) → children_with x ds ≤ total (own (is_dir x)) ds
unfolding children_with total
children_with-le x nil = omega arith
children_with-le x (cons d ds rest) = omega (arith, children_with-le x rest)

-- A file that is nowhere in the tree is not found.
info_file-missing :
    (control : UserAccessControl) (user_name : ℕ → Str) (reader : ℕ) (file : FileId)
    (e : StorageEndpoint)
    → can_action control reader file PermissionFlag.read ≡ true
    → file_count file e.root ≡ 0
    → info_file control user_name reader file e ≡ some (StorageStatus.err_no_such_file, none)
unfolding info_file
info_file-missing control user_name reader file e may_read missing =
    elim (find_file_in_lem file e.root) [
      | inr (ends, _) ↦ ground (arith, ends)
      | inl (f, ends, p, found) ↦
          let most = whole-get_at-le (files_of file) p e.root found.at in
          absurd (ground (arith, most, find_file-none_iff file found.dir.self.files, found.holds))
    ]

module _ (control : UserAccessControl) (user_name : ℕ → Str) (now actor reader : ℕ) (file : FileId)
    (e : StorageEndpoint) where
  file_delete-found :
      (p : Pointer) (d : VirtualDirectory)
      → get_at p e.root ≡ some d
      → files_with file d.self.files ≡ 1
      → file_count file e.root ≡ 1
      → (x : FileId)
      → (file_count x (set_at p (Directory.file_delete now file d).0 e.root)
          ≡ (if eq_id file x then 0 else file_count x e.root))
        × (dir_count x (set_at p (Directory.file_delete now file d).0 e.root) ≡ dir_count x e.root)
  file_delete-found p d at here once x =
      let counts = file_delete-counts x now e.uid d file in
      let new = (Directory.file_delete now file d).0 in
      ground (
        arith,
        counts,
        whole-set_at (files_of x) p new e.root at,
        whole-set_at (is_dir x) p new e.root at,
        eq_id_iff file x,
      )

  file_delete_done :
      (d : VirtualDirectory)
      → files_with file d.self.files ≡ 1
      → (Directory.file_delete now file d).1 ≡ true
  unfolding Directory.file_delete
  file_delete_done d here = ground (arith, find_file-none_iff file d.self.files)

  -- In a tree without double identifiers, a file that is there is deleted by a user who may: the
  -- request returns OK, from then on a reader is told that there is no such file, and the numbers of
  -- all other files and of all directories stay.
  pub file_delete-info_file :
      IsNumbered e
      → 0 < file_count file e.root
      → can_action control actor file PermissionFlag.delete ≡ true
      → can_action control reader file PermissionFlag.read ≡ true
      → (e' : StorageEndpoint) × (file_delete control now actor file e
          ≡ some (e', StorageStatus.ok))
        × (info_file control user_name reader file e' ≡ some (StorageStatus.err_no_such_file, none))
        × ((x : FileId)
            → (file_count x e'.root ≡ (if eq_id file x then 0 else file_count x e.root))
              × (dir_count x e'.root ≡ dir_count x e.root))
  unfolding file_delete
  file_delete-info_file n there may_delete may_read =
      elim (target-find_containing_dir file e.root) [
        | inr (missing, no_file, no_dir) ↦ absurd (omega arith)
        | inl t ↦
            let most = whole-get_at-le (files_of file) t.pointer e.root t.at in
            let dirs = whole-get_at-le (is_dir file) t.pointer e.root t.at in
            let here : files_with file t.dir.self.files ≡ 1 = ground (
              arith,
              most,
              dirs,
              children_with-le file t.dir.dirs,
              t.holds,
              n.files_once file,
              n.files_marked file,
              n.dirs_marked file,
            ) in
            let once : file_count file e.root ≡ 1 = ground (arith, n.files_once file) in
            let e' = record e {
              root = set_at t.pointer (Directory.file_delete now file t.dir).0 e.root;
            } in
            let counts = file_delete-found t.pointer t.dir t.at here once in
            (
              e',
              ground (arith, t.ends, may_delete, file_delete_done t.dir here),
              info_file-missing control user_name reader file e' may_read
                  (ground (arith, counts file, eq_id_iff file file)),
              counts,
            )
      ]
