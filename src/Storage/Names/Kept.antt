-- ===== src/Storage/Names/Kept.antt =====
-- The requests of src/storage/StorageEndpoint.cpp keep the names of a directory unique.
use mathlib.Core.Path.{subst}
use mathlib.Core.List.{map-append}
use mathlib.Core.Option.{some-injective}
use teilpunkt.Base.{
  ℕ, zero, suc, ◌≡◌, inl, inr, refl, ap, some, List, [], ◌∷◌, ◌++◌, arith, Bool-cases, Option-cases,
  true, false,
}
use teilpunkt.Vfs.{
  FileId, VirtualFile, DirectoryData, Dirs, nil, cons, VirtualDirectory, FileCreationInfo,
  DirectoryCreationInfo, file_name_exists, dir_name_exists, append_dir, new_directory, new_file,
  find_file,
}
use teilpunkt.Vfs.Directory
use teilpunkt.Vfs.Directory.{file_add, dir_add, erase_file, erase_dir, some_is_erased}
use teilpunkt.Vfs.Search.{Pointer}
use teilpunkt.Vfs.Search.Tree.{nth_dir, set_dir, get_at, set_at}
use teilpunkt.Storage.{UserAccessControl, StorageEndpoint}
use teilpunkt.Storage.Commands.{
  Command, create_file, create_dir, delete_file, delete_dir, elsewhere, step, run,
  create_file_cases, create_dir_cases, delete_file_cases, delete_dir_cases,
}
use teilpunkt.Storage.Names.{
  IsUnique, file_names, dir_names, AllHaveOwnNames, HasUniqueNames, IsUnique-append,
  file_names-differ, dir_names-differ, IsUnique-erase_file, IsUnique-erase_dir,
  AllHaveOwnNames-erase_dir,
}

nth_dir-HasUniqueNames :
    (ds : Dirs) (i : ℕ) {d : VirtualDirectory}
    → AllHaveOwnNames ds
    → nth_dir ds i ≡ some d
    → HasUniqueNames d
unfolding nth_dir
nth_dir-HasUniqueNames nil i u h = cc
nth_dir-HasUniqueNames (cons d ds rest) zero (own_names, below, u) h =
    subst HasUniqueNames (some-injective _ _ h) (own_names, below)
nth_dir-HasUniqueNames (cons d ds rest) (suc i) (own_names, below, u) h =
    nth_dir-HasUniqueNames rest i u h

get_at-HasUniqueNames :
    (p : Pointer) (root : VirtualDirectory) {d : VirtualDirectory}
    → HasUniqueNames root
    → get_at p root ≡ some d
    → HasUniqueNames d
unfolding get_at
get_at-HasUniqueNames [] root u h = subst HasUniqueNames (some-injective _ _ h) u
get_at-HasUniqueNames (i ∷ p) root {d} u h = elim (Option-cases (nth_dir root.dirs i)) [
  | inl e ↦ absurd (ground (arith, e))
  | inr (c, e) ↦
      get_at-HasUniqueNames p c {d = d} (nth_dir-HasUniqueNames root.dirs i u.1 e)
        (ground (arith, e))
]

dir_names-set_dir :
    (ds : Dirs) (i : ℕ) (new : VirtualDirectory) {old : VirtualDirectory}
    → nth_dir ds i ≡ some old
    → new.self.info.name ≡ old.self.info.name
    → dir_names (set_dir ds i new) ≡ dir_names ds
unfolding nth_dir set_dir
dir_names-set_dir nil i new h same = refl
dir_names-set_dir (cons d ds rest) zero new h same = ground arith
dir_names-set_dir (cons d ds rest) (suc i) new h same =
    ap (d.info.name ∷◌) (dir_names-set_dir rest i new h same)

AllHaveOwnNames-set_dir :
    (ds : Dirs) (i : ℕ) (new : VirtualDirectory)
    → AllHaveOwnNames ds
    → HasUniqueNames new
    → AllHaveOwnNames (set_dir ds i new)
unfolding set_dir
AllHaveOwnNames-set_dir nil i new u v = tt
AllHaveOwnNames-set_dir (cons d ds rest) zero new (own_names, below, u) v = (v.0, v.1, u)
AllHaveOwnNames-set_dir (cons d ds rest) (suc i) new (own_names, below, u) v =
    (own_names, below, AllHaveOwnNames-set_dir rest i new u v)

name-set_at :
    (p : Pointer) (new root : VirtualDirectory) {old : VirtualDirectory}
    → get_at p root ≡ some old
    → new.self.info.name ≡ old.self.info.name
    → (set_at p new root).self.info.name ≡ root.self.info.name
unfolding get_at set_at
name-set_at [] new root h same = ground arith
name-set_at (i ∷ p) new root h same = ground arith

-- A change that keeps the directory's own name, and whose outcome has unique names
set_at-HasUniqueNames :
    (p : Pointer) (new root : VirtualDirectory) {old : VirtualDirectory}
    → get_at p root ≡ some old
    → new.self.info.name ≡ old.self.info.name
    → HasUniqueNames new
    → HasUniqueNames root
    → HasUniqueNames (set_at p new root)
unfolding get_at set_at
set_at-HasUniqueNames [] new root h same v u = v
set_at-HasUniqueNames (i ∷ p) new root {old} h same v u =
    elim (Option-cases (nth_dir root.dirs i)) [
      | inl e ↦ rw (e, set_at) u
      | inr (c, e) ↦
          let h' : get_at p c ≡ some old = ground (arith, e) in
          let below =
            set_at-HasUniqueNames p new c {old = old} h' same v
              (nth_dir-HasUniqueNames root.dirs i u.1 e) in
          let names =
            dir_names-set_dir root.dirs i (set_at p new c) e (name-set_at p new c h' same) in
          rw (e, set_at)
            (
              (u.0.0, rw names u.0.1),
              AllHaveOwnNames-set_dir root.dirs i (set_at p new c) u.1 below,
            )
    ]

IsUnique-add :
    (fs : List VirtualFile) (new : VirtualFile)
    → file_name_exists new.info.name fs ≡ false
    → IsUnique (file_names fs)
    → IsUnique (file_names (fs ++ new ∷ []))
IsUnique-add fs new fresh u =
    rw (map-append (λ (f : VirtualFile). f.info.name) fs (new ∷ []))
      (IsUnique-append (file_names fs) new.info.name u (file_names-differ new.info.name fs fresh))

dir_names-append_dir :
    (ds : Dirs) (new : DirectoryData)
    → dir_names (append_dir ds new) ≡ dir_names ds ++ new.info.name ∷ []
unfolding append_dir
dir_names-append_dir nil new = refl
dir_names-append_dir (cons d ds rest) new = ap (d.info.name ∷◌) (dir_names-append_dir rest new)

AllHaveOwnNames-append_dir :
    (ds : Dirs) (new : DirectoryData)
    → new.files ≡ []
    → AllHaveOwnNames ds
    → AllHaveOwnNames (append_dir ds new)
unfolding append_dir
AllHaveOwnNames-append_dir nil new empty u = ((rw empty tt, tt), tt, tt)
AllHaveOwnNames-append_dir (cons d ds rest) new empty (own_names, below, u) =
    (own_names, below, AllHaveOwnNames-append_dir rest new empty u)

-- A directory after an operation on it: its own name is kept, and the names in it are unique.
record KeepsNames (d d' : VirtualDirectory) : Type 0 where
  name : d'.self.info.name ≡ d.self.info.name
  names : HasUniqueNames d'

module _ (now uid : ℕ) (d : VirtualDirectory) (u : HasUniqueNames d) where
  file_add-KeepsNames : (info : FileCreationInfo) → KeepsNames d (file_add now uid info d).0
  unfolding file_add
  file_add-KeepsNames info = elim (Bool-cases (file_name_exists info.name d.self.files)) [
    | inl taken ↦ rw taken (record { name = refl; names = u })
    | inr fresh ↦
        let new =
          new_file now info (record { uid = uid; endpoint = info.endpoint; directory = false }) in
        rw fresh (record {
          name = refl;
          names = ((IsUnique-add d.self.files new fresh u.0.0, u.0.1), u.1);
        })
  ]

  dir_add-KeepsNames : (info : DirectoryCreationInfo) → KeepsNames d (dir_add now uid info d).0
  unfolding dir_add
  dir_add-KeepsNames info = elim (Bool-cases (dir_name_exists info.name d.dirs)) [
    | inl taken ↦ rw taken (record { name = refl; names = u })
    | inr fresh ↦
        let new =
          new_directory now info
            (record { uid = uid; endpoint = info.parent.endpoint; directory = true }) in
        rw fresh (record {
          name = refl;
          names = (
            (
              u.0.0,
              rw (dir_names-append_dir d.dirs new) (
                  IsUnique-append (dir_names d.dirs) info.name u.0.1
                    (dir_names-differ info.name d.dirs fresh)),
            ),
            AllHaveOwnNames-append_dir d.dirs new refl u.1,
          );
        })
  ]

  file_delete-KeepsNames : (file : FileId) → KeepsNames d (Directory.file_delete now file d).0
  unfolding Directory.file_delete
  file_delete-KeepsNames file = elim (Option-cases (find_file file d.self.files)) [
    | inl missing ↦ rw (missing, Directory.file_delete) (record { name = refl; names = u })
    | inr (f, e) ↦
        rw (e, Directory.file_delete)
          (record {
            name = refl;
            names = ((IsUnique-erase_file file d.self.files u.0.0, u.0.1), u.1);
          })
  ]

  dir_delete-KeepsNames : (dir : FileId) → KeepsNames d (Directory.dir_delete now dir d).0
  unfolding Directory.dir_delete
  dir_delete-KeepsNames dir = elim (Bool-cases dir.directory) [
    | inr no_dir ↦ simp no_dir (record { name = refl; names = u })
    | inl is_dir ↦ elim (Bool-cases (some_is_erased dir d.dirs)) [
      | inl erased ↦ rw erased (
          simp is_dir (record {
            name = refl;
            names = (
              (u.0.0, IsUnique-erase_dir dir d.dirs u.0.1),
              AllHaveOwnNames-erase_dir dir d.dirs u.1,
            );
          }))
      | inr kept ↦ rw kept (simp is_dir (record { name = refl; names = u }))
    ]
  ]

step-HasUniqueNames :
    (control : UserAccessControl) (now : ℕ) (command : Command) (e : StorageEndpoint)
    → HasUniqueNames e.root
    → HasUniqueNames (step control now command e).root
step-HasUniqueNames control now (create_file actor dir info) e u =
    elim (create_file_cases control now actor e dir info) [
      | inl same ↦ rw same u
      | inr (t, fid, fresh, after) ↦
          let kept =
            file_add-KeepsNames now e.uid t.dir (get_at-HasUniqueNames t.pointer e.root u t.at)
              info in
          rw after (
            set_at-HasUniqueNames t.pointer (file_add now e.uid info t.dir).0 e.root t.at kept.name
              kept.names u)
    ]
step-HasUniqueNames control now (create_dir actor dir info) e u =
    elim (create_dir_cases control now actor e dir info) [
      | inl same ↦ rw same u
      | inr (t, fid, fresh, after) ↦
          let kept =
            dir_add-KeepsNames now e.uid t.dir (get_at-HasUniqueNames t.pointer e.root u t.at)
              info in
          rw after (
            set_at-HasUniqueNames t.pointer (dir_add now e.uid info t.dir).0 e.root t.at kept.name
              kept.names u)
    ]
step-HasUniqueNames control now (delete_file actor file) e u =
    elim (delete_file_cases control now actor e file) [
      | inl same ↦ rw same u
      | inr (t, after) ↦
          let kept =
            file_delete-KeepsNames now e.uid t.dir (get_at-HasUniqueNames t.pointer e.root u t.at)
              file in
          rw after (
            set_at-HasUniqueNames t.pointer (Directory.file_delete now file t.dir).0 e.root t.at
              kept.name kept.names u)
    ]
step-HasUniqueNames control now (delete_dir actor dir) e u =
    elim (delete_dir_cases control now actor e dir) [
      | inl same ↦ rw same u
      | inr (t, after) ↦
          let kept =
            dir_delete-KeepsNames now e.uid t.dir (get_at-HasUniqueNames t.pointer e.root u t.at)
              dir in
          rw after (
            set_at-HasUniqueNames t.pointer (Directory.dir_delete now dir t.dir).0 e.root t.at
              kept.name kept.names u)
    ]
step-HasUniqueNames control now elsewhere e u = unfold step in u

-- After any requests, no two files of a directory have the same name, and no two directories of a
-- directory, in the root and everywhere below it.
pub run-HasUniqueNames :
    (control : UserAccessControl) (commands : List (ℕ × Command)) (e : StorageEndpoint)
    → HasUniqueNames e.root
    → HasUniqueNames (run control commands e).root
unfolding run
run-HasUniqueNames control [] e u = u
run-HasUniqueNames control ((now, command) ∷ commands) e u =
    run-HasUniqueNames control commands (step control now command e)
      (step-HasUniqueNames control now command e u)
