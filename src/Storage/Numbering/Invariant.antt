-- ===== src/Storage/Numbering/Invariant.antt =====
-- The identifiers in the tree of a storage endpoint, src/storage/StorageEndpoint.cpp, in a run.
use teilpunkt.Base.{
  ℕ, ◌+◌, ◌%◌, ◌≤◌, ◌<◌, ◌≡◌, inl, inr, refl, ap, some, List, [], ◌∷◌, Str, arith, if◌then◌else◌,
  true, false, length,
}
use teilpunkt.Vfs.{FileId, uint32, FileCreationInfo, DirectoryCreationInfo, VirtualDirectory}
use teilpunkt.Vfs.Directory
use teilpunkt.Vfs.Directory.{file_add, dir_add}
use teilpunkt.Vfs.Search.{Pointer}
use teilpunkt.Vfs.Search.Tree.{get_at, set_at, total, whole-set_at}
use teilpunkt.Vfs.Lookup.{eq_id_iff, files_with, files_of, is_dir, file_count, dir_count}
use teilpunkt.Storage.{UserAccessControl, StorageEndpoint, new_endpoint}
use teilpunkt.Storage.Numbering.{
  is_id, file_add-counts, dir_add-counts, file_delete-counts, dir_delete-counts,
}
use teilpunkt.Storage.Commands.{
  Command, create_file, create_dir, delete_file, delete_dir, elsewhere, step, run,
  create_file_cases, create_dir_cases, delete_file_cases, delete_dir_cases,
}

-- What a request does to the numbers of files and directories that have an identifier.
pub data Effect (e e' : StorageEndpoint) : Type 0 where
  removes :
      (e'.uid ≡ e.uid)
      → ((x : FileId)
          → (file_count x e'.root ≤ file_count x e.root)
            × (dir_count x e'.root ≤ dir_count x e.root))
      → Effect e e'
  creates :
      (fid : FileId)
      → fid.uid ≡ e.uid
      → e'.uid ≡ (e.uid + 1) % uint32
      → ((x : FileId)
          → (file_count x e'.root
              ≡ file_count x e.root + (if fid.directory then 0 else is_id x fid))
            × (dir_count x e'.root
                ≡ dir_count x e.root + (if fid.directory then is_id x fid else 0)))
      → Effect e e'
  draws : e'.root ≡ e.root → e'.uid ≡ (e.uid + 1) % uint32 → Effect e e'

Effect-refl : (e : StorageEndpoint) → Effect e e
Effect-refl e = removes refl (λ x. (omega arith, omega arith))

module _ (control : UserAccessControl) (now actor : ℕ) (e : StorageEndpoint) where
  added-Effect :
      (p : Pointer) (d d' : VirtualDirectory) (uid' : ℕ) (fid : FileId)
      → get_at p e.root ≡ some d
      → fid.uid ≡ e.uid
      → uid' ≡ (e.uid + 1) % uint32
      → ((x : FileId)
          → (file_count x d' ≡ file_count x d + (if fid.directory then 0 else is_id x fid))
            × (dir_count x d' ≡ dir_count x d + (if fid.directory then is_id x fid else 0)))
      → Effect e (record { root = set_at p d' e.root; uid = uid' })
  added-Effect p d d' uid' fid at drawn next counts = creates fid drawn next λ x. (
    omega (arith, whole-set_at (files_of x) p d' e.root at, (counts x).0),
    omega (arith, whole-set_at (is_dir x) p d' e.root at, (counts x).1),
  )

  deleted-Effect :
      (p : Pointer) (d d' : VirtualDirectory)
      → get_at p e.root ≡ some d
      → ((x : FileId) → (file_count x d' ≤ file_count x d) × (dir_count x d' ≤ dir_count x d))
      → Effect e (record e { root = set_at p d' e.root })
  deleted-Effect p d d' at counts = removes refl λ x. (
    omega (arith, whole-set_at (files_of x) p d' e.root at, (counts x).0),
    omega (arith, whole-set_at (is_dir x) p d' e.root at, (counts x).1),
  )

  create_file-Effect :
      (dir : FileId) (info : FileCreationInfo)
      → Effect e (step control now (create_file actor dir info) e)
  create_file-Effect dir info = elim (create_file_cases control now actor e dir info) [
    | inl same ↦ rw same (Effect-refl e)
    | inr (t, fid, fresh, after) ↦
        let counts = λ (x : FileId). file_add-counts x now e.uid t.dir info fresh in
        let id = (counts fid).2 in
        rw after (
          added-Effect t.pointer t.dir (file_add now e.uid info t.dir).0
            (file_add now e.uid info t.dir).1 fid t.at (ap (λ (x : FileId). x.uid) id)
            (counts fid).3 (λ x. ground (arith, counts x)))
  ]

  create_dir-Effect :
      (dir : FileId) (info : DirectoryCreationInfo)
      → Effect e (step control now (create_dir actor dir info) e)
  create_dir-Effect dir info = elim (create_dir_cases control now actor e dir info) [
    | inl same ↦ rw same (Effect-refl e)
    | inr (t, fid, fresh, after) ↦
        let counts = λ (x : FileId). dir_add-counts x now e.uid t.dir info fresh in
        let id = (counts fid).2 in
        rw after (
          added-Effect t.pointer t.dir (dir_add now e.uid info t.dir).0
            (dir_add now e.uid info t.dir).1 fid t.at (ap (λ (x : FileId). x.uid) id) (counts fid).3
            (λ x. ground (arith, counts x)))
  ]

  delete_file-Effect : (file : FileId) → Effect e (step control now (delete_file actor file) e)
  delete_file-Effect file = elim (delete_file_cases control now actor e file) [
    | inl same ↦ rw same (Effect-refl e)
    | inr (t, after) ↦ rw after (
        deleted-Effect t.pointer t.dir (Directory.file_delete now file t.dir).0 t.at
          (λ x. omega (arith, file_delete-counts x now e.uid t.dir file)))
  ]

  delete_dir-Effect : (dir : FileId) → Effect e (step control now (delete_dir actor dir) e)
  delete_dir-Effect dir = elim (delete_dir_cases control now actor e dir) [
    | inl same ↦ rw same (Effect-refl e)
    | inr (t, after) ↦ rw after (
        deleted-Effect t.pointer t.dir (Directory.dir_delete now dir t.dir).0 t.at
          (λ x. omega (arith, dir_delete-counts x now e.uid t.dir dir)))
  ]

step-Effect :
    (control : UserAccessControl) (now : ℕ) (command : Command) (e : StorageEndpoint)
    → Effect e (step control now command e)
step-Effect control now (create_file actor dir info) e =
    create_file-Effect control now actor e dir info
step-Effect control now (create_dir actor dir info) e =
    create_dir-Effect control now actor e dir info
step-Effect control now (delete_file actor file) e = delete_file-Effect control now actor e file
step-Effect control now (delete_dir actor dir) e = delete_dir-Effect control now actor e dir
step-Effect control now elsewhere e = unfold step in draws refl refl

-- No identifier is used twice, for a file or for a directory; none is used that is not drawn yet;
-- and an identifier says which of the two it is for.
pub record IsNumbered (e : StorageEndpoint) : Type 0 where
  pub files_once : (x : FileId) → file_count x e.root ≤ 1
  pub dirs_once : (x : FileId) → dir_count x e.root ≤ 1
  pub files_drawn : (x : FileId) → e.uid ≤ x.uid → file_count x e.root ≡ 0
  pub dirs_drawn : (x : FileId) → e.uid ≤ x.uid → dir_count x e.root ≡ 0
  pub files_marked : (x : FileId) → x.directory ≡ true → file_count x e.root ≡ 0
  pub dirs_marked : (x : FileId) → x.directory ≡ false → dir_count x e.root ≡ 0

Effect-IsNumbered :
    {e e' : StorageEndpoint}
    → Effect e e'
    → e.uid + 1 < uint32
    → IsNumbered e
    → (e'.uid ≤ e.uid + 1) × IsNumbered e'
Effect-IsNumbered {e} {e'} (removes same counts) bound n = (
  omega arith,
  record {
    files_once = λ x. omega (arith, n.files_once x, counts x);
    dirs_once = λ x. omega (arith, n.dirs_once x, counts x);
    files_drawn = λ x h. omega (arith, n.files_drawn x (omega arith), counts x);
    dirs_drawn = λ x h. omega (arith, n.dirs_drawn x (omega arith), counts x);
    files_marked = λ x h. omega (arith, n.files_marked x h, counts x);
    dirs_marked = λ x h. omega (arith, n.dirs_marked x h, counts x);
  },
)
Effect-IsNumbered {e} {e'} (creates fid drawn next counts) bound n = (
  omega arith,
  record {
    files_once = λ x. ground (arith, n.files_once x, n.files_drawn x, counts x, eq_id_iff fid x);
    dirs_once = λ x. ground (arith, n.dirs_once x, n.dirs_drawn x, counts x, eq_id_iff fid x);
    files_drawn = λ x h. ground (arith, n.files_drawn x, counts x, eq_id_iff fid x);
    dirs_drawn = λ x h. ground (arith, n.dirs_drawn x, counts x, eq_id_iff fid x);
    files_marked = λ x h. ground (arith, n.files_marked x, counts x, eq_id_iff fid x);
    dirs_marked = λ x h. ground (arith, n.dirs_marked x, counts x, eq_id_iff fid x);
  },
)
Effect-IsNumbered {e} {e'} (draws same next) bound n = (
  omega arith,
  record {
    files_once = λ x. rw same (n.files_once x);
    dirs_once = λ x. rw same (n.dirs_once x);
    files_drawn = λ x h. rw same (n.files_drawn x (omega arith));
    dirs_drawn = λ x h. rw same (n.dirs_drawn x (omega arith));
    files_marked = λ x h. rw same (n.files_marked x h);
    dirs_marked = λ x h. rw same (n.dirs_marked x h);
  },
)

-- After any requests, as long as the counter of identifiers does not wrap, no two files and no two
-- directories of the tree have the same identifier, every identifier in the tree is below the
-- counter, and it says whether it is a directory's.
pub run-IsNumbered :
    (control : UserAccessControl) (commands : List (ℕ × Command)) (e : StorageEndpoint)
    → e.uid + length commands < uint32
    → IsNumbered e
    → IsNumbered (run control commands e)
unfolding run
run-IsNumbered control [] e bound n = n
run-IsNumbered control ((now, command) ∷ commands) e bound n =
    let (next, n') = Effect-IsNumbered (step-Effect control now command e) (omega arith) n in
    run-IsNumbered control commands (step control now command e) (omega arith) n'

pub new_endpoint-IsNumbered :
    (now uid : ℕ) (name : Str) (max_size creator endpoint : ℕ)
    → uid + 1 < uint32
    → IsNumbered (new_endpoint now uid name max_size creator endpoint)
unfolding new_endpoint total files_with
new_endpoint-IsNumbered now uid name max_size creator endpoint bound =
    let fid : FileId = record { uid = uid; endpoint = endpoint; directory = true } in
    record {
      files_once = λ x. omega arith;
      dirs_once = λ x. ground arith;
      files_drawn = λ x h. omega arith;
      dirs_drawn = λ x h. ground (arith, eq_id_iff fid x);
      files_marked = λ x h. omega arith;
      dirs_marked = λ x h. ground (arith, eq_id_iff fid x);
    }
