-- ===== src/Vfs/Directory/Sizes.antt =====
-- The sizes that a directory of src/storage/vfs/VirtualDirectory.cpp keeps.
use mathlib.Core.Path.{subst}
use mathlib.Core.Option.{some-injective}
use teilpunkt.Base.{
  ℕ, ◌+◌, ◌-◌, ◌%◌, ◌≤◌, ◌<◌, ◌≡◌, ◌==◌, refl, sym, some, List, [], ◌∷◌, ◌++◌, arith, Bool-cases,
  Option-cases, inl, inr, true, false, not, ◌||◌, All, All-append,
}
use teilpunkt.Vfs.{
  uint64, file_name_exists, FileId, eq_id, VirtualFile, FileCreationInfo, DirectoryData,
  VirtualDirectory, find_file, new_file, on_modification,
}
use teilpunkt.Vfs.Lookup.{eq_id_iff, files_with, files_with-append}
use teilpunkt.Vfs.Directory.{
  file_add, file_change_size, file_delete, set_file, erase_file, can_hold_size_change,
}

-- The sizes of the files together
abbrev pub sum_sizes : List VirtualFile → ℕ
sum_sizes [] = 0
sum_sizes (f ∷ fs) = f.stats.size + sum_sizes fs

-- The size of a directory is that of its files, as far as 64 bits go; a file's size has 64 bits; and
-- no two files have the same identifier.
pub record IsSummed (d : DirectoryData) : Type 0 where
  pub total : d.stats.size ≡ sum_sizes d.files % uint64
  pub bounded : All (λ (f : VirtualFile). f.stats.size < uint64) d.files
  pub once : (fid : FileId) → files_with fid d.files ≤ 1

sum_sizes-append :
    (fs : List VirtualFile) (f : VirtualFile)
    → sum_sizes (fs ++ f ∷ []) ≡ sum_sizes fs + f.stats.size
sum_sizes-append [] f = omega arith
sum_sizes-append (x ∷ fs) f = omega (arith, sum_sizes-append fs f)

-- The file that is found, and the sizes after a change of it, and without it
sum_sizes-set_file :
    (fid : FileId) (new : VirtualFile → VirtualFile) (size : ℕ) (fs : List VirtualFile)
    {f : VirtualFile}
    → ((x : VirtualFile) → (new x).stats.size ≡ size)
    → find_file fid fs ≡ some f
    → sum_sizes (set_file fid new fs) + f.stats.size ≡ sum_sizes fs + size
unfolding find_file set_file
sum_sizes-set_file fid new size [] sized h = cc
sum_sizes-set_file fid new size (x ∷ fs) {f} sized h =
    ground (arith, sized x, sum_sizes-set_file fid new size fs {f = f} sized)

erase_file-absent :
    (fid : FileId) (fs : List VirtualFile) → files_with fid fs ≡ 0 → erase_file fid fs ≡ fs
unfolding erase_file files_with
erase_file-absent fid [] h = refl
erase_file-absent fid (x ∷ fs) h = ground (arith, erase_file-absent fid fs)

sum_sizes-erase_file :
    (fid : FileId) (fs : List VirtualFile) {f : VirtualFile}
    → files_with fid fs ≤ 1
    → find_file fid fs ≡ some f
    → sum_sizes (erase_file fid fs) + f.stats.size ≡ sum_sizes fs
unfolding find_file erase_file files_with
sum_sizes-erase_file fid [] once h = cc
sum_sizes-erase_file fid (x ∷ fs) {f} once h =
    ground (arith, sum_sizes-erase_file fid fs {f = f}, erase_file-absent fid fs)

module _ (P : VirtualFile → Type 0) where
  find_file-All :
      (fid : FileId) (fs : List VirtualFile) {f : VirtualFile}
      → All P fs
      → find_file fid fs ≡ some f
      → P f
  unfolding find_file
  find_file-All fid [] h e = cc
  find_file-All fid (x ∷ fs) {f} (p, h) e = elim (Bool-cases (eq_id x.fid fid)) [
    | inl same ↦ subst P (some-injective _ _ (ground (arith, same))) p
    | inr other ↦ find_file-All fid fs {f = f} h (ground (arith, other))
  ]

  set_file-All :
      (fid : FileId) (new : VirtualFile → VirtualFile) (fs : List VirtualFile)
      → ((x : VirtualFile) → P (new x))
      → All P fs
      → All P (set_file fid new fs)
  unfolding set_file
  set_file-All fid new [] q h = tt
  set_file-All fid new (x ∷ fs) q (p, h) = elim (Bool-cases (eq_id x.fid fid)) [
    | inl same ↦ rw same (q x, h)
    | inr other ↦ rw other (p, set_file-All fid new fs q h)
  ]

  erase_file-All : (fid : FileId) (fs : List VirtualFile) → All P fs → All P (erase_file fid fs)
  unfolding erase_file
  erase_file-All fid [] h = tt
  erase_file-All fid (x ∷ fs) (p, h) = elim (Bool-cases (eq_id x.fid fid)) [
    | inl same ↦ rw same (erase_file-All fid fs h)
    | inr other ↦ rw other (p, erase_file-All fid fs h)
  ]

files_with-set_file :
    (x fid : FileId) (new : VirtualFile → VirtualFile) (fs : List VirtualFile)
    → ((f : VirtualFile) → (new f).fid ≡ f.fid)
    → files_with x (set_file fid new fs) ≡ files_with x fs
unfolding set_file files_with
files_with-set_file x fid new [] same = refl
files_with-set_file x fid new (f ∷ fs) same =
    ground (arith, same f, files_with-set_file x fid new fs same)

files_with-erase_file-le :
    (x fid : FileId) (fs : List VirtualFile) → files_with x (erase_file fid fs) ≤ files_with x fs
unfolding erase_file files_with
files_with-erase_file-le x fid [] = omega arith
files_with-erase_file-le x fid (f ∷ fs) = ground (arith, files_with-erase_file-le x fid fs)

-- What a change of a size writes
module _ (now : ℕ) where
  abbrev resize : ℕ → VirtualFile → VirtualFile
  unfolding on_modification
  resize new_file_size f = record f {
    stats = on_modification now (record f.stats { size = new_file_size });
  }

  abbrev resized : VirtualDirectory → FileId → ℕ → ℕ → VirtualDirectory
  unfolding on_modification set_file
  resized d file curr_file_size new_file_size = record d {
    self = record d.self {
      stats = on_modification now (record d.self.stats {
        size = (d.self.stats.size + uint64 - curr_file_size + new_file_size) % uint64;
      });
      files = set_file file (resize new_file_size) d.self.files;
    };
  }

module _ (now : ℕ) (d : VirtualDirectory) (s : IsSummed d.self) where
  file_change_size-IsSummed :
      (file : FileId) (new_file_size : ℕ)
      → new_file_size < uint64
      → IsSummed (file_change_size now file new_file_size d).0.self
  unfolding file_change_size
  file_change_size-IsSummed file new_file_size small =
      elim (Option-cases (find_file file d.self.files)) [
        | inl missing ↦ rw (missing, file_change_size) s
        | inr (f, e) ↦
            elim (Bool-cases (
              f.stats.size == new_file_size
              || not (can_hold_size_change f.stats.size new_file_size d.self))) [
                | inl kept ↦
                    let same : (file_change_size now file new_file_size d).0 ≡ d =
                      ground (arith, e, kept) in
                    subst (λ (x : VirtualDirectory). IsSummed x.self) (sym same) s
                | inr changed ↦
                    let same : (file_change_size now file new_file_size d).0
                        ≡ resized now d file f.stats.size new_file_size =
                      ground (arith, e, changed) in
                    let small_before =
                      find_file-All (λ (x : VirtualFile). x.stats.size < uint64) file d.self.files
                        {f = f} s.bounded e in
                    let sums =
                      sum_sizes-set_file file (resize now new_file_size) new_file_size d.self.files
                        {f = f} (λ x. refl) e in
                    subst (λ (x : VirtualDirectory). IsSummed x.self) (sym same)
                      (record {
                        total = omega (arith, s.total, small_before, sums);
                        bounded =
                            set_file-All (λ (x : VirtualFile). x.stats.size < uint64) file
                              (resize now new_file_size) d.self.files (λ x. small) s.bounded;
                        once = λ x. omega (
                          arith,
                          s.once x,
                          files_with-set_file x file (resize now new_file_size) d.self.files
                              (λ y. refl),
                        );
                      })
              ]
      ]

  file_delete-IsSummed : (file : FileId) → IsSummed (file_delete now file d).0.self
  unfolding file_delete
  file_delete-IsSummed file = elim (Option-cases (find_file file d.self.files)) [
    | inl missing ↦ rw (missing, file_delete) s
    | inr (f, e) ↦
        let small =
          find_file-All (λ (x : VirtualFile). x.stats.size < uint64) file d.self.files {f = f}
            s.bounded e in
        rw (e, file_delete)
          (record {
            total = omega (
              arith,
              s.total,
              small,
              sum_sizes-erase_file file d.self.files {f = f} (s.once file) e,
            );
            bounded =
                erase_file-All (λ (x : VirtualFile). x.stats.size < uint64) file d.self.files
                  s.bounded;
            once = λ x. omega (arith, s.once x, files_with-erase_file-le x file d.self.files);
          })
  ]

  file_add-IsSummed :
      (uid : ℕ) (info : FileCreationInfo)
      → files_with (record { uid = uid; endpoint = info.endpoint; directory = false }) d.self.files
        ≡ 0
      → IsSummed (file_add now uid info d).0.self
  unfolding file_add
  file_add-IsSummed uid info fresh = elim (Bool-cases (file_name_exists info.name d.self.files)) [
    | inl taken ↦ rw taken s
    | inr free ↦
        let fid : FileId = record { uid = uid; endpoint = info.endpoint; directory = false } in
        let new = new_file now info fid in
        rw free (record {
          total = omega (arith, s.total, sum_sizes-append d.self.files new);
          bounded =
              All-append (λ (x : VirtualFile). x.stats.size < uint64) d.self.files (new ∷ [])
                s.bounded (omega arith, tt);
          once = λ x.
              ground
                (arith, s.once x, files_with-append x d.self.files new, eq_id_iff fid x, fresh);
        })
  ]

  -- Whatever its outcome, the creation of a file under a new identifier, a change of the size of a file
  -- and the deletion of one keep the size of a directory equal to that of its files, as far as 64
  -- bits go.
  pub operations_sum :
      (uid : ℕ) (info : FileCreationInfo) (file : FileId) (new_file_size : ℕ)
      → files_with (record { uid = uid; endpoint = info.endpoint; directory = false }) d.self.files
        ≡ 0
      → new_file_size < uint64
      → IsSummed (file_add now uid info d).0.self
        × IsSummed (file_change_size now file new_file_size d).0.self
        × IsSummed (file_delete now file d).0.self
  operations_sum uid info file new_file_size fresh small = (
    file_add-IsSummed uid info fresh,
    file_change_size-IsSummed file new_file_size small,
    file_delete-IsSummed file,
  )

-- The limit is asked of the size modulo 2^64: whatever a directory has and whatever the limit, if it is
-- not zero, a change is admitted that brings the size of the directory and those below it to 2^64.
pub can_hold_size_change_wraps :
    (d : DirectoryData) (curr_size : ℕ)
    → 0 < d.size_limit
    → curr_size < d.stats.size + d.sub_dir_file_size
    → d.stats.size + d.sub_dir_file_size < uint64
    → can_hold_size_change curr_size (uint64 - (d.stats.size + d.sub_dir_file_size - curr_size)) d
      ≡ true
unfolding can_hold_size_change
can_hold_size_change_wraps d curr_size limited below bounded = ground arith
