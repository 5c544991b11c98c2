-- ===== src/Vfs/Search/Skeleton.antt =====
-- `findDir` of src/storage/vfs/VirtualFilesystem.cpp reads no more of the tree than its shape and
-- the identifiers of its directories.
use teilpunkt.Base.{
  ℕ, zero, suc, ◌+◌, ◌≡◌, ◌⊎◌, refl, some, List, [], ◌∷◌, ◌++◌, arith, Option-cases, inl, inr,
  false, map,
}
use teilpunkt.Vfs.{FileId, DirectoryData, Dirs, nil, cons, VirtualDirectory, start_stats}
use teilpunkt.Vfs.Search.{
  Pointer, Visit, size, scan, Scan, found, pushed, find_rounds, find_dir, rounds_for, start,
}
use teilpunkt.Vfs.Search.Tree.{nth_dir, set_dir, get_at, set_at}

-- A directory with nothing but its identifier
abbrev bare : DirectoryData → DirectoryData
bare d = record {
  fid = d.fid;
  info = record { name = []; creator = 0; owner = 0 };
  parent = d.fid;
  stats = start_stats 0;
  sub_dir_file_size = 0;
  size_limit = 0;
  is_read_only = false;
  files = [];
}

unfoldable pub skeleton_dirs : Dirs → Dirs
skeleton_dirs nil = nil
skeleton_dirs (cons d ds rest) = cons (bare d) (skeleton_dirs ds) (skeleton_dirs rest)

abbrev pub skeleton : VirtualDirectory → VirtualDirectory
skeleton dir = record { self = bare dir.self; dirs = skeleton_dirs dir.dirs }

abbrev bare_visit : Visit → Visit
bare_visit v = record { pointer = v.pointer; dir = skeleton v.dir }

abbrev bare_scan : Scan → Scan
bare_scan (found p) = found p
bare_scan (pushed cache) = pushed (map bare_visit cache)

size-skeleton_dirs : (ds : Dirs) → size (skeleton_dirs ds) ≡ size ds
unfolding size skeleton_dirs
size-skeleton_dirs nil = refl
size-skeleton_dirs (cons d ds rest) = omega (arith, size-skeleton_dirs ds, size-skeleton_dirs rest)

scan-skeleton :
    (fid : FileId) (p : Pointer) (i : ℕ) (ds : Dirs) (cache : List Visit)
    → scan fid p i (skeleton_dirs ds) (map bare_visit cache) ≡ bare_scan (scan fid p i ds cache)
unfolding scan skeleton_dirs
scan-skeleton fid p i nil cache = refl
scan-skeleton fid p i (cons d ds rest) cache = ground (
  arith,
  scan-skeleton fid p (i + 1) rest
      (record { pointer = p ++ i ∷ []; dir = record { self = d; dirs = ds } } ∷ cache),
)

Scan-cases :
    (s : Scan) → ((p : Pointer) × (s ≡ found p)) ⊎ ((cache : List Visit) × (s ≡ pushed cache))
Scan-cases (found p) = inl (p, refl)
Scan-cases (pushed cache) = inr (cache, refl)

find_rounds-skeleton :
    (fid : FileId) (n : ℕ) (cache : List Visit)
    → find_rounds fid n (map bare_visit cache) ≡ find_rounds fid n cache
unfolding find_rounds
find_rounds-skeleton fid n [] = ground arith
find_rounds-skeleton fid zero (v ∷ cache) = refl
find_rounds-skeleton fid (suc n) (v ∷ cache) =
    let rest = scan-skeleton fid v.pointer 0 v.dir.dirs cache in
    elim (Scan-cases (scan fid v.pointer 0 v.dir.dirs cache)) [
      | inl (p, e) ↦ ground (arith, e, rest)
      | inr (cache', e) ↦ ground (arith, e, rest, find_rounds-skeleton fid n cache')
    ]

pub find_dir-skeleton :
    (fid : FileId) (root : VirtualDirectory) → find_dir fid (skeleton root) ≡ find_dir fid root
unfolding find_dir
find_dir-skeleton fid root =
    ground
      (arith, size-skeleton_dirs root.dirs, find_rounds-skeleton fid (rounds_for root) (start root))

skeleton-set_dir :
    (ds : Dirs) (i : ℕ) (new : VirtualDirectory) {old : VirtualDirectory}
    → nth_dir ds i ≡ some old
    → skeleton new ≡ skeleton old
    → skeleton_dirs (set_dir ds i new) ≡ skeleton_dirs ds
unfolding nth_dir set_dir skeleton_dirs
skeleton-set_dir nil i new h e = refl
skeleton-set_dir (cons d ds rest) zero new {old} h e = ground arith
skeleton-set_dir (cons d ds rest) (suc i) new {old} h e =
    ground (arith, skeleton-set_dir rest i new {old = old})

pub skeleton-set_at :
    (p : Pointer) (new root : VirtualDirectory) {old : VirtualDirectory}
    → get_at p root ≡ some old
    → skeleton new ≡ skeleton old
    → skeleton (set_at p new root) ≡ skeleton root
unfolding get_at set_at
skeleton-set_at [] new root h e = ground arith
skeleton-set_at (i ∷ p) new root {old} h e = elim (Option-cases (nth_dir root.dirs i)) [
  | inl e' ↦ ground (arith, e')
  | inr (c, e') ↦ ground (
    arith,
    e',
    skeleton-set_dir root.dirs i (set_at p new c) {old = c},
    skeleton-set_at p new c {old = old},
  )
]
