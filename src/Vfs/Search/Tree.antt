-- ===== src/Vfs/Search/Tree.antt =====
-- What a pointer into the tree of src/storage/vfs points to, the change of it, and sums over the
-- directories of the tree.
use teilpunkt.Base.{
  ℕ, zero, suc, ◌+◌, ◌≡◌, refl, Option, none, some, List, [], ◌∷◌, ◌++◌, arith, Option-cases, inl,
  inr,
}
use teilpunkt.Vfs.{DirectoryData, Dirs, nil, cons, VirtualDirectory}
use teilpunkt.Vfs.Search.{Pointer, Visit, push_dirs, size}

-- The directory at a place
unfoldable pub nth_dir : Dirs → ℕ → Option VirtualDirectory
nth_dir nil i = none
nth_dir (cons d ds rest) zero = some (record { self = d; dirs = ds })
nth_dir (cons d ds rest) (suc i) = nth_dir rest i

unfoldable pub set_dir : Dirs → ℕ → VirtualDirectory → Dirs
set_dir nil i new = nil
set_dir (cons d ds rest) zero new = cons new.self new.dirs rest
set_dir (cons d ds rest) (suc i) new = cons d ds (set_dir rest i new)

unfoldable pub get_at : Pointer → VirtualDirectory → Option VirtualDirectory
unfolding nth_dir
get_at [] dir = some dir
get_at (i ∷ p) dir = elim (nth_dir dir.dirs i) [ none ↦ none | some child ↦ get_at p child ]

unfoldable pub set_at : Pointer → VirtualDirectory → VirtualDirectory → VirtualDirectory
unfolding nth_dir set_dir
set_at [] new dir = new
set_at (i ∷ p) new dir = elim (nth_dir dir.dirs i) [
  | none ↦ dir
  | some child ↦ record dir { dirs = set_dir dir.dirs i (set_at p new child) }
]

pub get_at-append :
    (p : Pointer) (i : ℕ) (root : VirtualDirectory) {dir : VirtualDirectory}
    → get_at p root ≡ some dir
    → get_at (p ++ i ∷ []) root ≡ nth_dir dir.dirs i
unfolding get_at
get_at-append [] i root {dir} h = elim (Option-cases (nth_dir root.dirs i)) [
  | inl e ↦ ground (arith, e)
  | inr (c, e) ↦ ground (arith, e)
]
get_at-append (j ∷ p) i root {dir} h = elim (Option-cases (nth_dir root.dirs j)) [
  | inl e ↦ ground (arith, e)
  | inr (c, e) ↦ ground (arith, e, get_at-append p i c {dir = dir})
]

-- What a `set_at` has set is there, and can be got by the same pointer.
get-nth-set_dir :
    (ds : Dirs) (i : ℕ) (new : VirtualDirectory) {old : VirtualDirectory}
    → nth_dir ds i ≡ some old
    → nth_dir (set_dir ds i new) i ≡ some new
unfolding nth_dir set_dir
get-nth-set_dir nil i new h = cc
get-nth-set_dir (cons d ds rest) zero new h = refl
get-nth-set_dir (cons d ds rest) (suc i) new h = get-nth-set_dir rest i new h

pub get_at-set_at :
    (p : Pointer) (new root : VirtualDirectory) {old : VirtualDirectory}
    → get_at p root ≡ some old
    → get_at p (set_at p new root) ≡ some new
unfolding get_at set_at
get_at-set_at [] new root h = refl
get_at-set_at (i ∷ p) new root {old} h = elim (Option-cases (nth_dir root.dirs i)) [
  | inl e ↦ ground (arith, e)
  | inr (c, e) ↦ ground (
    arith,
    e,
    get-nth-set_dir root.dirs i (set_at p new c) {old = c},
    get_at-set_at p new c {old = old},
  )
]

module _ (f : DirectoryData → Dirs → ℕ) where
  unfoldable pub total : Dirs → ℕ
  total nil = 0
  total (cons d ds rest) = f d ds + total ds + total rest

  abbrev pub whole : VirtualDirectory → ℕ
  whole dir = f dir.self dir.dirs + total dir.dirs

  abbrev pub cache_total : List Visit → ℕ
  cache_total [] = 0
  cache_total (v ∷ cache) = whole v.dir + cache_total cache

  pub cache_total-push_dirs :
      (p : Pointer) (i : ℕ) (ds : Dirs) (cache : List Visit)
      → cache_total (push_dirs p i ds cache) ≡ total ds + cache_total cache
  unfolding push_dirs total
  cache_total-push_dirs p i nil cache = omega arith
  cache_total-push_dirs p i (cons d ds rest) cache =
      let v : Visit = record { pointer = p ++ i ∷ []; dir = record { self = d; dirs = ds } } in
      omega (arith, cache_total-push_dirs p (i + 1) rest (v ∷ cache))

-- A sum of one for each directory
abbrev pub one : DirectoryData → Dirs → ℕ
one d ds = 1

pub size-total : (ds : Dirs) → size ds ≡ total one ds
unfolding size total
size-total nil = refl
size-total (cons d ds rest) = omega (arith, size-total ds, size-total rest)

-- A sum of what each directory has in itself
module _ (g : DirectoryData → ℕ) where
  abbrev pub own : DirectoryData → Dirs → ℕ
  own d ds = g d

  total-set_dir :
      (ds : Dirs) (i : ℕ) (new : VirtualDirectory) {old : VirtualDirectory}
      → nth_dir ds i ≡ some old
      → total own (set_dir ds i new) + whole own old ≡ total own ds + whole own new
  unfolding nth_dir set_dir total
  total-set_dir nil i new h = cc
  total-set_dir (cons d ds rest) zero new {old} h = ground arith
  total-set_dir (cons d ds rest) (suc i) new {old} h = omega (arith, total-set_dir rest i new h)

  pub whole-set_at :
      (p : Pointer) (new root : VirtualDirectory) {old : VirtualDirectory}
      → get_at p root ≡ some old
      → whole own (set_at p new root) + whole own old ≡ whole own root + whole own new
  unfolding get_at set_at
  whole-set_at [] new root h = ground arith
  whole-set_at (i ∷ p) new root {old} h = elim (Option-cases (nth_dir root.dirs i)) [
    | inl e ↦ ground (arith, e)
    | inr (c, e) ↦ ground (
      arith,
      e,
      total-set_dir root.dirs i (set_at p new c) {old = c},
      whole-set_at p new c {old = old},
    )
  ]
