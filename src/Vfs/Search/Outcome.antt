-- ===== src/Vfs/Search/Outcome.antt =====
-- How a search of src/storage/vfs/VirtualFilesystem.cpp ends.
use teilpunkt.Base.{
  ℕ, zero, suc, ◌+◌, ◌≤◌, ◌≡◌, ◌⊎◌, inl, inr, refl, ap, ◌∙◌, Option, none, some, List, [], ◌∷◌,
  ◌++◌, arith, Option-cases, All,
}
use teilpunkt.Vfs.{DirectoryData, Dirs, nil, cons, VirtualDirectory}
use teilpunkt.Vfs.Search.{Pointer, Visit, push_dirs, walk}
use teilpunkt.Vfs.Search.Tree.{
  nth_dir, get_at, get_at-append, cache_total, one, cache_total-push_dirs,
}

module _ (root : VirtualDirectory) where
  -- The pointer of the element points to its directory.
  abbrev pub IsAt : Visit → Type 0
  IsAt v = get_at v.pointer root ≡ some v.dir

  abbrev pub HasAt : Pointer → ℕ → Dirs → Type 0
  HasAt p i ds = (j : ℕ) → get_at (p ++ (i + j) ∷ []) root ≡ nth_dir ds j

  pub HasAt-rest :
      (p : Pointer) (i : ℕ) (d : DirectoryData) (ds rest : Dirs)
      → HasAt p i (cons d ds rest)
      → HasAt p (i + 1) rest
  unfolding nth_dir
  HasAt-rest p i d ds rest at j =
      let e : i + 1 + j ≡ i + suc j = omega arith in
      ap (λ (k : ℕ). get_at (p ++ k ∷ []) root) e ∙ at (suc j)

  pub HasAt-first :
      (p : Pointer) (i : ℕ) (d : DirectoryData) (ds rest : Dirs)
      → HasAt p i (cons d ds rest)
      → get_at (p ++ i ∷ []) root ≡ some (record { self = d; dirs = ds })
  unfolding nth_dir
  HasAt-first p i d ds rest at =
      let e : i ≡ i + 0 = omega arith in ap (λ (k : ℕ). get_at (p ++ k ∷ []) root) e ∙ at 0

  pub HasAt-start : (v : Visit) → IsAt v → HasAt v.pointer 0 v.dir.dirs
  HasAt-start v at j =
      let e : 0 + j ≡ j = omega arith in
      ap (λ (k : ℕ). get_at (v.pointer ++ k ∷ []) root) e ∙ get_at-append v.pointer j root at

  push_dirs-IsAt :
      (p : Pointer) (i : ℕ) (ds : Dirs) (cache : List Visit)
      → HasAt p i ds
      → All IsAt cache
      → All IsAt (push_dirs p i ds cache)
  unfolding push_dirs
  push_dirs-IsAt p i nil cache at h = h
  push_dirs-IsAt p i (cons d ds rest) cache at h =
      push_dirs-IsAt p (i + 1) rest
        (record { pointer = p ++ i ∷ []; dir = record { self = d; dirs = ds } } ∷ cache)
        (HasAt-rest p i d ds rest at) (HasAt-first p i d ds rest at, h)

  -- A directory that the search has found something in
  pub record Hit {A : Type 0} (check : Visit → Option A) (result : A) : Type 0 where
    pub visit : Visit
    pub at : get_at visit.pointer root ≡ some visit.dir
    pub hit : check visit ≡ some result

  -- A search with a round for each directory ends: with what `check` has found at some directory,
  -- or, if it has found nothing, after every directory, so that a sum whose terms are zero where
  -- `check` finds nothing is zero.
  module _ {A : Type 0} (check : Visit → Option A) (f : DirectoryData → Dirs → ℕ)
      (clear : (v : Visit) → check v ≡ none → f v.dir.self v.dir.dirs ≡ 0) where
    abbrev pub Ends : Option (Option A) → List Visit → Type 0
    Ends outcome cache =
        ((result : A) × (outcome ≡ some (some result)) × Hit check result)
        ⊎ ((outcome ≡ some none) × (cache_total f cache ≡ 0))

    pub walk-Ends :
        (n : ℕ) (cache : List Visit)
        → All IsAt cache
        → cache_total one cache ≤ n
        → Ends (walk check n cache) cache
    unfolding walk
    walk-Ends n [] at h = inr (refl, refl)
    walk-Ends zero (v ∷ cache) at h = absurd (omega arith)
    walk-Ends (suc n) (v ∷ cache) (at, ats) h = elim (Option-cases (check v)) [
      | inr (result, e) ↦ inl (result, rw (e, walk) refl, record { visit = v; at = at; hit = e })
      | inl e ↦
          elim (walk-Ends n (push_dirs v.pointer 0 v.dir.dirs cache)
            (push_dirs-IsAt v.pointer 0 v.dir.dirs cache (HasAt-start v at) ats)
            (omega (arith, cache_total-push_dirs one v.pointer 0 v.dir.dirs cache))) [
              | inl (result, ends, hit) ↦ inl (result, rw (e, walk) ends, hit)
              | inr (ends, zeros) ↦ inr (
                rw (e, walk) ends,
                omega
                    (arith, zeros, clear v e, cache_total-push_dirs f v.pointer 0 v.dir.dirs cache),
              )
            ]
    ]
