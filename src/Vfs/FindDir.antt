-- ===== src/Vfs/FindDir.antt =====
-- What `findDir` of src/storage/vfs/VirtualFilesystem.cpp finds.
use mathlib.Core.Path.{subst}
use teilpunkt.Base.{
  ℕ, zero, suc, ◌+◌, ◌≡◌, ◌⊎◌, inl, inr, refl, sym, ◌∙◌, Option, none, some, List, [], ◌∷◌, ◌++◌,
  arith, Option-cases, true, if◌then◌else◌, Bool-cases,
}
use teilpunkt.Vfs.{FileId, eq_id, Dirs, nil, cons, VirtualDirectory}
use teilpunkt.Vfs.Search.{
  Pointer, Visit, push_dirs, walk, rounds_for, start, find_dir, find_rounds, scan, found, pushed,
}
use teilpunkt.Vfs.Search.Tree.{get_at}
use teilpunkt.Vfs.Search.Outcome.{IsAt, walk-Ends, HasAt, HasAt-rest, HasAt-first, HasAt-start}
use teilpunkt.Vfs.Lookup.{
  eq_id_iff, dir_count, Found, children_with, children_of, total-children, start_covers, start-IsAt,
}

-- The place of the first directory with the identifier.
unfoldable place_of : FileId → ℕ → Dirs → Option ℕ
place_of fid i nil = none
place_of fid i (cons d ds rest) =
    let next = place_of fid (i + 1) rest in if eq_id d.fid fid then some i else next

unfoldable child_at : FileId → Visit → Option Pointer
unfolding place_of
child_at fid v = elim (place_of fid 0 v.dir.dirs) [
  | none ↦ none
  | some i ↦ some (v.pointer ++ i ∷ [])
]

scan_lem :
    (fid : FileId) (p : Pointer) (i : ℕ) (ds : Dirs) (cache : List Visit)
    → scan fid p i ds cache ≡ (elim (place_of fid i ds) [
      | some j ↦ found (p ++ j ∷ [])
      | none ↦ pushed (push_dirs p i ds cache)
    ])
unfolding scan place_of push_dirs
scan_lem fid p i nil cache = refl
scan_lem fid p i (cons d ds rest) cache = ground (
  arith,
  scan_lem fid p (i + 1) rest
      (record { pointer = p ++ i ∷ []; dir = record { self = d; dirs = ds } } ∷ cache),
)

find_rounds_lem :
    (fid : FileId) (n : ℕ) (cache : List Visit)
    → find_rounds fid n cache ≡ walk (child_at fid) n cache
unfolding find_rounds walk child_at
find_rounds_lem fid n [] = ground arith
find_rounds_lem fid zero (v ∷ cache) = refl
find_rounds_lem fid (suc n) (v ∷ cache) = ground (
  arith,
  scan_lem fid v.pointer 0 v.dir.dirs cache,
  find_rounds_lem fid n (push_dirs v.pointer 0 v.dir.dirs cache),
)

place_of-none :
    (fid : FileId) (i : ℕ) (ds : Dirs) → place_of fid i ds ≡ none → children_with fid ds ≡ 0
unfolding place_of children_with
place_of-none fid i nil h = refl
place_of-none fid i (cons d ds rest) h = ground (arith, place_of-none fid (i + 1) rest)

place_of-some :
    (root : VirtualDirectory) (fid : FileId) (p : Pointer) (i : ℕ) (ds : Dirs) {j : ℕ}
    → HasAt root p i ds
    → place_of fid i ds ≡ some j
    → Found root (p ++ j ∷ []) (λ dir. eq_id dir.self.fid fid ≡ true)
unfolding place_of
place_of-some root fid p i nil at h = cc
place_of-some root fid p i (cons d ds rest) {j} at h = elim (Bool-cases (eq_id d.fid fid)) [
  | inl e ↦
      let same : i ≡ j = ground (arith, e) in
      record {
        dir = record { self = d; dirs = ds };
        at = rw (← same) (HasAt-first root p i d ds rest at);
        holds = e;
      }
  | inr e ↦
      place_of-some root fid p (i + 1) rest {j = j} (HasAt-rest root p i d ds rest at)
        (ground (arith, e))
]

child_at-none :
    (fid : FileId) (v : Visit) → child_at fid v ≡ none → children_of fid v.dir.self v.dir.dirs ≡ 0
unfolding child_at
child_at-none fid v h = ground (arith, place_of-none fid 0 v.dir.dirs)

child_at-some :
    (root : VirtualDirectory) (fid : FileId) (v : Visit) {p : Pointer}
    → IsAt root v
    → child_at fid v ≡ some p
    → Found root p (λ dir. eq_id dir.self.fid fid ≡ true)
unfolding child_at
child_at-some root fid v {p} at h = elim (Option-cases (place_of fid 0 v.dir.dirs)) [
  | inl e ↦ absurd (ground (arith, e))
  | inr (j, e) ↦
      let same : v.pointer ++ j ∷ [] ≡ p = ground (arith, e) in
      subst (λ q. Found root q (λ dir. eq_id dir.self.fid fid ≡ true)) same
        (place_of-some root fid v.pointer 0 v.dir.dirs (HasAt-start root v at) e)
]

-- `findDir` returns: a directory of the tree with the identifier, or `nullptr`, and then no
-- directory of the tree has it.
pub find_dir_lem :
    (fid : FileId) (root : VirtualDirectory)
    → ((p : Pointer) × (find_dir fid root ≡ some (some p))
        × Found root p (λ dir. dir.self.fid ≡ fid))
      ⊎ ((find_dir fid root ≡ some none) × (dir_count fid root ≡ 0))
unfolding find_dir
find_dir_lem fid root = elim (Bool-cases (eq_id fid root.self.fid)) [
  | inl e ↦
      let same = (eq_id_iff fid root.self.fid).0 e in
      inl (
        [],
        rw (e, if◌then◌else◌) refl,
        record { dir = root; at = unfold get_at in refl; holds = sym same },
      )
  | inr e ↦
      elim (walk-Ends root (child_at fid) (children_of fid) (child_at-none fid) (rounds_for root)
        (start root) (start-IsAt root) (start_covers root)) [
          | inl (p, ends, hit) ↦
              let f = child_at-some root fid hit.visit hit.at hit.hit in
              inl (
                p,
                rw e (find_rounds_lem fid (rounds_for root) (start root) ∙ ends),
                record { dir = f.dir; at = f.at; holds = (eq_id_iff f.dir.self.fid fid).0 f.holds },
              )
          | inr (ends, zeros) ↦ inr (
            rw e (find_rounds_lem fid (rounds_for root) (start root) ∙ ends),
            ground (
              arith,
              zeros,
              total-children fid root.dirs,
              eq_id_iff fid root.self.fid,
              eq_id_iff root.self.fid fid,
              e,
            ),
          )
        ]
]
