-- ===== src/Users/Counts.antt =====
-- How many users of src/auth/UserStorage.cpp have a name or an identifier, and what `remove` changes
-- of it.
use mathlib.Core.Path.{subst}
use mathlib.Core.List.{Memᴰ}
use native.Mathlib.Decide.{ℕ_discrete}
use teilpunkt.Base.{
  ℕ, ◌+◌, ◌≤◌, ◌≡◌, ◌≢◌, ◌==◌, ==_iff, refl, ap, sym, ◌∙◌, some, List, [], ◌∷◌, ◌++◌, Str, eq_str,
  arith, Bool-cases, inl, inr, if◌then◌else◌, get_last?, drop_last,
}
use teilpunkt.SessionStorage.{erase_first}
use teilpunkt.SessionStorage.Erasing.{mem_of_erase_first, mem_to_erase_first, erase_first-eq}
use teilpunkt.Users.{User, remove_user}

-- A sum over the users
module _ (f : User → ℕ) where
  abbrev pub sum : List User → ℕ
  sum [] = 0
  sum (u ∷ us) = f u + sum us

  pub sum-append : (us vs : List User) → sum (us ++ vs) ≡ sum us + sum vs
  sum-append [] vs = omega arith
  sum-append (u ∷ us) vs = omega (arith, sum-append us vs)

  sum-drop_last :
      (us : List User) {l : User} → get_last? us ≡ some l → sum us ≡ f l + sum (drop_last us)
  sum-drop_last [] h = cc
  sum-drop_last (u ∷ []) h = ground arith
  sum-drop_last (u ∷ v ∷ us) {l} h = omega (arith, sum-drop_last (v ∷ us) {l = l} h)

  sum-erase_first : (us : List User) → sum (erase_first us) ≡ sum us
  sum-erase_first [] = unfold erase_first in refl
  sum-erase_first (u ∷ us) =
      let (l, last, e) = erase_first-eq u us in ap sum e ∙ sym (sum-drop_last (u ∷ us) last)

  pub sum-remove_user-le : (user : ℕ) (us : List User) → sum (remove_user user us) ≤ sum us
  unfolding remove_user
  sum-remove_user-le user [] = omega arith
  sum-remove_user-le user (u ∷ us) = ground (arith, sum-remove_user-le user us, sum-erase_first us)

  pub le-sum : (us : List User) {u : User} → Memᴰ u us → f u ≤ sum us
  le-sum [] {u} m = elim m [ ]
  le-sum (v ∷ us) {u} (Memᴰ.head e) = let same = ap f e in omega (arith, same)
  le-sum (v ∷ us) {u} (Memᴰ.tail m) = omega (arith, le-sum us m)

abbrev pub has_name : Str → User → ℕ
has_name name u = if eq_str u.name name then 1 else 0

abbrev pub has_id : ℕ → User → ℕ
has_id user u = if u.user_id == user then 1 else 0

-- How many users have the name, and how many the identifier.
abbrev pub name_count : Str → List User → ℕ
name_count name = sum (has_name name)

abbrev pub id_count : ℕ → List User → ℕ
id_count user = sum (has_id user)

pub mem_to_remove_user :
    (user : ℕ) (us : List User) {u : User}
    → Memᴰ u us
    → u.user_id ≢ user
    → Memᴰ u (remove_user user us)
unfolding remove_user
mem_to_remove_user user [] {u} m ne = elim m [ ]
mem_to_remove_user user (v ∷ us) {u} (Memᴰ.head e) ne = elim (Bool-cases (v.user_id == user)) [
  | inl same ↦ absurd (ne (ap (λ (x : User). x.user_id) e ∙ (==_iff _ _).0 same))
  | inr other ↦ rw other (Memᴰ.head e)
]
mem_to_remove_user user (v ∷ us) {u} (Memᴰ.tail m) ne = elim (Bool-cases (v.user_id == user)) [
  | inl same ↦ rw same (mem_to_erase_first u us m)
  | inr other ↦ rw other (Memᴰ.tail (mem_to_remove_user user us m ne))
]

remove_user_eq :
    (user : ℕ) (v : User) (us : List User)
    → v.user_id ≡ user
    → remove_user user (v ∷ us) ≡ erase_first us
unfolding remove_user
remove_user_eq user v us same = ground arith

remove_user_ne :
    (user : ℕ) (v : User) (us : List User)
    → v.user_id ≢ user
    → remove_user user (v ∷ us) ≡ v ∷ remove_user user us
unfolding remove_user
remove_user_ne user v us other = ground arith

pub mem_of_remove_user :
    (user : ℕ) (us : List User) {u : User} → Memᴰ u (remove_user user us) → Memᴰ u us
mem_of_remove_user user [] m = unfold remove_user in m
mem_of_remove_user user (v ∷ us) {u} m = elim (ℕ_discrete v.user_id user) [
  | yes same ↦
      Memᴰ.tail (mem_of_erase_first u us (subst (Memᴰ u) (remove_user_eq user v us same) m))
  | no other ↦ elim (subst (Memᴰ u) (remove_user_ne user v us other) m) [
    | Memᴰ.head e ↦ Memᴰ.head e
    | Memᴰ.tail m' ↦ Memᴰ.tail (mem_of_remove_user user us m')
  ]
]

-- Where the identifier was given once, nobody has it any more.
pub remove_user-ne :
    (user : ℕ) (us : List User) {u : User}
    → id_count user us ≤ 1
    → Memᴰ u (remove_user user us)
    → u.user_id ≢ user
remove_user-ne user [] {u} once m e = let m' : Memᴰ u [] = (unfold remove_user in m) in elim m' [ ]
remove_user-ne user (v ∷ us) {u} once m e = elim (ℕ_discrete v.user_id user) [
  | yes same ↦
      let m' = mem_of_erase_first u us (subst (Memᴰ u) (remove_user_eq user v us same) m) in
      absurd (ground (arith, le-sum (has_id user) us m'))
  | no other ↦ elim (subst (Memᴰ u) (remove_user_ne user v us other) m) [
    | Memᴰ.head e' ↦ other (sym (ap (λ (x : User). x.user_id) e') ∙ e)
    | Memᴰ.tail m' ↦ remove_user-ne user us (omega arith) m' e
  ]
]
