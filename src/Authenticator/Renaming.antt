-- ===== src/Authenticator/Renaming.antt =====
-- The names that `userChangeCredentials` of src/auth/Authenticator.cpp gives.
use native.Mathlib.Decide.{ℕ_discrete}
use mathlib.Core.List.{Memᴰ}
use teilpunkt.Base.{
  ℕ, ◌+◌, ◌≤◌, ◌≡◌, ◌≢◌, ◌==◌, refl, Option, none, some, List, [], ◌∷◌, Str, eq_str_iff, ◌⊎◌, arith,
  ap, map, Bool, Option-cases, inl, inr, if◌then◌else◌, true,
}
use teilpunkt.Users.{
  Sodium, Credentials, User, change_credentials, change_user, behind, ends, returns, goes_on,
  Change,
}
use teilpunkt.Users.Counts.{sum, le-sum, name_count, has_name}
use teilpunkt.Authenticator.{AuthStatus, Authenticator, user_change_credentials}

-- The users but the one whose credentials are changed, who have the name.
abbrev others_named : ℕ → Str → User → ℕ
others_named actor name u = if u.user_id == actor then 0 else has_name name u

behind-inv :
    (u : User) (o : Option (List User × Bool)) {us' : List User}
    → behind u o ≡ some (us', true)
    → (rest : List User) × (o ≡ some (rest, true)) × (us' ≡ u ∷ rest)
behind-inv u none h = cc
behind-inv u (some (us, done)) h = (us, ground arith, ground arith)

Change-cases :
    (c : Change) → (c ≡ ends) ⊎ (c ≡ goes_on) ⊎ ((u : User) × (done : Bool) × (c ≡ returns u done))
Change-cases ends = inl refl
Change-cases goes_on = inr (inl refl)
Change-cases (returns u done) = inr (inr (u, done, refl))

change_user-renames :
    (sodium : Sodium) (salt : ℕ) (new_name : Str) (c : Credentials) (u u' : User)
    → change_user sodium salt new_name c u ≡ returns u' true
    → u'.name ≡ new_name
unfolding change_user
change_user-renames sodium salt new_name c u u' h = ground arith

sum-others-le :
    (actor : ℕ) (name : Str) (us : List User)
    → sum (others_named actor name) us ≤ name_count name us
sum-others-le actor name [] = omega arith
sum-others-le actor name (u ∷ us) = ground (arith, sum-others-le actor name us)

change_credentials-counts :
    (sodium : Sodium) (salt actor : ℕ) (new_name : Str) (c : Credentials) (us : List User)
    {us' : List User}
    → change_credentials sodium salt actor new_name c us ≡ some (us', true)
    → sum (others_named actor new_name) us + 1 ≤ name_count new_name us'
unfolding change_credentials
change_credentials-counts sodium salt actor new_name c [] h = cc
change_credentials-counts sodium salt actor new_name c (u ∷ us) {us'} h =
    let change = change_credentials sodium salt actor new_name c us in
    let later : behind u change ≡ some (us', true)
        → sum (others_named actor new_name) (u ∷ us) + 1 ≤ name_count new_name us' =
      λ e.
        let (rest, e', split) = behind-inv u change e in
        let ih = change_credentials-counts sodium salt actor new_name c us {us' = rest} e' in
        rw split (ground (arith, ih)) in
    elim (ℕ_discrete u.user_id actor) [
      | no other ↦ later (ground (arith, other))
      | yes same ↦ elim (Change-cases (change_user sodium salt new_name c u)) [
        | inl e ↦ absurd (ground (arith, e, same))
        | inr (inl e) ↦ later (ground (arith, e, same))
        | inr (inr (u', done, e)) ↦
            let split : us' ≡ u' ∷ us = ground (arith, e, same) in
            let yes_done : done ≡ true = ground (arith, e, same) in
            let named = change_user-renames sodium salt new_name c u u' (rw (← yes_done) e) in
            rw split (
              ground
                (arith, same, named, sum-others-le actor new_name us, eq_str_iff u'.name new_name))
      ]
    ]

change_credentials-of :
    (sodium : Sodium) (salt actor : ℕ) (new_name : Str) (c : Credentials) (a : Authenticator)
    {a' : Authenticator}
    → user_change_credentials sodium salt actor new_name c a ≡ some (a', AuthStatus.ok)
    → change_credentials sodium salt actor new_name c a.user_store.users
      ≡ some (a'.user_store.users, true)
unfolding user_change_credentials
change_credentials-of sodium salt actor new_name c a {a'} h =
    elim (Option-cases (change_credentials sodium salt actor new_name c a.user_store.users)) [
      | inl e ↦ absurd (ground (arith, e))
      | inr ((us, done), e) ↦ ground (arith, e)
    ]

taken_twice :
    (sodium : Sodium) (salt actor : ℕ) (new_name : Str) (c : Credentials) (us : List User)
    (other : User) {us' : List User}
    → Memᴰ other us
    → other.user_id ≢ actor
    → other.name ≡ new_name
    → change_credentials sodium salt actor new_name c us ≡ some (us', true)
    → 2 ≤ name_count new_name us'
taken_twice sodium salt actor new_name c us other {us'} stored else_id named h =
    let counted = le-sum (others_named actor new_name) us stored in
    let changed = change_credentials-counts sodium salt actor new_name c us {us' = us'} h in
    ground (arith, counted, changed, else_id, named, eq_str_iff other.name new_name)

-- The users, where all but one have other names.
abbrev rename : ℕ → (User → Str) → User → User
rename actor name_of u = if u.user_id == actor then u else record u { name = name_of u }

abbrev pub rename_others : ℕ → (User → Str) → List User → List User
rename_others actor name_of us = map (rename actor name_of) us

abbrev pub with_users : List User → Authenticator → Authenticator
with_users us a = record a { user_store = record (a.user_store) { users = us } }

mem_rename_others :
    (actor : ℕ) (name_of : User → Str) (us : List User) {u : User}
    → Memᴰ u us
    → Memᴰ (rename actor name_of u) (rename_others actor name_of us)
mem_rename_others actor name_of [] m = elim m [ ]
mem_rename_others actor name_of (x ∷ us) (Memᴰ.head e) = Memᴰ.head (ap (rename actor name_of) e)
mem_rename_others actor name_of (x ∷ us) (Memᴰ.tail m) =
    Memᴰ.tail (mem_rename_others actor name_of us m)

behind-some :
    (u : User) (o : Option (List User × Bool))
    → ((rest : List User) × (o ≡ some (rest, true)))
    → (rest : List User) × (behind u o ≡ some (rest, true))
behind-some u o (rest, e) = (u ∷ rest, rw e refl)

-- The names of the others make no difference to the success.
change_credentials-rename_others :
    (sodium : Sodium) (salt actor : ℕ) (new_name : Str) (c : Credentials) (name_of : User → Str)
    (us : List User) {us' : List User}
    → change_credentials sodium salt actor new_name c us ≡ some (us', true)
    → (vs : List User) × (change_credentials sodium salt actor new_name c
          (rename_others actor name_of us)
        ≡ some (vs, true))
unfolding change_credentials
change_credentials-rename_others sodium salt actor new_name c name_of [] h = cc
change_credentials-rename_others sodium salt actor new_name c name_of (u ∷ us) {us'} h =
    let change = change_credentials sodium salt actor new_name c us in
    let change' =
      change_credentials sodium salt actor new_name c (rename_others actor name_of us) in
    let later : behind u change ≡ some (us', true)
        → (vs : List User) × (behind (rename actor name_of u) change' ≡ some (vs, true)) =
      λ e.
        let (rest, e', split) = behind-inv u change e in
        behind-some (rename actor name_of u) change' (
          change_credentials-rename_others sodium salt actor new_name c name_of us {us' = rest}
            e') in
    elim (ℕ_discrete u.user_id actor) [
      | no other ↦ let (vs, e) = later (ground (arith, other)) in (vs, ground (arith, e, other))
      | yes same ↦ elim (Change-cases (change_user sodium salt new_name c u)) [
        | inl e ↦ absurd (ground (arith, e, same))
        | inr (inl e) ↦
            let (vs, e') = later (ground (arith, e, same)) in (vs, ground (arith, e, e', same))
        | inr (inr (u', done, e)) ↦
            let yes_done : done ≡ true = ground (arith, e, same) in
            (u' ∷ rename_others actor name_of us, ground (arith, e, same, yes_done))
      ]
    ]

-- `userChangeCredentials` does not ask whether the new name is free: where it returns OK, it also
-- returns OK if the other users have any other names; and if one of these is the new name, then two
-- users have it.
pub user_change_credentials-takes :
    (sodium : Sodium) (salt actor : ℕ) (new_name : Str) (c : Credentials) (a : Authenticator)
    (name_of : User → Str) (other : User) {a' : Authenticator}
    → user_change_credentials sodium salt actor new_name c a ≡ some (a', AuthStatus.ok)
    → Memᴰ other a.user_store.users
    → other.user_id ≢ actor
    → name_of other ≡ new_name
    → let b = with_users (rename_others actor name_of a.user_store.users) a in
      (b' : Authenticator) × (user_change_credentials sodium salt actor new_name c b
        ≡ some (b', AuthStatus.ok))
      × (2 ≤ name_count new_name b'.user_store.users)
unfolding user_change_credentials
user_change_credentials-takes sodium salt actor new_name c a name_of other {a'} h stored else_id
      named =
    let us = rename_others actor name_of a.user_store.users in
    let (vs, e) =
      change_credentials-rename_others sodium salt actor new_name c name_of a.user_store.users
        {us' = a'.user_store.users} (change_credentials-of sodium salt actor new_name c a h) in
    (
      with_users vs a,
      ground (arith, e),
      taken_twice sodium salt actor new_name c us (rename actor name_of other) {us' = vs}
          (mem_rename_others actor name_of a.user_store.users stored) (ground (arith, else_id))
          (ground (arith, else_id, named)) e,
    )
