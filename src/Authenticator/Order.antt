-- ===== src/Authenticator/Order.antt =====
-- The names and identifiers that `userAdd` of src/auth/Authenticator.cpp gives.
use native.Mathlib.Decide.{ℕ_discrete}
use teilpunkt.Base.{
  ℕ, ◌+◌, ◌%◌, ◌<◌, ◌≤◌, ◌≡◌, refl, none, some, List, [], ◌∷◌, ◌++◌, Str, eq_str_iff, ◌⊎◌, ◌↔◌,
  arith, Bool, Bool-cases, Option-cases, inl, inr, false, not, ◌||◌, length,
}
use teilpunkt.Base32.{Byte}
use teilpunkt.Users
use teilpunkt.Users.{
  Sodium, CredentialsType, Credentials, User, UserStorage, RequestUserLoginPassword, name_exists,
  stored_credentials, login_password, remove_user, has_user, change_credentials, change_user,
  behind, get_name, server_id, ends, returns, goes_on, Change,
}
use teilpunkt.Users.Counts.{name_count, id_count, has_name, has_id, sum-append, sum-remove_user-le}
use teilpunkt.Authenticator.{
  Authenticator, user_add, user_remove, is_valid_user_name, is_valid_password,
}
use teilpunkt.Authenticator.Removal.{user_remove-eq-none, user_remove_self}

-- What happens to the users, but for a change of credentials.
pub data Event : Type 0 where
  registers :
      (sodium : Sodium) (salt : ℕ) (drawn : List Byte) (restricted : Bool) (name : Str)
      (out : Credentials)
      → Event
  removes : (actor user : ℕ) → Event

unfoldable pub step : Event → Authenticator → Authenticator
step (registers sodium salt drawn restricted name out) a =
    (user_add sodium salt drawn restricted name out a).0
step (removes actor user) a = elim (user_remove actor user a) [ none ↦ a | some (a', status) ↦ a' ]

unfoldable pub run : List Event → Authenticator → Authenticator
unfolding step
run [] a = a
run (event ∷ events) a = run events (step event a)

-- No name and no identifier is given twice, and no identifier before its turn.
pub record IsOrdered (a : Authenticator) : Type 0 where
  pub names_once : (name : Str) → name_count name a.user_store.users ≤ 1
  pub ids_once : (user : ℕ) → id_count user a.user_store.users ≤ 1
  pub ids_drawn :
      (user : ℕ) → a.user_store.curr_user_id ≤ user → id_count user a.user_store.users ≡ 0

name_exists_iff :
    (name : Str) (us : List User) → (name_exists name us ≡ false) ↔ (name_count name us ≡ 0)
unfolding name_exists
name_exists_iff name [] = ground arith
name_exists_iff name (u ∷ us) = ground (arith, name_exists_iff name us)

-- A registration leaves everything alone, or adds a user with a name that was free.
user_add_cases :
    (sodium : Sodium) (salt : ℕ) (drawn : List Byte) (restricted : Bool) (name : Str)
    (out : Credentials) (a : Authenticator)
    → ((user_add sodium salt drawn restricted name out a).0 ≡ a)
      ⊎ ((u : User) × (name_exists name a.user_store.users ≡ false)
          × (u.name ≡ name)
          × (u.user_id ≡ a.user_store.curr_user_id)
          × ((user_add sodium salt drawn restricted name out a).0 ≡ record a {
            user_store = record {
              users = a.user_store.users ++ u ∷ [];
              curr_user_id = (a.user_store.curr_user_id + 1) % 4294967296;
            };
          }))
unfolding user_add Users.add
user_add_cases sodium salt drawn restricted name out a =
    elim (Bool-cases
      (not (is_valid_user_name name) || not (is_valid_password out.password) || restricted)) [
        | inl refused ↦ inl (ground (arith, refused))
        | inr allowed ↦ elim (Bool-cases (name_exists name a.user_store.users)) [
          | inl taken ↦ inl (ground (arith, taken))
          | inr free ↦ elim (Option-cases (stored_credentials sodium salt drawn out)) [
            | inl failed ↦ inl (ground (arith, failed))
            | inr (stored, e) ↦ inr (
              record { name = name; credentials = stored; user_id = a.user_store.curr_user_id },
              free,
              refl,
              refl,
              ground (arith, allowed, free, e),
            )
          ]
        ]
      ]

step-IsOrdered :
    (event : Event) (a : Authenticator)
    → a.user_store.curr_user_id + 1 < 4294967296
    → IsOrdered a
    → IsOrdered (step event a)
      × ((step event a).user_store.curr_user_id ≤ a.user_store.curr_user_id + 1)
unfolding step
step-IsOrdered (registers sodium salt drawn restricted name out) a bound o =
    elim (user_add_cases sodium salt drawn restricted name out a) [
      | inl same ↦ rw same (o, omega arith)
      | inr (u, free, named, id, after) ↦
          let us = a.user_store.users in
          rw after (
            record {
              names_once = λ n. ground (
                arith,
                sum-append (has_name n) us (u ∷ []),
                o.names_once n,
                (name_exists_iff name us).0 free,
                named,
                eq_str_iff u.name n,
              );
              ids_once = λ i.
                  ground
                    (arith, sum-append (has_id i) us (u ∷ []), o.ids_once i, o.ids_drawn i, id);
              ids_drawn =
                  λ i h. ground (arith, sum-append (has_id i) us (u ∷ []), o.ids_drawn i, id);
            },
            omega arith,
          )
    ]
step-IsOrdered (removes actor user) a bound o = elim (ℕ_discrete actor user) [
  | no other ↦ rw (user_remove-eq-none actor user a other, step) (o, omega arith)
  | yes same ↦
      let us = a.user_store.users in
      rw (user_remove_self actor user a same, step)
        (
          record {
            names_once =
                λ n. omega (arith, o.names_once n, sum-remove_user-le (has_name n) user us);
            ids_once = λ i. omega (arith, o.ids_once i, sum-remove_user-le (has_id i) user us);
            ids_drawn =
                λ i h. omega (arith, o.ids_drawn i h, sum-remove_user-le (has_id i) user us);
          },
          omega arith,
        )
]

-- While users register and remove accounts, in any order, no two have the same name or the same
-- identifier, as long as the counter of identifiers does not wrap.
pub run-IsOrdered :
    (events : List Event) (a : Authenticator)
    → a.user_store.curr_user_id + length events < 4294967296
    → IsOrdered a
    → IsOrdered (run events a)
unfolding run
run-IsOrdered [] a bound o = o
run-IsOrdered (event ∷ events) a bound o =
    let (o', next) = step-IsOrdered event a (omega arith) o in
    run-IsOrdered events (step event a) (omega arith) o'
