-- ===== src/Authenticator/Removal.antt =====
-- What `userRemove` of src/auth/Authenticator.cpp leaves behind.
use native.Mathlib.Decide.{ℕ_discrete}
use teilpunkt.Base.{ℕ, ◌≤◌, ◌≡◌, ◌≢◌, ap, none, some, Str, ◌↔◌, arith, if◌then◌else◌}
use teilpunkt.SessionStorage.{SessionMetaData}
use teilpunkt.Users
use teilpunkt.Users.{
  Sodium, CredentialsType, Credentials, User, UserStorage, RequestUserLoginPassword, name_exists,
  stored_credentials, login_password, remove_user, has_user, change_credentials, change_user,
  behind, get_name, server_id, ends, returns, goes_on, Change,
}
use teilpunkt.Users.Counts.{id_count}
use teilpunkt.Users.Login.{login_password-ne_removed}
use teilpunkt.Authenticator.{
  AuthStatus, Authenticator, user_remove, user_login_password, session_auth,
}

module _ (actor user : ℕ) (a : Authenticator) where
  pub user_remove-eq-none : actor ≢ user → user_remove actor user a ≡ none
  unfolding user_remove
  user_remove-eq-none other = ground arith

  pub user_remove_self :
      actor ≡ user
      → user_remove actor user a
        ≡ some (
          record a {
            user_store = record a.user_store { users = remove_user user a.user_store.users };
          },
          if has_user user a.user_store.users then AuthStatus.ok else AuthStatus.err_unsuccessful,
        )
  unfolding user_remove Users.remove
  user_remove_self same = ground arith

  -- `userRemove` returns exactly if users remove themselves: for another user, whoever asks, it holds
  -- the lock while `getIsAdmin` waits for the same lock.
  pub user_remove_returns_iff : (user_remove actor user a ≢ none) ↔ (actor ≡ user)
  user_remove_returns_iff = (
    λ returned. elim (ℕ_discrete actor user) [
      | yes same ↦ same
      | no other ↦ absurd (returned (user_remove-eq-none other))
    ],
    λ same e. cc (e, user_remove_self same),
  )

-- When a user, whose identifier no other has, has removed their own account, no request logs that
-- user in; but every session that let them in before still does, with the same outcome.
pub session_auth-user_remove :
    (sodium : Sodium) (time : ℕ) (request : RequestUserLoginPassword) (now user : ℕ) (token : Str)
    (meta_data : SessionMetaData) (a : Authenticator) {a' : Authenticator}
    → id_count user a.user_store.users ≤ 1
    → user_remove user user a ≡ some (a', AuthStatus.ok)
    → ((user_login_password sodium time request a').1 ≢ some user)
      × ((session_auth now user token meta_data a').1 ≡ (session_auth now user token meta_data a).1)
      × ((session_auth now user token meta_data a').2 ≡ (session_auth now user token meta_data a).2)
unfolding user_remove session_auth user_login_password Users.remove
session_auth-user_remove sodium time request now user token meta_data a {a'} once h =
    let users : a'.user_store.users ≡ remove_user user a.user_store.users = ground (arith, h) in
    (
      λ logs_in.
          login_password-ne_removed sodium time request a.user_store.users user once
            (ground (arith, ap (login_password sodium time request) users, logs_in)),
      ground arith,
      ground arith,
    )
