-- ===== src/Authenticator.antt =====
-- src/auth/Authenticator.cpp: the users and their sessions behind one lock, with `IsValidUserName`
-- and `IsValidPassword` of src/util/Strings.cpp. An operation takes no time and logs nothing.
pub mod Login
pub mod Removal
pub mod Order
pub mod Renaming
mod Tests
use teilpunkt.Base.{
  ℕ, ◌+◌, ◌==◌, ltb, leb, Str, Bool, true, false, not, ◌&&◌, ◌||◌, Option, none, some, List, length,
  all, if◌then◌else◌,
}
use teilpunkt.Base32.{Byte}
use teilpunkt.SessionStorage
use teilpunkt.SessionStorage.{Config, SessionMetaData, UserSessionData, SessionInfo, get_info}
use teilpunkt.Users
use teilpunkt.Users.{
  Sodium, Credentials, UserStorage, RequestUserLoginPassword, name_exists, login_password,
  change_credentials, get_name, invalid_id, server_id,
}

pub data AuthStatus : Type 0 where
  invalid : AuthStatus
  ok : AuthStatus
  err_unsuccessful : AuthStatus
  err_user_name_exists : AuthStatus
  err_invalid_arguments : AuthStatus
  err_no_admin : AuthStatus

pub record Authenticator : Type 0 where
  pub user_store : UserStorage
  pub session_store : List UserSessionData

-- `isalpha` and `isdigit` in the "C" locale
unfoldable pub is_alpha : ℕ → Bool
is_alpha c = leb b'A' c && leb c b'Z' || leb b'a' c && leb c b'z'

unfoldable pub is_digit : ℕ → Bool
is_digit c = leb b'0' c && leb c b'9'

unfoldable pub is_valid_user_name : Str → Bool
unfolding is_alpha is_digit
is_valid_user_name name =
    if ltb (length name) 3 || ltb 16 (length name)
    then false
    else all (λ c. is_alpha c || is_digit c) name

unfoldable pub is_valid_password : Str → Bool
is_valid_password password = length password == 32

-- The key is written to the credentials where a user is added.
unfoldable pub user_add :
    Sodium
    → ℕ
    → List Byte
    → Bool
    → Str
    → Credentials
    → Authenticator
    → Authenticator × AuthStatus × Option Str
unfolding is_valid_user_name is_valid_password
user_add sodium salt drawn only_admin_create_account name out a =
    if not (is_valid_user_name name) || not (is_valid_password out.password)
    then (a, AuthStatus.err_invalid_arguments, none)
    else if only_admin_create_account
    then (a, AuthStatus.err_unsuccessful, none)
    else if name_exists name a.user_store.users
    then (a, AuthStatus.err_user_name_exists, none)
    else (let (store, key) = Users.add sodium salt drawn name out a.user_store in
        elim key [
          | none ↦ (a, AuthStatus.err_unsuccessful, none)
          | some k ↦ (record a { user_store = store }, AuthStatus.ok, some k)
        ])

unfoldable pub user_login_password :
    Sodium → ℕ → RequestUserLoginPassword → Authenticator → AuthStatus × Option ℕ
user_login_password sodium time consumed a =
    elim (login_password sodium time consumed a.user_store.users) [
      | none ↦ (AuthStatus.err_unsuccessful, none)
      | some user ↦ (AuthStatus.ok, some user)
    ]

-- `getIsAdmin`. The argument says whether the caller holds the lock, which `userRemove` alone does;
-- what other threads hold is left out. `Spinlock::lock` waits while the flag is set: `none` where the
-- caller itself has set it, since then nobody clears it.
unfoldable pub get_is_admin : Bool → ℕ → Option AuthStatus
get_is_admin locked user =
    if locked
    then none
    else if user == server_id
    then some AuthStatus.ok
    else some AuthStatus.invalid

-- The guard has set the flag of the lock.
unfoldable pub user_remove : ℕ → ℕ → Authenticator → Option (Authenticator × AuthStatus)
unfolding get_is_admin
user_remove actor user a =
    let remove : Option (Authenticator × AuthStatus) =
      (let (store, removed) = Users.remove user a.user_store in
        some (
          record a { user_store = store },
          if removed then AuthStatus.ok else AuthStatus.err_unsuccessful,
        )) in
    if not (actor == user)
    then elim (get_is_admin true actor) [
      | none ↦ none
      | some AuthStatus.ok ↦ remove
      | some _ ↦ some (a, AuthStatus.err_no_admin)
    ]
    else remove

-- `none` where the program has ended.
unfoldable pub user_change_credentials :
    Sodium → ℕ → ℕ → Str → Credentials → Authenticator → Option (Authenticator × AuthStatus)
unfolding is_valid_user_name is_valid_password
user_change_credentials sodium salt actor new_name consumed a =
    if not (is_valid_user_name new_name) || not (is_valid_password consumed.password)
    then some (a, AuthStatus.err_invalid_arguments)
    else elim (change_credentials sodium salt actor new_name consumed a.user_store.users) [
      | none ↦ none
      | some (users, done) ↦ some (
        record a { user_store = record a.user_store { users = users } },
        if done then AuthStatus.ok else AuthStatus.err_unsuccessful,
      )
    ]

unfoldable pub session_add :
    ℕ → Config → Str → ℕ → SessionMetaData → Authenticator → Authenticator × AuthStatus × Option Str
session_add now config drawn actor meta_data a =
    if actor == invalid_id
    then (a, AuthStatus.err_invalid_arguments, none)
    else (let (sessions, token) =
          SessionStorage.add now config drawn actor meta_data a.session_store in
        (
          record a { session_store = sessions },
          elim token [ none ↦ AuthStatus.err_unsuccessful | some _ ↦ AuthStatus.ok ],
          token,
        ))

unfoldable pub session_remove : ℕ → ℕ → Authenticator → Authenticator × AuthStatus
session_remove actor creation a =
    let (sessions, removed) = SessionStorage.remove actor creation a.session_store in
    (
      record a { session_store = sessions },
      if removed then AuthStatus.ok else AuthStatus.err_unsuccessful,
    )

unfoldable pub session_auth :
    ℕ → ℕ → Str → SessionMetaData → Authenticator → Authenticator × AuthStatus × Option ℕ
session_auth now lookup session_id meta_data a =
    let (sessions, user) = SessionStorage.get now lookup session_id meta_data a.session_store in
    (
      record a { session_store = sessions },
      elim user [ none ↦ AuthStatus.err_unsuccessful | some _ ↦ AuthStatus.ok ],
      user,
    )

unfoldable pub session_get_info : ℕ → Authenticator → AuthStatus × Option (List SessionInfo)
session_get_info actor a = elim (get_info actor a.session_store) [
  | none ↦ (AuthStatus.err_unsuccessful, none)
  | some infos ↦ (AuthStatus.ok, some infos)
]

unfoldable pub get_user_name : ℕ → Authenticator → AuthStatus × Option Str
get_user_name user a = elim (get_name user a.user_store.users) [
  | none ↦ (AuthStatus.err_unsuccessful, none)
  | some name ↦ (AuthStatus.ok, some name)
]
