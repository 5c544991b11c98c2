-- ===== src/Users.antt =====
-- src/auth/UserStorage.cpp: the users of an instance. libsodium's password hashing is a parameter;
-- what an operation reads of the random generator and the clock is an argument. A `UserID` is a
-- number; the resource keys of a user, which nothing reads, are left out.
pub mod Counts
pub mod Login
mod Tests
use teilpunkt.Base.{
  ℕ, zero, suc, ◌+◌, ◌%◌, ◌/◌, ◌==◌, Str, str, eq_str, Bool, true, false, not, ◌&&◌, ◌||◌, Option,
  none, some, List, [], ◌∷◌, ◌++◌, if◌then◌else◌,
}
use teilpunkt.Base32.{Byte}
use teilpunkt.SessionStorage.{erase_first}
use teilpunkt.Totp.{Hmac, generate_totp_key, verify_totp}

-- `crypto_pwhash_str`, with the salt that it draws, `none` where it fails; `crypto_pwhash_str_verify`;
-- and `crypto_auth_hmacsha512`.
pub record Sodium : Type 0 where
  pub pwhash_str : ℕ → Str → Option Str
  pub pwhash_str_verify : Str → Str → Bool
  pub hmacsha512 : Hmac

pub data CredentialsType : Type 0 where
  invalid : CredentialsType
  password : CredentialsType
  passkey : CredentialsType

pub record Credentials : Type 0 where
  pub type : CredentialsType
  pub password : Str
  pub totp_key : Str
  pub passkey : Str

pub record User : Type 0 where
  pub name : Str
  pub credentials : Credentials
  pub user_id : ℕ

pub record UserStorage : Type 0 where
  pub users : List User
  pub curr_user_id : ℕ

pub record RequestUserLoginPassword : Type 0 where
  pub name : Str
  pub password : Str
  pub totp : Str

-- `UserID::INVALID` and `UserID::SERVER`
abbrev pub invalid_id : ℕ
invalid_id = 0

abbrev pub server_id : ℕ
server_id = 1

-- The constructor: half of what was drawn, and the next draw if that is zero.
unfoldable pub first_user_id : List ℕ → Option ℕ
first_user_id [] = none
first_user_id (drawn ∷ rest) =
    let next = first_user_id rest in if drawn / 2 == 0 then next else some (drawn / 2)

unfoldable pub name_exists : Str → List User → Bool
unfolding eq_str
name_exists name [] = false
name_exists name (u ∷ us) = eq_str u.name name || name_exists name us

unfoldable pub get_name : ℕ → List User → Option Str
get_name user [] = if user == server_id then some (str "Server") else none
get_name user (u ∷ us) =
    let rest = get_name user us in
    if user == server_id
    then some (str "Server")
    else if u.user_id == user
    then some u.name
    else rest

-- `remove`: the last user takes the place of the one that goes.
unfoldable pub remove_user : ℕ → List User → List User
unfolding erase_first
remove_user user [] = []
remove_user user (u ∷ us) =
    let rest = remove_user user us in if u.user_id == user then erase_first us else u ∷ rest

unfoldable pub has_user : ℕ → List User → Bool
has_user user [] = false
has_user user (u ∷ us) = u.user_id == user || has_user user us

unfoldable pub remove : ℕ → UserStorage → UserStorage × Bool
unfolding remove_user has_user
remove user s = (record s { users = remove_user user s.users }, has_user user s.users)

-- What `changeCredentials` does at the user: it ends the program, returns, or goes on.
pub data Change : Type 0 where
  ends : Change
  returns : (user : User) (changed : Bool) → Change
  goes_on : Change

-- A user that stays, before what was done to the others
abbrev pub behind : User → Option (List User × Bool) → Option (List User × Bool)
behind u none = none
behind u (some (us, done)) = some (u ∷ us, done)

module _ (sodium : Sodium) where
  -- What `add` stores for the credentials, with a new key for the codes.
  unfoldable pub stored_credentials : ℕ → List Byte → Credentials → Option Credentials
  unfolding generate_totp_key
  stored_credentials salt drawn c = elim c.type [
    | CredentialsType.invalid ↦ none
    | CredentialsType.passkey ↦ none
    | CredentialsType.password ↦ elim (sodium.pwhash_str salt c.password) [
      | none ↦ none
      | some hash ↦ some (record c { password = hash; totp_key = generate_totp_key drawn })
    ]
  ]

  -- The new key is returned where a user was added.
  unfoldable pub add : ℕ → List Byte → Str → Credentials → UserStorage → UserStorage × Option Str
  unfolding stored_credentials
  add salt drawn name credentials s = elim (stored_credentials salt drawn credentials) [
    | none ↦ (s, none)
    | some stored ↦ (
      record {
        users =
            s.users ++ record { name = name; credentials = stored; user_id = s.curr_user_id } ∷ [];
        curr_user_id = (s.curr_user_id + 1) % 4294967296;
      },
      some stored.totp_key,
    )
  ]

  -- What `loginPassword` does at the user whose name it is
  unfoldable pub accepts : ℕ → RequestUserLoginPassword → Credentials → Bool
  unfolding verify_totp
  accepts time request c = elim c.type [
    | CredentialsType.invalid ↦ false
    | CredentialsType.passkey ↦ false
    | CredentialsType.password ↦
        verify_totp sodium.hmacsha512 time c.totp_key request.totp
        && sodium.pwhash_str_verify c.password request.password
  ]

  unfoldable pub login_password : ℕ → RequestUserLoginPassword → List User → Option ℕ
  unfolding eq_str accepts
  login_password time request [] = none
  login_password time request (u ∷ us) =
      let rest = login_password time request us in
      if not (eq_str u.name request.name)
      then rest
      else if accepts time request u.credentials
      then some u.user_id
      else none

  -- `operator==` of Credentials; `none` is the end of the program.
  unfoldable pub same_credentials : Credentials → Credentials → Option Bool
  unfolding eq_str
  same_credentials a b = elim a.type [
    | CredentialsType.invalid ↦ elim b.type [ CredentialsType.invalid ↦ none | _ ↦ some false ]
    | CredentialsType.password ↦ elim b.type [
      | CredentialsType.password ↦ some (eq_str a.password b.password)
      | _ ↦ some false
    ]
    | CredentialsType.passkey ↦ elim b.type [
      | CredentialsType.passkey ↦ some (eq_str a.passkey b.passkey)
      | _ ↦ some false
    ]
  ]

  unfoldable pub change_user : ℕ → Str → Credentials → User → Change
  unfolding same_credentials
  change_user salt new_name c u = elim (same_credentials u.credentials c) [
    | none ↦ ends
    | some true ↦ returns (record u { name = new_name }) true
    | some false ↦ elim c.type [
      | CredentialsType.invalid ↦ returns u false
      | CredentialsType.passkey ↦ goes_on
      | CredentialsType.password ↦ elim (sodium.pwhash_str salt c.password) [
        | none ↦ returns u false
        | some hash ↦
            returns (record u { name = new_name; credentials = record c { password = hash } }) true
      ]
    ]
  ]

  -- The users after it and whether it succeeded; `none` where the program has ended.
  unfoldable pub change_credentials :
      ℕ → ℕ → Str → Credentials → List User → Option (List User × Bool)
  unfolding change_user
  change_credentials salt user new_name c [] = some ([], false)
  change_credentials salt user new_name c (u ∷ us) =
      let rest = behind u (change_credentials salt user new_name c us) in
      if u.user_id == user
      then elim (change_user salt new_name c u) [
        | ends ↦ none
        | returns u' done ↦ some (u' ∷ us, done)
        | goes_on ↦ rest
      ]
      else rest
