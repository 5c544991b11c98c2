-- ===== src/Authenticator/Login.antt =====
-- A user who has registered by `userAdd` of src/auth/Authenticator.cpp, and logs in.
use teilpunkt.Base.{
  ℕ, ◌≡◌, refl, ap, ◌∙◌, some, List, [], ◌∷◌, ◌++◌, Str, eq_str_iff, arith, Bool, Option-cases, inl,
  inr, true, false, length, take,
}
use teilpunkt.Base32.{Byte}
use teilpunkt.Totp.{first_of, generate_totp_key}
use teilpunkt.Totp.Rfc.{PadsKeys, rfc_6238, verify_totp_iff}
use teilpunkt.Users
use teilpunkt.Users.{
  Sodium, CredentialsType, Credentials, User, UserStorage, RequestUserLoginPassword, name_exists,
  stored_credentials, accepts, login_password,
}
use teilpunkt.Authenticator.{AuthStatus, Authenticator, user_add, user_login_password}

-- What libsodium documents: `crypto_pwhash_str_verify` accepts the password that a string of
-- `crypto_pwhash_str` was made of, and HMAC pads short keys with zeros.
pub record IsDocumented (sodium : Sodium) : Type 0 where
  pub verifies :
      (salt : ℕ) (password hash : Str)
      → sodium.pwhash_str salt password ≡ some hash
      → sodium.pwhash_str_verify hash password ≡ true
  pub pads : PadsKeys sodium.hmacsha512

module _ (sodium : Sodium) (salt : ℕ) (drawn : List Byte) where
  -- A registration that succeeds has found the name free and hashed the password.
  record Registered (name : Str) (out : Credentials) (a a' : Authenticator) (key : Str)
      : Type 0 where
    hash : Str
    free : name_exists name a.user_store.users ≡ false
    by_password : out.type ≡ CredentialsType.password
    hashed : sodium.pwhash_str salt out.password ≡ some hash
    key_made : key ≡ generate_totp_key drawn
    users :
        a'.user_store.users
        ≡ a.user_store.users
          ++ record {
            name = name;
            credentials = record out { password = hash; totp_key = generate_totp_key drawn };
            user_id = a.user_store.curr_user_id;
          }
            ∷ []

  user_add-Registered :
      (restricted : Bool) (name : Str) (out : Credentials) (a : Authenticator) {a' : Authenticator}
      {key : Str}
      → user_add sodium salt drawn restricted name out a ≡ (a', AuthStatus.ok, some key)
      → Registered name out a a' key
  unfolding user_add Users.add stored_credentials
  user_add-Registered restricted name out a {a'} {key} h =
      elim (Option-cases (sodium.pwhash_str salt out.password)) [
        | inl failed ↦ absurd (ground (arith, failed))
        | inr (hash, hashed) ↦ record {
          hash = hash;
          free = ground (arith, hashed);
          by_password = ground (arith, hashed);
          hashed = hashed;
          key_made = ground (arith, hashed);
          users = ground (arith, hashed);
        }
      ]

-- The search of `loginPassword` goes past the users with other names.
login_password-append :
    (sodium : Sodium) (time : ℕ) (request : RequestUserLoginPassword) (us : List User) (u : User)
    → name_exists request.name us ≡ false
    → u.name ≡ request.name
    → accepts sodium time request u.credentials ≡ true
    → login_password sodium time request (us ++ u ∷ []) ≡ some u.user_id
unfolding login_password name_exists
login_password-append sodium time request [] u free same accepted =
    ground (arith, eq_str_iff u.name request.name)
login_password-append sodium time request (v ∷ us) u free same accepted =
    ground (arith, login_password-append sodium time request us u)

-- A user whose registration has succeeded can log in, with the name and the password of the
-- registration and a code whose first six characters are what RFC 6238 has, at that time, for the
-- first 30 of the bytes that the registration drew. The login then returns the identifier that the
-- counter of the users had.
pub user_login_password-user_add :
    (sodium : Sodium) (salt : ℕ) (drawn : List Byte) (restricted : Bool) (name : Str)
    (out : Credentials) (time : ℕ) (code : Str) (a : Authenticator) {a' : Authenticator} {key : Str}
    → IsDocumented sodium
    → length drawn ≡ 32
    → user_add sodium salt drawn restricted name out a ≡ (a', AuthStatus.ok, some key)
    → first_of 0 6 code ≡ rfc_6238 sodium.hmacsha512 (take 30 drawn) time
    → user_login_password sodium time
        (record { name = name; password = out.password; totp = code })
        a'
      ≡ (AuthStatus.ok, some a.user_store.curr_user_id)
unfolding user_login_password accepts
user_login_password-user_add sodium salt drawn restricted name out time code a {a'} {key} d size h
      shown =
    let r = user_add-Registered sodium salt drawn restricted name out a h in
    let request : RequestUserLoginPassword = record {
      name = name;
      password = out.password;
      totp = code;
    } in
    let new : User = record {
      name = name;
      credentials = record out { password = r.hash; totp_key = generate_totp_key drawn };
      user_id = a.user_store.curr_user_id;
    } in
    let right_code = (verify_totp_iff sodium.hmacsha512 time drawn code d.pads size).1 shown in
    let right_password = d.verifies salt out.password r.hash r.hashed in
    let accepted : accepts sodium time request new.credentials ≡ true =
      ground (arith, r.by_password, right_code, right_password) in
    let logs_in =
      ap (login_password sodium time request) r.users
      ∙ login_password-append sodium time request a.user_store.users new r.free refl accepted in
    ground (arith, logs_in)
