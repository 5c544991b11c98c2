-- ===== src/Authenticator/Tests.antt =====
-- The operations of src/auth/Authenticator.cpp for made-up functions in place of libsodium's.
use mathlib.Core.List.Memᴰ
use teilpunkt.Base.{
  ℕ, ◌≡◌, ◌≢◌, ◌≤◌, ◌↔◌, refl, false, none, some, List, [], ◌∷◌, Str, str, eq_str, eq_str_iff,
  arith,
}
use teilpunkt.Base32.{Byte, of_nat}
use teilpunkt.Totp.{replicate, generate_totp_key}
use teilpunkt.SessionStorage
use teilpunkt.SessionStorage.{
  get_user_session_data, set_sessions, auth_session, erase_if, erase_rounds, is_expired,
  find_session, is_valid, same_meta_data, erase_first, SessionMetaData,
}
use teilpunkt.Users
use teilpunkt.Users.{
  Sodium, CredentialsType, Credentials, User, RequestUserLoginPassword, name_exists,
  stored_credentials, remove_user, change_credentials, change_user, same_credentials, has_user,
}
use teilpunkt.Users.Counts.{name_count}
use teilpunkt.Authenticator.{
  AuthStatus, Authenticator, user_add, user_login_password, user_remove, user_change_credentials,
  session_auth, is_valid_user_name, is_valid_password, is_alpha, is_digit,
}
use teilpunkt.Authenticator.Login.{IsDocumented, user_login_password-user_add}
use teilpunkt.Authenticator.Removal.{session_auth-user_remove, user_remove_returns_iff}
use teilpunkt.Authenticator.Order.{Event, registers, removes, run, IsOrdered, run-IsOrdered}
use teilpunkt.Authenticator.Renaming.{user_change_credentials-takes}

abbrev toy_sodium : Sodium
toy_sodium = record {
  pwhash_str = λ salt password. some (b'$' ∷ password);
  pwhash_str_verify = λ hash password. eq_str hash (b'$' ∷ password);
  hmacsha512 = λ key message. replicate 64 (of_nat 1);
}

toy_sodium-IsDocumented : IsDocumented toy_sodium
toy_sodium-IsDocumented = record {
  verifies = λ salt password hash h. ground (arith, h, eq_str_iff hash (b'$' ∷ password));
  pads = λ key message n h. refl;
}

abbrev secret : Str
secret = str "01234567890123456789012345678901"

abbrev credentials : Credentials
credentials = record {
  type = CredentialsType.password;
  password = secret;
  totp_key = [];
  passkey = [];
}

abbrev empty : Authenticator
empty = record { user_store = record { users = []; curr_user_id = 77 }; session_store = [] }

abbrev drawn : List Byte
drawn = replicate 32 (of_nat 3)

abbrev with_anna : Authenticator
with_anna = (user_add toy_sodium 0 drawn false (str "anna") credentials empty).0

registration :
    user_add toy_sodium 0 drawn false (str "anna") credentials empty
    ≡ (with_anna, AuthStatus.ok, some (generate_totp_key drawn))
unfolding user_add Users.add stored_credentials name_exists is_valid_user_name is_valid_password
    is_alpha is_digit
registration = refl

user_login_password-user_add_example :
    user_login_password toy_sodium 0
      (record { name = str "anna"; password = secret; totp = str "843009" })
      with_anna
    ≡ (AuthStatus.ok, some 77)
user_login_password-user_add_example =
    user_login_password-user_add toy_sodium 0 drawn false (str "anna") credentials 0 (str "843009")
      empty toy_sodium-IsDocumented refl registration refl

abbrev user_named : Str → ℕ → User
user_named name id = record { name = name; credentials = credentials; user_id = id }

abbrev browser : SessionMetaData
browser = record { user_agent = str "browser"; remote_address = str "::1" }

-- Two users, the first with a session
abbrev two_users : Authenticator
two_users = record {
  user_store = record {
    users = user_named (str "anna") 5 ∷ user_named (str "bert") 6 ∷ [];
    curr_user_id = 7;
  };
  session_store =
      record {
        user = 5;
        sessions =
            record { token = str "token"; meta_data = browser; creation = 1; expiration = 100 }
            ∷ [];
      }
      ∷ [];
}

abbrev without_anna : Authenticator
without_anna = record two_users {
  user_store = record { users = user_named (str "bert") 6 ∷ []; curr_user_id = 7 };
}

removal : user_remove 5 5 two_users ≡ some (without_anna, AuthStatus.ok)
unfolding user_remove Users.remove remove_user has_user erase_first
removal = refl

still_admitted : (session_auth 9 5 (str "token") browser without_anna).2 ≡ some 5
unfolding session_auth SessionStorage.get get_user_session_data set_sessions auth_session erase_if
    erase_rounds is_expired find_session is_valid same_meta_data eq_str
still_admitted = refl

session_auth-user_remove_example :
    ((user_login_password toy_sodium 0
        (record { name = str "anna"; password = secret; totp = [] })
        without_anna).1
      ≢ some 5)
    × ((session_auth 9 5 (str "token") browser without_anna).1
        ≡ (session_auth 9 5 (str "token") browser two_users).1)
    × ((session_auth 9 5 (str "token") browser without_anna).2
        ≡ (session_auth 9 5 (str "token") browser two_users).2)
session_auth-user_remove_example =
    session_auth-user_remove toy_sodium 0
      (record { name = str "anna"; password = secret; totp = [] }) 9 5 (str "token") browser
      two_users (omega arith) removal

user_remove_returns_iff_example : (user_remove 6 5 two_users ≢ none) ↔ (◌≡◌ {A = ℕ} 6 5)
user_remove_returns_iff_example = user_remove_returns_iff 6 5 two_users

empty-IsOrdered : IsOrdered empty
empty-IsOrdered = record {
  names_once = λ name. omega arith;
  ids_once = λ user. omega arith;
  ids_drawn = λ user h. omega arith;
}

abbrev events : List Event
events =
    registers toy_sodium 0 drawn false (str "anna") credentials
    ∷ registers toy_sodium 0 drawn false (str "anna") credentials
    ∷ registers toy_sodium 0 drawn false (str "bert") credentials
    ∷ removes 77 77
    ∷ []

run-IsOrdered_example : IsOrdered (run events empty)
run-IsOrdered_example = run-IsOrdered events empty (omega arith) empty-IsOrdered

abbrev other : Credentials
other = record credentials { password = str "x1234567890123456789012345678901" }

-- Nobody is named bert yet.
abbrev anna_and_cora : Authenticator
anna_and_cora = record two_users {
  user_store = record {
    users = user_named (str "anna") 5 ∷ user_named (str "cora") 6 ∷ [];
    curr_user_id = 7;
  };
}

abbrev renamed : Authenticator
renamed = record two_users {
  user_store = record {
    users =
        record (user_named (str "bert") 5) {
          credentials = record other { password = b'$' ∷ other.password };
        }
        ∷ user_named (str "cora") 6
        ∷ [];
    curr_user_id = 7;
  };
}

renaming :
    user_change_credentials toy_sodium 0 5 (str "bert") other anna_and_cora
    ≡ some (renamed, AuthStatus.ok)
unfolding user_change_credentials change_credentials change_user same_credentials is_valid_user_name
    is_valid_password is_alpha is_digit eq_str
renaming = refl

-- If cora is named bert, anna can still become bert, too.
user_change_credentials-takes_example :
    (b' : Authenticator) × (user_change_credentials toy_sodium 0 5 (str "bert") other two_users
      ≡ some (b', AuthStatus.ok))
    × (2 ≤ name_count (str "bert") b'.user_store.users)
user_change_credentials-takes_example =
    user_change_credentials-takes toy_sodium 0 5 (str "bert") other anna_and_cora (λ u. str "bert")
      (user_named (str "cora") 6) renaming (Memᴰ.tail (Memᴰ.head refl)) (omega arith) refl
