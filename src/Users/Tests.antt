-- ===== src/Users/Tests.antt =====
-- The users of src/auth/UserStorage.cpp for made-up functions in place of libsodium's.
use teilpunkt.Base.{
  ℕ, ◌==◌, ◌≡◌, ◌↔◌, none, some, List, [], ◌∷◌, Str, str, eq_str, arith, if◌then◌else◌,
}
use teilpunkt.Base32.{of_nat}
use teilpunkt.Totp.{replicate}
use teilpunkt.Users.{
  Sodium, CredentialsType, User, RequestUserLoginPassword, login_password, remove_user,
}
use teilpunkt.Users.Login.{LogsIn, login_password_iff, login_password-remove_user}

-- A hash is the password behind a mark, and every HMAC is the same.
abbrev toy_sodium : Sodium
toy_sodium = record {
  pwhash_str = λ salt password. some (b'$' ∷ password);
  pwhash_str_verify = λ hash password. eq_str hash (b'$' ∷ password);
  hmacsha512 = λ key message. replicate 64 (of_nat 1);
}

abbrev user_named : Str → ℕ → User
user_named name id = record {
  name = name;
  credentials = record {
    type = CredentialsType.password;
    password = str "$secret";
    totp_key = [];
    passkey = [];
  };
  user_id = id;
}

abbrev users : List User
users = user_named (str "anna") 5 ∷ user_named (str "bert") 6 ∷ user_named (str "carl") 7 ∷ []

abbrev request : RequestUserLoginPassword
request = record { name = str "carl"; password = str "secret"; totp = str "843009" }

login_password_iff_example :
    (login_password toy_sodium 0 request users ≡ some 7) ↔ LogsIn toy_sodium 0 request users 7
login_password_iff_example =
    login_password_iff toy_sodium 0 request users 7 (unfold eq_str in omega arith)

login_password-remove_user_example :
    login_password toy_sodium 0 request (remove_user 5 users)
    ≡ (elim (login_password toy_sodium 0 request users) [
      | none ↦ none
      | some id ↦ if id == 5 then none else some id
    ])
login_password-remove_user_example =
    login_password-remove_user toy_sodium 0 request users 5 (unfold eq_str in omega arith)
      (omega arith)
