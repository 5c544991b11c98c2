-- ===== src/Login/Tests.antt =====
-- The login page at concrete texts and answers.
use teilpunkt.Base.{
  ◌≡◌, refl, true, false, some, none, List, [], ◌∷◌, String, str, All, trim, length, only_digits,
}
use teilpunkt.Dom.{value_of, is_invalid, text_of, display_of}
use teilpunkt.Dom.Samples.{document}
use teilpunkt.Crypto.Tests.{blank}
use teilpunkt.Backend.Types.{fulfilled, Response, other}
use teilpunkt.Backend.{fetch_with_error_handling, login_request, login_result}
use teilpunkt.Login.State.{
  Login, Event, hashing, username_input, password_input, totp_input, submit, settle, sodium_ready,
  fetched,
}
use teilpunkt.Login.{load, step, run}
use teilpunkt.Login.Form.{submit_popup}
use teilpunkt.Login.Entering.{SendsCode}
use teilpunkt.Login.Codes.{run-SendsCode}
use teilpunkt.Login.Flow.{login_settles}

abbrev typed : String → String → Login
typed username password = load true (
    document (
      ("username", str username)
      ∷ ("password", str password)
      ∷ ("username-error", str "")
      ∷ ("password-error", str "")
      ∷ ("totpInput", str "")
      ∷ ("totpPopup", str "")
      ∷ ("auth-error", str "")
      ∷ []))

-- Only the password is too short.
abbrev short : Login
short = step blank (typed "ada" " pass ") submit

submit_popup_example :
    (display_of "totpPopup" short.dom ≡ "none")
    × (is_invalid "username" short.dom ≡ false)
    × (is_invalid "password" short.dom ≡ true)
    × (value_of "username" short.dom ≡ str "ada")
    × (value_of "password" short.dom ≡ str " pass ")
    × (value_of "totpInput" short.dom ≡ str "")
    × (short.tasks ≡ [])
    × (short.sent ≡ [])
unfolding load trim
submit_popup_example = submit_popup blank (typed "ada" " pass ") refl refl refl

abbrev waiting : Login
waiting = record (typed "" "") {
  tasks = hashing (str "ada") (str "hunter22") (str "123456") true ∷ [];
}

abbrev accepted : Response
accepted = record {
  is_ok = true;
  text = fulfilled (str "");
  json = fulfilled other;
  blob = fulfilled (str "");
  content_disposition = none;
}

abbrev logged_in : Login
logged_in =
    step blank (step blank waiting (settle 0 (sodium_ready (fulfilled tt))))
      (settle 0 (fetched (fulfilled accepted)))

login_settles_example :
    (logged_in.sent ≡ login_request blank (str "ada") (str "hunter22") (str "123456") ∷ [])
    × (logged_in.tasks ≡ [])
    × (logged_in.location ≡ some "/dashboard")
    × (text_of "auth-error" logged_in.dom ≡ str "")
unfolding load login_result fetch_with_error_handling
login_settles_example =
    login_settles blank waiting (str "ada") (str "hunter22") (str "123456") true
      (fulfilled accepted) refl refl

abbrev session : List Event
session =
    username_input (str "ada")
    ∷ password_input (str "hunter22")
    ∷ submit
    ∷ totp_input (str "123456")
    ∷ settle 0 (sodium_ready (fulfilled tt))
    ∷ []

run-SendsCode_example :
    All
      (SendsCode blank)
      (run blank (load true (document (("totpInput", str "") ∷ []))) session).sent
run-SendsCode_example =
    run-SendsCode blank true (document (("totpInput", str "") ∷ [])) session refl

-- One request is sent in that session.
session_test : length (run blank (typed "" "") session).sent ≡ 1
unfolding run step load only_digits trim
session_test = refl
