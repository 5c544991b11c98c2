-- ===== src/Signup/Tests.antt =====
-- The sign-up page at concrete texts and answers.
use teilpunkt.Base.{
  ◌≡◌, refl, true, false, none, List, [], ◌∷◌, String, str, eq_str, All, trim, length,
}
use teilpunkt.Dom.{
  value_of, is_invalid, text_of, display_of, check_input, element_make_invisible, Dom,
}
use teilpunkt.Dom.Samples.{document}
use teilpunkt.Crypto.Tests.{blank}
use teilpunkt.Qr.{Encoder, show_qr_code}
use teilpunkt.Backend.Types.{fulfilled, rejected, Response, other}
use teilpunkt.Backend.{fetch_with_error_handling, register_request, register_result}
use teilpunkt.Signup.State.{
  Signup, Event, hashing, username_input, password_input, confirm_input, submit, settle,
  sodium_ready, fetched,
}
use teilpunkt.Signup.{check_form, load, step, run}
use teilpunkt.Signup.Form.{submit_registration}
use teilpunkt.Signup.Registering.{Registers, run-Registers}
use teilpunkt.Signup.Flow.{registration_settles}

-- An encoder that finds every text too long.
abbrev too_long : Encoder
too_long text = rejected (str "Data too long")

abbrev page_with : String → String → String → Dom
page_with username password confirm = document (
    ("username", str username)
    ∷ ("password", str password)
    ∷ ("confirm-password", str confirm)
    ∷ ("auth-error", str "")
    ∷ ("qrPopup", str "")
    ∷ [])

abbrev typed : String → String → String → Signup
typed username password confirm = load true (page_with username password confirm)

abbrev submitted : Signup
submitted = step blank too_long (typed "ada" "hunter22" "hunter22 ") submit

submit_registration_example :
    (submitted.tasks ≡ hashing (str "ada") (str "hunter22") ∷ [])
    × (submitted.sent ≡ [])
    × (value_of "username" submitted.dom ≡ str "")
    × (value_of "password" submitted.dom ≡ str "")
    × (value_of "confirm-password" submitted.dom ≡ str "")
    × (is_invalid "username" submitted.dom ≡ false)
    × (is_invalid "password" submitted.dom ≡ false)
    × (is_invalid "confirm-password" submitted.dom ≡ false)
unfolding load trim eq_str
submit_registration_example =
    submit_registration blank too_long (typed "ada" "hunter22" "hunter22 ") refl refl refl

abbrev waiting : Signup
waiting = record (typed "" "" "") { tasks = hashing (str "ada") (str "hunter22") ∷ [] }

abbrev accepted : Response
accepted = record {
  is_ok = true;
  text = fulfilled (str "otpauth://totp/ada");
  json = fulfilled other;
  blob = fulfilled (str "");
  content_disposition = none;
}

abbrev answered : Signup
answered =
    step blank too_long (step blank too_long waiting (settle 0 (sodium_ready (fulfilled tt))))
      (settle 0 (fetched (fulfilled accepted)))

registration_settles_example :
    (answered.sent ≡ register_request blank (str "ada") (str "hunter22") ∷ [])
    × (answered.tasks ≡ [])
    × (answered.canvas ≡ none)
    × (display_of "qrPopup" answered.dom ≡ "block")
    × (text_of "auth-error" answered.dom
        ≡ str "The sign-up has failed. Please check your details and try again.")
unfolding load register_result fetch_with_error_handling show_qr_code
registration_settles_example =
    registration_settles blank too_long waiting (str "ada") (str "hunter22") (fulfilled accepted)
      refl refl refl

abbrev session : List Event
session =
    username_input (str "ada")
    ∷ password_input (str "hunter22")
    ∷ confirm_input (str "hunter22")
    ∷ submit
    ∷ settle 0 (sodium_ready (fulfilled tt))
    ∷ []

run-Registers_example : All (Registers blank) (run blank too_long (typed "" "" "") session).sent
run-Registers_example = run-Registers blank too_long true (page_with "" "" "") session

-- One request is sent in that session.
session_test : length (run blank too_long (typed "" "" "") session).sent ≡ 1
unfolding run step load trim eq_str check_form check_input element_make_invisible
session_test = refl
