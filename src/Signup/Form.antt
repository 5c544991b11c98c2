-- ===== src/Signup/Form.antt =====
-- The form of the sign-up page.
use teilpunkt.Base.{
  ◌≡◌, true, false, some, [], ◌∷◌, ◌++◌, Str, str, eq_str, is_empty, trim, length, leb, ◌&&◌, ◌||◌,
  not, if◌then◌else◌, arith,
}
use teilpunkt.Dom.{
  Element, value_of, is_invalid, text_of, set_error_attached, clear_error, element_make_invisible,
  check_input, validate_username, validate_password,
}
use teilpunkt.Crypto.{Sodium}
use teilpunkt.Qr.{Encoder}
use teilpunkt.Signup.State.{Signup, hashing, password_input, confirm_input, submit, passkey_click}
use teilpunkt.Signup.{step, validate_confirm_password, check_form}

module _ (sodium : Sodium) (encoder : Encoder) (s : Signup) {username password confirm : Element}
    (has_username : s.dom "username" ≡ some username)
    (has_password : s.dom "password" ≡ some password)
    (has_confirm : s.dom "confirm-password" ≡ some confirm) where
  -- Submitting the form begins a registration exactly when the user name and the password are long
  -- enough and the confirmation agrees, all without the white space around them. Then the inputs
  -- are emptied; otherwise they keep their texts. Each input is marked exactly when it is at fault,
  -- and nothing is sent yet.
  pub submit_registration :
      let s' = step sodium encoder s submit in
      let name = trim username.value in
      let secret = trim password.value in
      let agrees = eq_str (trim confirm.value) secret in
      let is_valid = leb 3 (length name) && leb 7 (length secret) && agrees in
      (s'.tasks ≡ (if is_valid then s.tasks ++ hashing name secret ∷ [] else s.tasks))
      × (s'.sent ≡ s.sent)
      × (value_of "username" s'.dom ≡ (if is_valid then str "" else username.value))
      × (value_of "password" s'.dom ≡ (if is_valid then str "" else password.value))
      × (value_of "confirm-password" s'.dom ≡ (if is_valid then str "" else confirm.value))
      × (is_invalid "username" s'.dom ≡ not (leb 3 (length name)))
      × (is_invalid "password" s'.dom ≡ not (leb 7 (length secret)))
      × (is_invalid "confirm-password" s'.dom ≡ (is_empty (trim confirm.value) || not agrees))
  unfolding step element_make_invisible check_form check_input validate_username validate_password
      validate_confirm_password set_error_attached clear_error
  submit_registration = ground arith

  -- Typing in either of the two password fields marks the confirmation exactly when the two texts
  -- now differ, without the white space around them.
  confirm_is_marked :
      (v : Str)
      → let typed = step sodium encoder s (password_input v) in
        let confirmed = step sodium encoder s (confirm_input v) in
        (is_invalid "confirm-password" typed.dom ≡ not (eq_str (trim confirm.value) (trim v)))
        × (is_invalid "confirm-password" confirmed.dom
            ≡ not (eq_str (trim v) (trim password.value)))
  unfolding step element_make_invisible check_form check_input validate_username validate_password
      validate_confirm_password set_error_attached clear_error
  confirm_is_marked v = ground arith

  -- With a user name that is long enough, the passkey button only raises an error that nothing
  -- catches: it sends and awaits nothing, and the page shows no error.
  passkey_click_lem :
      {error : Element}
      → s.dom "auth-error" ≡ some error
      → s.passkey_available ≡ true
      → leb 3 (length (trim username.value)) ≡ true
      → let s' = step sodium encoder s passkey_click in
        (s'.uncaught ≡ s.uncaught ++ str "sodiumReady is not defined" ∷ [])
        × (s'.sent ≡ s.sent)
        × (s'.tasks ≡ s.tasks)
        × (text_of "auth-error" s'.dom ≡ error.text_content)
        × (is_invalid "username" s'.dom ≡ false)
  unfolding step element_make_invisible check_form check_input validate_username validate_password
      validate_confirm_password set_error_attached clear_error
  passkey_click_lem has_error available long = ground arith
