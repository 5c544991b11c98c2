-- ===== src/Login/Form.antt =====
-- The form of the login page, and the popup that asks for the code.
use teilpunkt.Base.{
  ◌≡◌, some, Str, str, leb, length, trim, ◌&&◌, not, if◌then◌else◌, arith, is_empty, ℕ,
}
use teilpunkt.Dom.{
  Element, value_of, is_invalid, text_of, display_of, set_error_attached, clear_error,
}
use teilpunkt.Crypto.{Sodium}
use teilpunkt.Login.State.{Login, submit}
use teilpunkt.Login.{step}

-- What the form reports of a text that has to have `bound` characters.
abbrev pub complaint : ℕ → Str → Str → Str
complaint bound too_short text =
    if is_empty (trim text)
    then str "This field is required."
    else if leb bound (length (trim text))
    then str ""
    else too_short

module _ (sodium : Sodium) (s : Login) {username password popup : Element}
    (has_username : s.dom "username" ≡ some username)
    (has_password : s.dom "password" ≡ some password)
    (has_popup : s.dom "totpPopup" ≡ some popup) where
  -- Submitting the form opens the popup exactly when both texts are long enough without the white
  -- space around them. Each input is marked exactly when its own text is too short. The typed texts
  -- stay, that of the code included, and nothing is sent or awaited.
  pub submit_popup :
      let s' = step sodium s submit in
      let long_name = leb 3 (length (trim username.value)) in
      let long_password = leb 7 (length (trim password.value)) in
      (display_of "totpPopup" s'.dom
        ≡ (if long_name && long_password then "block" else popup.style.display))
      × (is_invalid "username" s'.dom ≡ not long_name)
      × (is_invalid "password" s'.dom ≡ not long_password)
      × (value_of "username" s'.dom ≡ username.value)
      × (value_of "password" s'.dom ≡ password.value)
      × (value_of "totpInput" s'.dom ≡ value_of "totpInput" s.dom)
      × (s'.tasks ≡ s.tasks)
      × (s'.sent ≡ s.sent)
  unfolding step set_error_attached clear_error
  submit_popup = ground arith

  -- The error elements of the form name what is wrong with their inputs: a missing text, one that is
  -- too short, or nothing.
  submit-text :
      {username_error password_error : Element}
      → s.dom "username-error" ≡ some username_error
      → s.dom "password-error" ≡ some password_error
      → let s' = step sodium s submit in
        (text_of "username-error" s'.dom
          ≡ complaint 3 (str "Username must be at least 3 characters") username.value)
        × (text_of "password-error" s'.dom
            ≡ complaint 7 (str "Password must be at least 7 characters") password.value)
  unfolding step set_error_attached clear_error
  submit-text has_username_error has_password_error = ground arith
