-- ===== src/Login/Flow.antt =====
-- The way of a login through the page: the whole code starts it, and the answer ends it.
use teilpunkt.Base.{
  ◌≤◌, ◌≡◌, Bool, false, none, some, [], ◌∷◌, ◌++◌, Str, str, ltb, length, take, trim, only_digits,
  only_digits-IsDigits, IsDigits-take, trim_of_IsDigits, take_of_length_le, length-take, Bool-cases,
  inl, inr, arith, sym,
}
use teilpunkt.Dom.{Element, value_of, text_of, modify, element_set_text}
use teilpunkt.Crypto.{Sodium}
use teilpunkt.Backend.Types.{Outcome, fulfilled, Response}
use teilpunkt.Backend.Answers.{error_of, error-cases}
use teilpunkt.Backend.{login_request, login_result}
use teilpunkt.Login.State.{Login, hashing, sodium_ready, fetched, totp_input, settle}
use teilpunkt.Login.{
  step, kept_code, enter_code, on_totp_input, on_settle, continue, handle_password_login,
  login_failed, after_login,
}

kept_code-eq-take : (text : Str) → kept_code text ≡ take 6 (only_digits text)
unfolding kept_code
kept_code-eq-take text = elim (Bool-cases (ltb 6 (length (only_digits text)))) [
  | inl long ↦ rw long
  | inr short ↦ rw short (sym (take_of_length_le 6 (only_digits text) (ground arith)))
]

module _ (sodium : Sodium) (s : Login) (text : Str) {input : Element}
    (has_input : s.dom "totpInput" ≡ some input) (whole : 6 ≤ length (only_digits text)) where
  -- As soon as the field of the code holds six digits, a login begins with the first six, and with
  -- the user name and the password without the white space around them. The three inputs are
  -- emptied, and nothing is sent before libsodium is ready.
  totp_input_lem :
      let s' = step sodium s (totp_input text) in
      (s'.tasks
        ≡ s.tasks
          ++ hashing
              (trim (value_of "username" s.dom))
              (trim (value_of "password" s.dom))
              (take 6 (only_digits text))
              false
            ∷ [])
      × (s'.sent ≡ s.sent)
      × (value_of "username" s'.dom ≡ str "")
      × (value_of "password" s'.dom ≡ str "")
      × (value_of "totpInput" s'.dom ≡ str "")
  unfolding step on_totp_input enter_code handle_password_login modify
  totp_input_lem =
      let code : trim (take 6 (only_digits text)) ≡ take 6 (only_digits text) =
        trim_of_IsDigits _ (IsDigits-take 6 _ (only_digits-IsDigits text)) in
      ground (arith, kept_code-eq-take text, length-take 6 (only_digits text))

-- A login that waits alone: with libsodium ready, it sends one request. If the server answers with
-- success, the page goes to the dashboard; if it refuses or cannot be reached, the page stays and
-- shows the error. Either way nothing is left to wait for.
pub login_settles :
    (sodium : Sodium) (s : Login) (username password totp : Str) (from_button : Bool)
    (outcome : Outcome Response) {error : Element}
    → s.tasks ≡ hashing username password totp from_button ∷ []
    → s.dom "auth-error" ≡ some error
    → let ready = step sodium s (settle 0 (sodium_ready (fulfilled tt))) in
      let answered = step sodium ready (settle 0 (fetched outcome)) in
      (answered.sent ≡ s.sent ++ login_request sodium username password totp ∷ [])
      × (answered.tasks ≡ [])
      × (answered.location
          ≡ elim (error_of outcome) [ none ↦ some "/dashboard" | some _ ↦ s.location ])
      × (text_of "auth-error" answered.dom ≡ elim (error_of outcome) [
        | none ↦ error.text_content
        | some _ ↦ str "The login has failed. Please check your login details and try again."
      ])
unfolding step on_settle continue login_result login_failed after_login element_set_text modify
login_settles sodium s username password totp from_button outcome alone has_error =
    elim (error-cases outcome) [
      | inl (response, reached, none_raised) ↦ ground arith
      | inr (e, raised, some_raised) ↦ ground arith
    ]
