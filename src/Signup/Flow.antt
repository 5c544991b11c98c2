-- ===== src/Signup/Flow.antt =====
-- The way of a registration through the sign-up page.
use teilpunkt.Base.{◌≡◌, none, some, inl, inr, [], ◌∷◌, ◌++◌, Str, str, arith}
use teilpunkt.Dom.{Element, text_of, display_of, modify, element_set_text}
use teilpunkt.Crypto.{Sodium}
use teilpunkt.Qr.{Canvas, Encoder, show_qr_code}
use teilpunkt.Backend.Types.{Outcome, fulfilled, rejected, attempt, Response}
use teilpunkt.Backend.{register_request}
use teilpunkt.Backend.Answers.{success_text, success_text-cases}
use teilpunkt.Signup.State.{Signup, hashing, sodium_ready, fetched, settle}
use teilpunkt.Signup.{step, on_settle, continue, show_code, register_failed}

-- A registration that waits alone: with libsodium ready, it sends one request. If the server
-- answers with success, the popup opens and the code of the answer is drawn; if the code cannot be
-- made, the popup is open and the error is shown. If the server refuses or cannot be reached, only
-- the error is shown. Either way nothing is left to wait for.
pub registration_settles :
    (sodium : Sodium) (encoder : Encoder) (s : Signup) (username password : Str)
    (outcome : Outcome Response) {error popup : Element}
    → s.tasks ≡ hashing username password ∷ []
    → s.dom "auth-error" ≡ some error
    → s.dom "qrPopup" ≡ some popup
    → let ready = step sodium encoder s (settle 0 (sodium_ready (fulfilled tt))) in
      let answered = step sodium encoder ready (settle 0 (fetched outcome)) in
      let failure = str "The sign-up has failed. Please check your details and try again." in
      let code : Outcome Canvas = elim (success_text outcome) [
        | none ↦ rejected failure
        | some text ↦ show_qr_code encoder text
      ] in
      (answered.sent ≡ s.sent ++ register_request sodium username password ∷ [])
      × (answered.tasks ≡ [])
      × (answered.canvas ≡ attempt code some (λ _. s.canvas))
      × (display_of "qrPopup" answered.dom
          ≡ elim (success_text outcome) [ none ↦ popup.style.display | some _ ↦ "block" ])
      × (text_of "auth-error" answered.dom ≡ attempt code (λ _. error.text_content) (λ _. failure))
unfolding step on_settle continue show_code register_failed element_set_text modify
registration_settles sodium encoder s username password outcome alone has_error has_popup =
    elim (success_text-cases outcome) [
      | inl (text, read, succeeded) ↦ ground arith
      | inr (e, failed, no_text) ↦ ground arith
    ]
