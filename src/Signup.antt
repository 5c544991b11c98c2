-- ===== src/Signup.antt =====
-- frontend/js/signup.js: the sign-up page as a state machine, like the login page. The handler of
-- the passkey button ends at `await sodiumReady`, before its `try`: no script declares that name,
-- so the rest of the handler never runs.
pub mod State
pub mod Form
pub mod Registering
pub mod Flow
pub mod Twice
mod Tests
use State.{
  Task, hashing, registering, Settled, sodium_ready, fetched, Signup, Event, username_input,
  password_input, confirm_input, submit, qr_click, passkey_click, settle,
}
use teilpunkt.Base.{
  ℕ, String, Str, str, eq_str, Bool, true, false, Option, none, some, List, [], ◌∷◌, ◌++◌,
  if◌then◌else◌, trim, get_elem?, remove_at,
}
use teilpunkt.Dom.{
  Dom, modify, value_of, set_value, set_text, set_display, set_opacity, set_cursor, set_disabled,
  set_error_attached, clear_error, element_make_invisible, element_set_text, validate_username,
  validate_password, check_input,
}
use teilpunkt.Crypto.{Sodium}
use teilpunkt.Qr.{Encoder, show_qr_code}
use teilpunkt.Backend.Types.{Outcome, fulfilled, rejected, attempt, Request}
use teilpunkt.Backend.{register_request, register_result}

-- `validateConfirmPassword`
validate_confirm_password : String → Dom → Dom × Bool
unfolding eq_str set_error_attached clear_error
validate_confirm_password id dom =
    if eq_str (trim (value_of id dom)) (trim (value_of "password" dom))
    then (clear_error id dom, true)
    else (set_error_attached id (str "Passwords do not match.") dom, false)

abbrev on_dom : (Dom → Dom) → Signup → Signup
on_dom f s = record s { dom = f s.dom }

abbrev wait_for : Task → Signup → Signup
wait_for t s = record s { tasks = s.tasks ++ t ∷ [] }

abbrev send : Request → Signup → Signup
send r s = record s { sent = s.sent ++ r ∷ [] }

-- The checks of `submit`, in the order of the inputs.
pub check_form : Dom → Dom × Bool
check_form dom = check_input validate_confirm_password "confirm-password" (
    check_input validate_password "password" (check_input validate_username "username" (dom, true)))

-- The handler of `submit` up to its first `await`: the values are read before the inputs are
-- cleared.
on_submit : Signup → Signup
unfolding modify
on_submit s =
    let (dom, is_valid) = check_form (element_make_invisible "auth-error" s.dom) in
    let cleared =
      modify "confirm-password" (set_value (str ""))
        (modify "password" (set_value (str "")) (modify "username" (set_value (str "")) dom)) in
    if is_valid
    then wait_for (hashing (trim (value_of "username" dom)) (trim (value_of "password" dom)))
        (record s { dom = cleared })
    else record s { dom = dom }

register_failed : Signup → Signup
unfolding element_set_text
register_failed = on_dom (
    element_set_text "auth-error"
      (str "The sign-up has failed. Please check your details and try again."))

-- The popup opens before the code is drawn, and stays open if that fails.
show_code : Encoder → Str → Signup → Signup
unfolding modify show_qr_code register_failed
show_code encoder text s =
    let opened = on_dom (modify "qrPopup" (set_display "block")) s in
    attempt (show_qr_code encoder text) (λ canvas. record opened { canvas = some canvas })
      (λ _. register_failed opened)

on_passkey_click : Signup → Signup
on_passkey_click s =
    let (dom, accepted) =
      validate_username "username" (element_make_invisible "auth-error" s.dom) in
    let checked = record s { dom = dom } in
    if accepted
    then record checked { uncaught = s.uncaught ++ str "sodiumReady is not defined" ∷ [] }
    else checked

module _ (sodium : Sodium) (encoder : Encoder) where
  -- The rest of the handler of `submit`, once its promise has settled.
  continue : Task → Settled → Signup → Signup
  unfolding register_request register_result register_failed show_code
  continue (hashing username password) (sodium_ready (fulfilled _)) s =
      wait_for registering (send (register_request sodium username password) s)
  continue (hashing username password) (sodium_ready (rejected _)) s = register_failed s
  continue registering (fetched outcome) s =
      attempt (register_result outcome) (λ text. show_code encoder text s) (λ _. register_failed s)
  continue task settled s = wait_for task s

  on_settle : ℕ → Settled → Signup → Signup
  unfolding continue
  on_settle i settled s = elim (get_elem? s.tasks i) [
    | none ↦ s
    | some task ↦ continue task settled (record s { tasks = remove_at s.tasks i })
  ]

  pub step : Signup → Event → Signup
  unfolding modify validate_username validate_password validate_confirm_password on_submit
      on_passkey_click on_settle
  step s (username_input v) =
      on_dom (λ d. (validate_username "username" (modify "username" (set_value v) d)).0) s
  step s (password_input v) =
      on_dom
        (λ d.
          (validate_confirm_password "confirm-password"
            (validate_password "password" (modify "password" (set_value v) d)).0).0)
        s
  step s (confirm_input v) =
      on_dom
        (λ d.
          (validate_confirm_password "confirm-password"
            (modify "confirm-password" (set_value v) d)).0)
        s
  step s submit = on_submit s
  step s qr_click = record s {
    dom = modify "qrPopup" (set_display "none") s.dom;
    location = some "/login";
  }
  step s passkey_click = if s.passkey_available then on_passkey_click s else s
  step s (settle i settled) = on_settle i settled s

  pub run : Signup → List Event → Signup
  run s [] = s
  run s (e ∷ es) = run (step s e) es

-- The page once it is loaded: without passkeys their button is disabled and has no handler.
pub load : Bool → Dom → Signup
unfolding modify
load passkey_available dom = record {
  passkey_available = passkey_available;
  dom =
      if passkey_available
      then dom
      else modify "passkey-btn"
          (λ e.
            set_cursor "not-allowed"
              (set_opacity "0.5" (set_text (str "Sign up with Passkey") (set_disabled true e))))
          dom;
  canvas = none;
  location = none;
  tasks = [];
  sent = [];
  uncaught = [];
}
