-- ===== src/Login.antt =====
-- frontend/js/login.js: the login page as a state machine. An event is what the user does, or the
-- settling of a promise that a handler waits for; the rest of the handler is a task until then.
-- Focus and the messages on the console are left out: nothing reads them.
pub mod State
pub mod Form
pub mod Entering
pub mod Codes
pub mod Flow
mod Tests
use State.{
  CredentialOptions, Task, hashing, logging_in, getting_challenge, creating, sending_credential,
  Settled, sodium_ready, fetched, created, Login, Event, username_input, password_input, totp_input,
  submit, totp_submit, passkey_click, settle,
}
use teilpunkt.Base.{
  ℕ, ◌%◌, String, Str, str, Bool, true, false, Option, none, some, List, [], ◌∷◌, ◌++◌, ◌&&◌, ◌==◌,
  ltb, leb, not, if◌then◌else◌, trim, only_digits, length, take, get_elem?, remove_at,
}
use teilpunkt.Dom.{
  Element, Dom, modify, value_of, set_value, set_text, set_display, set_opacity, set_cursor,
  set_disabled, element_make_invisible, element_set_text, validate_username, validate_password,
  check_input,
}
use teilpunkt.Crypto.{Sodium}
use teilpunkt.Backend.Types.{
  Outcome, fulfilled, rejected, ◌>>=◌, attempt, Json, challenge, other_challenge, Response, json,
  json_text, Request,
}
use teilpunkt.Backend.{fetch_with_error_handling, login_request, login_result}

abbrev on_dom : (Dom → Dom) → Login → Login
on_dom f s = record s { dom = f s.dom }

abbrev wait_for : Task → Login → Login
wait_for t s = record s { tasks = s.tasks ++ t ∷ [] }

abbrev send : Request → Login → Login
send r s = record s { sent = s.sent ++ r ∷ [] }

-- `handlePasswordLogin` up to its first `await`: the arguments are read before the inputs are
-- cleared.
handle_password_login : Bool → Login → Login
unfolding modify
handle_password_login from_button s =
    let username = trim (value_of "username" s.dom) in
    let password = trim (value_of "password" s.dom) in
    let totp = trim (value_of "totpInput" s.dom) in
    let cleared =
      modify "totpInput" (set_value (str ""))
        (modify "password" (set_value (str "")) (modify "username" (set_value (str "")) s.dom)) in
    wait_for (hashing username password totp from_button) (record s { dom = cleared })

-- What the click on the button of the popup does after the login.
after_login : Bool → Login → Login
unfolding modify
after_login true s = on_dom (modify "totpPopup" (set_display "none")) s
after_login false s = s

login_failed : Bool → Login → Login
unfolding after_login element_set_text
login_failed from_button s = after_login from_button (
    on_dom
      (element_set_text "auth-error"
        (str "The login has failed. Please check your login details and try again."))
      s)

-- What is left of a text typed as the code.
kept_code : Str → Str
kept_code text =
    let digits = only_digits text in if ltb 6 (length digits) then take 6 digits else digits

enter_code : Str → Login → Login
unfolding modify handle_password_login
enter_code value s =
    let shown = on_dom (modify "totpInput" (set_value value)) s in
    if leb 6 (length value)
    then handle_password_login false (on_dom (modify "totpPopup" (set_display "none")) shown)
    else shown

-- The handler of `input` on the field of the code, the target of the event.
pub on_totp_input : Login → Login
unfolding kept_code enter_code
on_totp_input s = elim (s.dom "totpInput") [
  | none ↦ s
  | some target ↦ enter_code (kept_code target.value) s
]

pub on_totp_submit : Login → Login
unfolding modify handle_password_login element_set_text
on_totp_submit s =
    if length (value_of "totpInput" s.dom) == 6
    then handle_password_login true s
    else on_dom
        (λ d.
          modify "totpPopup" (set_display "none")
            (element_set_text "auth-error" (str "Please enter a valid 6-digit TOTP code.") d))
        s

-- The handler of `submit`. `totpInput.text = ''` sets a property that an input does not have, so
-- it changes nothing.
on_submit : Login → Login
unfolding modify check_input validate_username validate_password
on_submit s =
    let (dom, is_valid) =
      check_input validate_password "password"
        (check_input validate_username "username" (s.dom, true)) in
    let checked = record s { dom = dom } in
    if is_valid then on_dom (modify "totpPopup" (set_display "block")) checked else checked

abbrev in_range : ℕ → ℕ → ℕ → Bool
in_range lo hi c = leb lo c && leb c hi

-- The first code unit of each character, as a byte that keeps its low eight bits; the Boolean says
-- that a low surrogate would belong to the character before.
bytes_after : Bool → Str → List ℕ
bytes_after high [] = []
bytes_after high (c ∷ s) =
    let skipped = bytes_after false s in
    let kept = (c % 256) ∷ bytes_after (in_range 0xd800 0xdbff c) s in
    if high && in_range 0xdc00 0xdfff c then skipped else kept

-- `Uint8Array.from(text, c => c.charCodeAt(0))`
bytes_of : Str → List ℕ
unfolding bytes_after
bytes_of s = bytes_after false s

on_passkey_click : Login → Login
unfolding element_make_invisible validate_username
on_passkey_click s =
    let (dom, accepted) =
      validate_username "username" (element_make_invisible "auth-error" s.dom) in
    let checked = record s { dom = dom } in
    let username = trim (value_of "username" dom) in
    if accepted
    then wait_for (getting_challenge username) (
        send
          (record {
            url = "/api/auth/passkey-get";
            method = "POST";
            headers = ("Content-Type", str "application/json") ∷ [];
            body = json (("username", username) ∷ []);
          })
          checked)
    else checked

passkey_failed : Login → Login
unfolding element_set_text
passkey_failed s =
    on_dom (element_set_text "auth-error" (str "Passkey signup failed. Please try again.")) s

-- `const {challenge} = await challengeResponse.json()`, as the bytes that are made of it
challenge_of : Outcome Response → Outcome (List ℕ)
unfolding fetch_with_error_handling bytes_of
challenge_of outcome = do
  response ← fetch_with_error_handling outcome
  body ← response.json
  elim body [
    | challenge c ↦ fulfilled (bytes_of c)
    | other_challenge bytes ↦ bytes
    | _ ↦ rejected (str "TypeError")
  ]

abbrev open_dashboard : Login → Login
open_dashboard s = record s { location = some "/dashboard" }

-- The rest of a handler, once its promise has settled. A settling of another kind is none of its.
continue : Sodium → Task → Settled → Login → Login
unfolding bytes_of login_request login_result after_login login_failed passkey_failed challenge_of
continue sodium (hashing username password totp from_button) (sodium_ready (fulfilled _)) s =
    wait_for (logging_in from_button) (send (login_request sodium username password totp) s)
continue sodium (hashing username password totp from_button) (sodium_ready (rejected _)) s =
    login_failed from_button s
continue sodium (logging_in from_button) (fetched outcome) s =
    attempt (login_result outcome) (λ _. after_login from_button (open_dashboard s))
      (λ _. login_failed from_button s)
continue sodium (getting_challenge username) (fetched outcome) s =
    attempt (challenge_of outcome)
      (λ bytes.
        wait_for
          (creating
            (record { challenge = bytes; user_id = bytes_of username; user_name = username }))
          s)
      (λ _. passkey_failed s)
continue sodium (creating options) (created (fulfilled credential)) s =
    wait_for sending_credential (
      send
        (record {
          url = "/api/auth/passkey";
          method = "POST";
          headers = ("Content-Type", str "application/json") ∷ [];
          body = json_text credential;
        })
        s)
continue sodium (creating options) (created (rejected _)) s = passkey_failed s
continue sodium sending_credential (fetched outcome) s =
    attempt (fetch_with_error_handling outcome) (λ _. open_dashboard s) (λ _. passkey_failed s)
continue sodium task settled s = wait_for task s

on_settle : Sodium → ℕ → Settled → Login → Login
unfolding continue
on_settle sodium i settled s = elim (get_elem? s.tasks i) [
  | none ↦ s
  | some task ↦ continue sodium task settled (record s { tasks = remove_at s.tasks i })
]

pub step : Sodium → Login → Event → Login
unfolding modify element_make_invisible validate_username validate_password on_totp_input
    on_totp_submit on_submit on_passkey_click on_settle
step sodium s (username_input v) =
    on_dom
      (λ d.
        (validate_username "username"
          (element_make_invisible "auth-error" (modify "username" (set_value v) d))).0)
      s
step sodium s (password_input v) =
    on_dom
      (λ d.
        (validate_password "password"
          (element_make_invisible "auth-error" (modify "password" (set_value v) d))).0)
      s
step sodium s (totp_input v) = on_totp_input (on_dom (modify "totpInput" (set_value v)) s)
step sodium s submit = on_submit s
step sodium s totp_submit = on_totp_submit s
step sodium s passkey_click = if s.passkey_available then on_passkey_click s else s
step sodium s (settle i settled) = on_settle sodium i settled s

-- The page once it is loaded: without passkeys their button is disabled and has no handler.
pub load : Bool → Dom → Login
unfolding modify
load passkey_available dom = record {
  passkey_available = passkey_available;
  dom =
      if passkey_available
      then dom
      else modify "passkey-btn"
          (λ e.
            set_cursor "not-allowed"
              (set_opacity "0.5" (set_text (str "Not supported") (set_disabled true e))))
          dom;
  location = none;
  tasks = [];
  sent = [];
}

pub run : Sodium → Login → List Event → Login
run sodium s [] = s
run sodium s (e ∷ es) = run sodium (step sodium s e) es
