-- ===== src/Login/Codes.antt =====
-- The codes that the login page sends.
use teilpunkt.Base.{
  ℕ, ◌≡◌, Bool, List, [], ◌∷◌, str, true, false, arith, refl, All, All-append, All-remove_at,
  All-get_elem?, if-elim, Option-cases, inl, inr, get_elem?,
}
use teilpunkt.Dom.{
  Dom, value_of, modify, validate_username, element_make_invisible, set_error_attached, clear_error,
}
use text.Mathlib.TextEquality.{eq_iff}
use teilpunkt.Crypto.{Sodium}
use teilpunkt.Backend.Types.{Request, attempt-elim, fulfilled, rejected}
use teilpunkt.Backend.{login_request, login_result, fetch_with_error_handling}
use teilpunkt.Login.State.{
  Task, hashing, logging_in, getting_challenge, creating, sending_credential, Settled, sodium_ready,
  fetched, created, Login, Event, username_input, password_input, totp_input, submit, totp_submit,
  passkey_click, settle,
}
use teilpunkt.Login.{
  step, wait_for, send, login_failed, passkey_failed, after_login, open_dashboard, on_settle,
  continue, challenge_of, run, load, on_submit, on_passkey_click,
}
use teilpunkt.Login.Entering.{
  WaitsWithCode, SendsCode, login, elsewhere, HasWholeCodes, same_codes, totp_submit-HasWholeCodes,
  totp_input-HasWholeCodes,
}

module _ (sodium : Sodium) {s : Login} (h : HasWholeCodes sodium s) where
  wait_for-HasWholeCodes : (t : Task) → WaitsWithCode t → HasWholeCodes sodium (wait_for t s)
  wait_for-HasWholeCodes t w = record {
    digits = h.digits;
    short = h.short;
    tasks = All-append WaitsWithCode s.tasks _ h.tasks (w, tt);
    sent = h.sent;
  }

  send-HasWholeCodes : (r : Request) → SendsCode sodium r → HasWholeCodes sodium (send r s)
  send-HasWholeCodes r w = record {
    digits = h.digits;
    short = h.short;
    tasks = h.tasks;
    sent = All-append (SendsCode sodium) s.sent _ h.sent (w, tt);
  }

  login_failed-HasWholeCodes : (b : Bool) → HasWholeCodes sodium (login_failed b s)
  unfolding login_failed modify
  login_failed-HasWholeCodes true = same_codes sodium h _ (ground arith) refl refl
  login_failed-HasWholeCodes false = same_codes sodium h _ (ground arith) refl refl

  passkey_failed-HasWholeCodes : HasWholeCodes sodium (passkey_failed s)
  unfolding passkey_failed modify
  passkey_failed-HasWholeCodes = same_codes sodium h _ (ground arith) refl refl

  after_login-HasWholeCodes : (b : Bool) → HasWholeCodes sodium (after_login b (open_dashboard s))
  unfolding after_login modify
  after_login-HasWholeCodes true = same_codes sodium h _ (ground arith) refl refl
  after_login-HasWholeCodes false = same_codes sodium h _ refl refl refl

continue-HasWholeCodes :
    (sodium : Sodium) (task : Task) (settled : Settled) {s : Login}
    → WaitsWithCode task
    → HasWholeCodes sodium s
    → HasWholeCodes sodium (continue sodium task settled s)
unfolding continue
continue-HasWholeCodes sodium (hashing u p t b) (sodium_ready (fulfilled _)) w h =
    wait_for-HasWholeCodes sodium
      (send-HasWholeCodes sodium h (login_request sodium u p t) (login u p t refl w)) (logging_in b)
      tt
continue-HasWholeCodes sodium (hashing u p t b) (sodium_ready (rejected _)) w h =
    login_failed-HasWholeCodes sodium h b
continue-HasWholeCodes sodium (logging_in b) (fetched outcome) w h =
    attempt-elim (HasWholeCodes sodium) (login_result outcome)
      (λ _. after_login-HasWholeCodes sodium h b) (λ _. login_failed-HasWholeCodes sodium h b)
continue-HasWholeCodes sodium (getting_challenge u) (fetched outcome) w h =
    attempt-elim (HasWholeCodes sodium) (challenge_of outcome)
      (λ _. wait_for-HasWholeCodes sodium h _ tt) (λ _. passkey_failed-HasWholeCodes sodium h)
continue-HasWholeCodes sodium (creating options) (created (fulfilled credential)) w h =
    wait_for-HasWholeCodes sodium
      (send-HasWholeCodes sodium h _
        (elsewhere (ground (arith, eq_iff "/api/auth/passkey" "/api/auth/password"))))
      sending_credential tt
continue-HasWholeCodes sodium (creating options) (created (rejected _)) w h =
    passkey_failed-HasWholeCodes sodium h
continue-HasWholeCodes sodium sending_credential (fetched outcome) w h =
    attempt-elim (HasWholeCodes sodium) (fetch_with_error_handling outcome)
      (λ _. same_codes sodium h _ refl refl refl) (λ _. passkey_failed-HasWholeCodes sodium h)
continue-HasWholeCodes sodium task settled w h = wait_for-HasWholeCodes sodium h task w

on_settle-HasWholeCodes :
    (sodium : Sodium) (i : ℕ) (settled : Settled) {s : Login}
    → HasWholeCodes sodium s
    → HasWholeCodes sodium (on_settle sodium i settled s)
unfolding on_settle
on_settle-HasWholeCodes sodium i settled {s} h = elim (Option-cases (get_elem? s.tasks i)) [
  | inl missing ↦ rw (missing, on_settle) h
  | inr (task, here) ↦
      rw (here, on_settle)
        (continue-HasWholeCodes sodium task settled
          (All-get_elem? WaitsWithCode s.tasks i h.tasks here)
          (record {
            digits = h.digits;
            short = h.short;
            tasks = All-remove_at WaitsWithCode s.tasks i h.tasks;
            sent = h.sent;
          }))
]

submit-HasWholeCodes :
    (sodium : Sodium) (s : Login) → HasWholeCodes sodium s → HasWholeCodes sodium (on_submit s)
unfolding on_submit set_error_attached clear_error
submit-HasWholeCodes sodium s h = same_codes sodium h _ (ground arith) (ground arith) (ground arith)

checked-HasWholeCodes :
    (sodium : Sodium) (s : Login)
    → HasWholeCodes sodium s
    → HasWholeCodes sodium (record s {
      dom = (validate_username "username" (element_make_invisible "auth-error" s.dom)).0;
    })
unfolding validate_username element_make_invisible set_error_attached clear_error modify
checked-HasWholeCodes sodium s h = same_codes sodium h _ (ground arith) refl refl

passkey_click-HasWholeCodes :
    (sodium : Sodium) (s : Login)
    → HasWholeCodes sodium s
    → HasWholeCodes sodium (on_passkey_click s)
unfolding on_passkey_click
passkey_click-HasWholeCodes sodium s h =
    let c = checked-HasWholeCodes sodium s h in
    if-elim (HasWholeCodes sodium) _
      (wait_for-HasWholeCodes sodium
        (send-HasWholeCodes sodium c _
          (elsewhere (ground (arith, eq_iff "/api/auth/passkey-get" "/api/auth/password"))))
        _ tt)
      c

-- Every event keeps the invariant.
pub step-HasWholeCodes :
    (sodium : Sodium) (s : Login) (e : Event)
    → HasWholeCodes sodium s
    → HasWholeCodes sodium (step sodium s e)
unfolding step set_error_attached clear_error modify
step-HasWholeCodes sodium s (username_input v) h = same_codes sodium h _ (ground arith) refl refl
step-HasWholeCodes sodium s (password_input v) h = same_codes sodium h _ (ground arith) refl refl
step-HasWholeCodes sodium s (totp_input v) h = totp_input-HasWholeCodes sodium s v h
step-HasWholeCodes sodium s submit h = submit-HasWholeCodes sodium s h
step-HasWholeCodes sodium s totp_submit h = totp_submit-HasWholeCodes sodium h
step-HasWholeCodes sodium s passkey_click h =
    if-elim (HasWholeCodes sodium) s.passkey_available (passkey_click-HasWholeCodes sodium s h) h
step-HasWholeCodes sodium s (settle i settled) h = on_settle-HasWholeCodes sodium i settled h

run-HasWholeCodes :
    (sodium : Sodium) (events : List Event) {s : Login}
    → HasWholeCodes sodium s
    → HasWholeCodes sodium (run sodium s events)
unfolding run
run-HasWholeCodes sodium [] h = h
run-HasWholeCodes sodium (e ∷ es) h = run-HasWholeCodes sodium es (step-HasWholeCodes sodium _ e h)

load-HasWholeCodes :
    (sodium : Sodium) (passkeys : Bool) (dom : Dom)
    → value_of "totpInput" dom ≡ str ""
    → HasWholeCodes sodium (load passkeys dom)
unfolding load modify
load-HasWholeCodes sodium passkeys dom blank =
    let same : value_of "totpInput" (load passkeys dom).dom ≡ value_of "totpInput" dom =
      ground arith in
    record {
      digits = rw (same, blank) tt;
      short = rw (same, blank) (omega arith);
      tasks = tt;
      sent = tt;
    }

-- From a page whose field for the code is empty, whatever happens in whatever order: every request
-- to the login endpoint that is ever sent is a login request whose code is exactly six digits.
pub run-SendsCode :
    (sodium : Sodium) (passkeys : Bool) (dom : Dom) (events : List Event)
    → value_of "totpInput" dom ≡ str ""
    → All (SendsCode sodium) (run sodium (load passkeys dom) events).sent
run-SendsCode sodium passkeys dom events blank =
    (run-HasWholeCodes sodium events (load-HasWholeCodes sodium passkeys dom blank)).sent
