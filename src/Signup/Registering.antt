-- ===== src/Signup/Registering.antt =====
-- What the sign-up page registers: nothing that its checks refuse.
use teilpunkt.Base.{
  ℕ, ◌≤◌, ◌≡◌, refl, Bool, true, List, [], ◌∷◌, ◌++◌, String, Str, str, trim, trim-trim, ◌∙◌,
  length, eq_str, All, All-append, All-remove_at, All-get_elem?, get_elem?, remove_at, Option-cases,
  Bool-cases, if-elim, inl, inr,
}
use teilpunkt.Dom.{
  Dom, value_of, element_make_invisible, check_input, validate_username, validate_password,
}
use teilpunkt.Dom.Laws.{value_of-set_error_attached, value_of-clear_error}
use teilpunkt.Dom.Checks.{
  value_of-validate_username, value_of-validate_password, value_of-check_input, check_input-accepts,
  validate_username-accepts, validate_password-accepts,
}
use teilpunkt.Crypto.{Sodium}
use teilpunkt.Qr.{Encoder, show_qr_code}
use teilpunkt.Backend.Types.{fulfilled, rejected, attempt-elim, Request}
use teilpunkt.Backend.{register_request, register_result}
use teilpunkt.Signup.State.{
  Task, Settled, Signup, Event, hashing, registering, sodium_ready, fetched, username_input,
  password_input, confirm_input, submit, qr_click, passkey_click, settle,
}
use teilpunkt.Signup.{
  validate_confirm_password, check_form, step, run, load, on_submit, on_settle, on_passkey_click,
  continue, show_code, register_failed,
}

-- Texts that pass the checks of the form.
pub record IsAcceptable (username password : Str) : Type 0 where
  pub long_username : 3 ≤ length username
  pub long_password : 7 ≤ length password
  pub trimmed_username : trim username ≡ username
  pub trimmed_password : trim password ≡ password

abbrev pub WaitsAcceptably : Task → Type 0
WaitsAcceptably (hashing username password) = IsAcceptable username password
WaitsAcceptably registering = Unit

-- A registration of acceptable texts.
pub data Registers (sodium : Sodium) (r : Request) : Type 0 where
  register :
      (username password : Str)
      → r ≡ register_request sodium username password
      → IsAcceptable username password
      → Registers sodium r

pub record RegistersOnly (sodium : Sodium) (s : Signup) : Type 0 where
  pub tasks : All WaitsAcceptably s.tasks
  pub sent : All (Registers sodium) s.sent

value_of-validate_confirm_password :
    (id other : String) (dom : Dom)
    → value_of other (validate_confirm_password id dom).0 ≡ value_of other dom
unfolding validate_confirm_password
value_of-validate_confirm_password id other dom =
    if-elim (λ (r : Dom × Bool). value_of other r.0 ≡ value_of other dom)
      (eq_str (trim (value_of id dom)) (trim (value_of "password" dom)))
      (value_of-clear_error id other dom) (value_of-set_error_attached id other _ dom)

module _ (dom : Dom) where
  -- The document and the verdict after the first check and after the second.
  abbrev after_username : Dom × Bool
  after_username = check_input validate_username "username" (dom, true)

  abbrev after_password : Dom × Bool
  after_password = check_input validate_password "password" after_username

  -- The checks leave the texts as they are.
  value_of-after_username : (other : String) → value_of other after_username.0 ≡ value_of other dom
  value_of-after_username other =
      value_of-check_input validate_username "username" other (dom, true)
        (value_of-validate_username "username" other dom)

  value_of-check_form : (other : String) → value_of other (check_form dom).0 ≡ value_of other dom
  unfolding check_form
  value_of-check_form other =
      value_of-check_input validate_confirm_password "confirm-password" other after_password
        (value_of-validate_confirm_password "confirm-password" other after_password.0)
      ∙ value_of-check_input validate_password "password" other after_username
          (value_of-validate_password "password" other after_username.0)
      ∙ value_of-after_username other

  pub check_form-accepts :
      (check_form dom).1 ≡ true
      → (3 ≤ length (trim (value_of "username" dom)))
        × (7 ≤ length (trim (value_of "password" dom)))
  unfolding check_form
  check_form-accepts h =
      let (confirmed, _) =
        check_input-accepts validate_confirm_password "confirm-password" after_password h in
      let (named, secret) =
        check_input-accepts validate_password "password" after_username confirmed in
      let (_, name) = check_input-accepts validate_username "username" (dom, true) named in
      (
        validate_username-accepts "username" dom name,
        rw (value_of-after_username "password") at
            (validate_password-accepts "password" after_username.0 secret),
      )

module _ (sodium : Sodium) (encoder : Encoder) {s : Signup} (h : RegistersOnly sodium s) where
  wait_for-RegistersOnly :
      (t : Task) → WaitsAcceptably t → RegistersOnly sodium (record s { tasks = s.tasks ++ t ∷ [] })
  wait_for-RegistersOnly t w = record {
    tasks = All-append WaitsAcceptably s.tasks _ h.tasks (w, tt);
    sent = h.sent;
  }

  register_failed-RegistersOnly : RegistersOnly sodium (register_failed s)
  unfolding register_failed
  register_failed-RegistersOnly = record { tasks = h.tasks; sent = h.sent }

  show_code-RegistersOnly : (text : Str) → RegistersOnly sodium (show_code encoder text s)
  unfolding show_code
  show_code-RegistersOnly text =
      attempt-elim (RegistersOnly sodium) (show_qr_code encoder text)
        (λ _. record { tasks = h.tasks; sent = h.sent })
        (λ _. record { tasks = h.tasks; sent = h.sent })

  continue-RegistersOnly :
      (task : Task) (settled : Settled)
      → WaitsAcceptably task
      → RegistersOnly sodium (continue sodium encoder task settled s)
  unfolding continue
  continue-RegistersOnly (hashing u p) (sodium_ready (fulfilled _)) w = record {
    tasks = All-append WaitsAcceptably s.tasks _ h.tasks (tt, tt);
    sent = All-append (Registers sodium) s.sent _ h.sent (register u p refl w, tt);
  }
  continue-RegistersOnly (hashing u p) (sodium_ready (rejected _)) w = register_failed-RegistersOnly
  continue-RegistersOnly registering (fetched outcome) w =
      attempt-elim (RegistersOnly sodium) (register_result outcome)
        (λ text. show_code-RegistersOnly text) (λ _. register_failed-RegistersOnly)
  continue-RegistersOnly task settled w = wait_for-RegistersOnly task w

module _ (sodium : Sodium) (encoder : Encoder) where
  on_settle-RegistersOnly :
      (i : ℕ) (settled : Settled) {s : Signup}
      → RegistersOnly sodium s
      → RegistersOnly sodium (on_settle sodium encoder i settled s)
  unfolding on_settle
  on_settle-RegistersOnly i settled {s} h = elim (Option-cases (get_elem? s.tasks i)) [
    | inl missing ↦ rw (missing, on_settle) h
    | inr (task, here) ↦
        rw (here, on_settle)
          (continue-RegistersOnly sodium encoder {s = record s { tasks = remove_at s.tasks i }}
            (record { tasks = All-remove_at WaitsAcceptably s.tasks i h.tasks; sent = h.sent }) task
            settled (All-get_elem? WaitsAcceptably s.tasks i h.tasks here))
  ]

  on_submit-RegistersOnly :
      {s : Signup} → RegistersOnly sodium s → RegistersOnly sodium (on_submit s)
  unfolding on_submit
  on_submit-RegistersOnly {s} h =
      elim (Bool-cases (check_form (element_make_invisible "auth-error" s.dom)).1) [
        | inl ok ↦
            let dom = element_make_invisible "auth-error" s.dom in
            let (name, secret) = check_form-accepts dom ok in
            rw ok (record {
              tasks = All-append WaitsAcceptably s.tasks _ h.tasks (
                record {
                  long_username = rw (value_of-check_form dom "username") name;
                  long_password = rw (value_of-check_form dom "password") secret;
                  trimmed_username = trim-trim _;
                  trimmed_password = trim-trim _;
                },
                tt,
              );
              sent = h.sent;
            })
        | inr bad ↦ rw bad (record { tasks = h.tasks; sent = h.sent })
      ]

  on_passkey_click-RegistersOnly :
      {s : Signup} → RegistersOnly sodium s → RegistersOnly sodium (on_passkey_click s)
  unfolding on_passkey_click
  on_passkey_click-RegistersOnly {s} h =
      let (dom, accepted) =
        validate_username "username" (element_make_invisible "auth-error" s.dom) in
      if-elim (RegistersOnly sodium) accepted
        {x = record s { dom = dom; uncaught = s.uncaught ++ str "sodiumReady is not defined" ∷ [] }}
        {y = record s { dom = dom }} (record { tasks = h.tasks; sent = h.sent })
        (record { tasks = h.tasks; sent = h.sent })

  step-RegistersOnly :
      (e : Event) {s : Signup}
      → RegistersOnly sodium s
      → RegistersOnly sodium (step sodium encoder s e)
  unfolding step
  step-RegistersOnly (username_input v) h = record { tasks = h.tasks; sent = h.sent }
  step-RegistersOnly (password_input v) h = record { tasks = h.tasks; sent = h.sent }
  step-RegistersOnly (confirm_input v) h = record { tasks = h.tasks; sent = h.sent }
  step-RegistersOnly submit h = on_submit-RegistersOnly h
  step-RegistersOnly qr_click h = record { tasks = h.tasks; sent = h.sent }
  step-RegistersOnly passkey_click {s} h =
      if-elim (RegistersOnly sodium) s.passkey_available (on_passkey_click-RegistersOnly h) h
  step-RegistersOnly (settle i settled) h = on_settle-RegistersOnly i settled h

  run-RegistersOnly :
      (events : List Event) {s : Signup}
      → RegistersOnly sodium s
      → RegistersOnly sodium (run sodium encoder s events)
  unfolding run
  run-RegistersOnly [] h = h
  run-RegistersOnly (e ∷ es) h = run-RegistersOnly es (step-RegistersOnly e h)

  -- Whatever happens on the page in whatever order: every request that is ever sent registers a
  -- user name of three characters or more and a password of seven or more, both without white space
  -- around them.
  pub run-Registers :
      (passkeys : Bool) (dom : Dom) (events : List Event)
      → All (Registers sodium) (run sodium encoder (load passkeys dom) events).sent
  unfolding load
  run-Registers passkeys dom events =
      (run-RegistersOnly events {s = load passkeys dom} (record { tasks = tt; sent = tt })).sent
