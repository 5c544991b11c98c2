-- ===== src/Login/Entering.antt =====
-- How a code gets from its field into a login, and that only whole codes do.
use teilpunkt.Base.{
  ◌≤◌, ◌≡◌, ◌≢◌, Bool, some, Str, str, true, false, leb, ltb, length, arith, refl, only_digits,
  only_digits-IsDigits, IsDigits, IsDigits-take, trim_of_IsDigits, All, All-append, length-take,
  ◌==◌, Bool-cases, Option-cases, inl, inr,
}
use teilpunkt.Dom.{Element, value_of, modify, set_value, set_display}
use teilpunkt.Crypto.{Sodium}
use teilpunkt.Backend.Types.{Request}
use teilpunkt.Backend.{login_request}
use teilpunkt.Login.State.{Task, hashing, Login}
use teilpunkt.Login.{
  kept_code, enter_code, on_dom, on_totp_input, on_totp_submit, handle_password_login,
}

abbrev pub IsWholeCode : Str → Type 0
IsWholeCode code = IsDigits code × (length code ≡ 6)

abbrev pub WaitsWithCode : Task → Type 0
WaitsWithCode (hashing username password totp from_button) = IsWholeCode totp
WaitsWithCode _ = Unit

-- A request to the login endpoint is one for a whole code.
pub data SendsCode (sodium : Sodium) (r : Request) : Type 0 where
  login :
      (username password totp : Str)
      → r ≡ login_request sodium username password totp
      → IsWholeCode totp
      → SendsCode sodium r
  elsewhere : r.url ≢ "/api/auth/password" → SendsCode sodium r

pub record HasWholeCodes (sodium : Sodium) (s : Login) : Type 0 where
  pub digits : IsDigits (value_of "totpInput" s.dom)
  pub short : length (value_of "totpInput" s.dom) ≤ 6
  pub tasks : All WaitsWithCode s.tasks
  pub sent : All (SendsCode sodium) s.sent

module _ (sodium : Sodium) {s : Login} (h : HasWholeCodes sodium s) where
  handle-HasWholeCodes :
      (b : Bool)
      → length (value_of "totpInput" s.dom) ≡ 6
      → HasWholeCodes sodium (handle_password_login b s)
  unfolding handle_password_login
  handle-HasWholeCodes b six =
      let cleared : value_of "totpInput" (handle_password_login b s).dom ≡ str "" = ground arith in
      record {
        digits = rw cleared tt;
        short = rw cleared (omega arith);
        tasks =
            All-append WaitsWithCode s.tasks _ h.tasks
              (rw (trim_of_IsDigits _ h.digits) (h.digits, six), tt);
        sent = h.sent;
      }

  -- A change that concerns neither the code nor what is sent or awaited.
  pub same_codes :
      (s' : Login)
      → value_of "totpInput" s'.dom ≡ value_of "totpInput" s.dom
      → s'.tasks ≡ s.tasks
      → s'.sent ≡ s.sent
      → HasWholeCodes sodium s'
  same_codes s' d t r = record {
    digits = rw d h.digits;
    short = rw d h.short;
    tasks = rw t h.tasks;
    sent = rw r h.sent;
  }

  pub totp_submit-HasWholeCodes : HasWholeCodes sodium (on_totp_submit s)
  unfolding on_totp_submit
  totp_submit-HasWholeCodes = elim (Bool-cases (length (value_of "totpInput" s.dom) == 6)) [
    | inl six ↦ rw six (handle-HasWholeCodes true (ground arith))
    | inr other ↦ rw other (same_codes _ (ground arith) refl refl)
  ]

-- Of a text typed as the code at most six digits stay.
kept_code-IsDigits : (text : Str) → IsDigits (kept_code text) × (length (kept_code text) ≤ 6)
unfolding kept_code
kept_code-IsDigits text = elim (Bool-cases (ltb 6 (length (only_digits text)))) [
  | inl long ↦ rw long (
    IsDigits-take 6 _ (only_digits-IsDigits text),
    omega (arith, length-take 6 (only_digits text)),
  )
  | inr short ↦ rw short (only_digits-IsDigits text, ground arith)
]

module _ (sodium : Sodium) (s : Login) (tasks : All WaitsWithCode s.tasks)
    (sent : All (SendsCode sodium) s.sent) where
  enter_code-HasWholeCodes :
      (v : Str) {e : Element}
      → s.dom "totpInput" ≡ some e
      → IsDigits v
      → length v ≤ 6
      → HasWholeCodes sodium (enter_code v s)
  unfolding enter_code
  enter_code-HasWholeCodes v here d l =
      let shown = on_dom (modify "totpInput" (set_value v)) s in
      let value : value_of "totpInput" shown.dom ≡ v = ground arith in
      let whole : HasWholeCodes sodium shown = record {
        digits = rw value d;
        short = rw value l;
        tasks = tasks;
        sent = sent;
      } in
      elim (Bool-cases (leb 6 (length v))) [
        | inl full ↦ rw full (
            handle-HasWholeCodes sodium
              (same_codes sodium whole (on_dom (modify "totpPopup" (set_display "none")) shown)
                (ground arith) refl refl)
              false (ground arith))
        | inr part ↦ rw part whole
      ]

pub totp_input-HasWholeCodes :
    (sodium : Sodium) (s : Login) (v : Str)
    → HasWholeCodes sodium s
    → HasWholeCodes sodium (on_totp_input (on_dom (modify "totpInput" (set_value v)) s))
unfolding on_totp_input modify
totp_input-HasWholeCodes sodium s v h = elim (Option-cases (s.dom "totpInput")) [
  | inl missing ↦ rw (missing, on_totp_input) (same_codes sodium h _ (ground arith) refl refl)
  | inr (target, here) ↦
      let (d, l) = kept_code-IsDigits v in
      rw (here, on_totp_input)
        (enter_code-HasWholeCodes sodium (on_dom (modify "totpInput" (set_value v)) s) h.tasks
          h.sent (kept_code v) {e = set_value v target} (rw here) d l)
]
