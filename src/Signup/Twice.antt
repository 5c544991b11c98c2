-- ===== src/Signup/Twice.antt =====
-- The form of the sign-up page, submitted again before the first answer.
use teilpunkt.Base.{
  ◌≡◌, ◌≤◌, refl, true, some, [], ◌∷◌, ◌++◌, str, eq_str, trim, length, leb, Bool-cases, inl, inr,
  arith, ◌∙◌,
}
use teilpunkt.Dom.{Element, value_of, element_make_invisible, set_opacity}
use teilpunkt.Dom.Laws.{read-modify}
use teilpunkt.Crypto.{Sodium}
use teilpunkt.Qr.{Encoder}
use teilpunkt.Signup.State.{Signup, hashing, submit}
use teilpunkt.Signup.{step, check_form, on_submit}
use teilpunkt.Signup.Form.{submit_registration}
use teilpunkt.Signup.Registering.{check_form-accepts}

-- Without a user name the form is not accepted.
submit_of_blank : (s : Signup) → value_of "username" s.dom ≡ str "" → (on_submit s).tasks ≡ s.tasks
unfolding on_submit trim
submit_of_blank s blank =
    let dom = element_make_invisible "auth-error" s.dom in
    let same : value_of "username" dom ≡ value_of "username" s.dom =
      unfold element_make_invisible in
      read-modify (str "") (λ e. e.value) "auth-error" "username" (set_opacity "0") s.dom
        (λ e. refl) in
    elim (Bool-cases (check_form dom).1) [
      | inl ok ↦
          let h : 3 ≤ length (trim (str "")) =
            rw (same ∙ blank) at ((check_form-accepts dom ok).0) in
          absurd (omega arith)
      | inr bad ↦ rw bad
    ]

-- A valid form that is submitted twice begins one registration, of the texts that were submitted
-- first.
submit-submit :
    (sodium : Sodium) (encoder : Encoder) (s : Signup) {username password confirm : Element}
    → s.dom "username" ≡ some username
    → s.dom "password" ≡ some password
    → s.dom "confirm-password" ≡ some confirm
    → leb 3 (length (trim username.value)) ≡ true
    → leb 7 (length (trim password.value)) ≡ true
    → eq_str (trim confirm.value) (trim password.value) ≡ true
    → let s' = step sodium encoder (step sodium encoder s submit) submit in
      s'.tasks ≡ s.tasks ++ hashing (trim username.value) (trim password.value) ∷ []
submit-submit sodium encoder s {username} {password} {confirm} has_username has_password has_confirm
      long secret same =
    let once = submit_registration sodium encoder s has_username has_password has_confirm in
    unfold step in
    submit_of_blank (step sodium encoder s submit) (once.2 ∙ rw (long, secret, same))
    ∙ once.0
    ∙ rw (long, secret, same)
