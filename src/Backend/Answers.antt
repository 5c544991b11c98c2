-- ===== src/Backend/Answers.antt =====
-- What the answers of the server to frontend/js/backend.js say: an error or none, and a text.
use teilpunkt.Base.{Str, Option, none, some, if◌then◌else◌, ◌≡◌, ◌⊎◌, inl, inr, Bool-cases, refl}
use teilpunkt.Backend.Types.{Outcome, fulfilled, rejected, attempt, Response}
use teilpunkt.Backend.{fetch_with_error_handling, register_result}

-- The error of a request: the server was not reached, or its status is none of success, and then the
-- error is the text of the answer, or what reading the text failed with.
abbrev pub error_of : Outcome Response → Option Str
error_of (rejected e) = some e
error_of (fulfilled response) =
    if response.is_ok then none else some (attempt response.text (λ text. text) (λ e. e))

-- The text of an answer of success that can be read.
abbrev pub success_text : Outcome Response → Option Str
success_text (rejected e) = none
success_text (fulfilled response) =
    if response.is_ok then attempt response.text some (λ _. none) else none

Outcome-cases {ℓ} :
    {A : Type ℓ} (o : Outcome A) → ((a : A) × (o ≡ fulfilled a)) ⊎ ((e : Str) × (o ≡ rejected e))
Outcome-cases (fulfilled a) = inl (a, refl)
Outcome-cases (rejected e) = inr (e, refl)

pub error-cases :
    (outcome : Outcome Response)
    → ((response : Response) × (fetch_with_error_handling outcome ≡ fulfilled response)
        × (error_of outcome ≡ none))
      ⊎ ((e : Str) × (fetch_with_error_handling outcome ≡ rejected e) × (error_of outcome ≡ some e))
unfolding fetch_with_error_handling
error-cases (rejected e) = inr (e, refl, refl)
error-cases (fulfilled response) = elim (Bool-cases response.is_ok) [
  | inl ok ↦ inl (response, rw ok refl, rw ok refl)
  | inr bad ↦ elim (Outcome-cases response.text) [
    | inl (text, e) ↦ inr (text, rw (bad, e) refl, rw (bad, e) refl)
    | inr (text, e) ↦ inr (text, rw (bad, e) refl, rw (bad, e) refl)
  ]
]

pub success_text-cases :
    (outcome : Outcome Response)
    → ((text : Str) × (register_result outcome ≡ fulfilled text)
        × (success_text outcome ≡ some text))
      ⊎ ((e : Str) × (register_result outcome ≡ rejected e) × (success_text outcome ≡ none))
unfolding register_result fetch_with_error_handling
success_text-cases (rejected e) = inr (e, refl, refl)
success_text-cases (fulfilled response) = elim (Outcome-cases response.text) [
  | inl (text, e) ↦ elim (Bool-cases response.is_ok) [
    | inl ok ↦ inl (text, rw (ok, e) refl, rw (ok, e) refl)
    | inr bad ↦ inr (text, rw (bad, e) refl, rw bad refl)
  ]
  | inr (text, e) ↦ elim (Bool-cases response.is_ok) [
    | inl ok ↦ inr (text, rw (ok, e) refl, rw (ok, e) refl)
    | inr bad ↦ inr (text, rw (bad, e) refl, rw bad refl)
  ]
]
