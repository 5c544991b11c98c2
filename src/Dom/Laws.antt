-- ===== src/Dom/Laws.antt =====
-- What the helpers of frontend/js/util.js do to the document.
use Prim.Native.String
use text.Mathlib.Text.{◌==◌ as str_eq}
use text.Mathlib.TextEquality.{eq_iff}
use text.Mathlib.TextPositions.{eq_refl}
use text.Mathlib.TextLemmas.{length-append}
use mathlib.Core.Option
use teilpunkt.Base.{
  String, ◌≡◌, ◌≢◌, refl, Bool, true, false, not, some, Str, str, trim, length, ltb, leb,
  if◌then◌else◌, arith, ap, inl, inr, Option-cases, Bool-cases, ◌∙◌, sym,
}
use teilpunkt.Dom.{
  Element, Dom, modify, visibility_of, set_text, value_of, read, is_invalid, text_of,
  set_visibility, set_text, class_add, class_remove, visibility_of, error_id, set_error_attached,
  clear_error, validate_username, validate_password,
}

-- The error element of an input is another element.
pub error_id_ne : (id : String) → error_id id ≢ id
error_id_ne id e = absurd (omega (arith, length-append id "-error", ap String.count e))

modify_self :
    (id : String) (f : Element → Element) (dom : Dom) → modify id f dom id ≡ Option.map f (dom id)
unfolding modify
modify_self id f dom = rw (eq_refl id)

str_eq_of_ne : (a b : String) → a ≢ b → str_eq a b ≡ false
str_eq_of_ne a b h = elim (Bool-cases (str_eq a b)) [
  | inl e ↦ absurd (h ((eq_iff a b).0 e))
  | inr e ↦ e
]

modify_ne :
    (id other : String) (f : Element → Element) (dom : Dom)
    → id ≢ other
    → modify id f dom other ≡ dom other
unfolding modify
modify_ne id other f dom h = rw (str_eq_of_ne id other h)

-- A write that keeps a property of its element keeps that property of every element.
pub read-modify {ℓ} :
    {A : Type ℓ} (d : A) (get : Element → A) (id other : String) (f : Element → Element) (dom : Dom)
    → ((e : Element) → get (f e) ≡ get e)
    → read d get (modify id f dom other) ≡ read d get (dom other)
unfolding modify
read-modify d get id other f dom keeps = elim (Bool-cases (str_eq id other)) [
  | inl e ↦ elim (Option-cases (dom other)) [ inl n ↦ rw (e, n) | inr (x, s) ↦ rw (e, s) (keeps x) ]
  | inr e ↦ rw e
]

-- The helpers on errors keep what the user typed.
pub value_of-set_error_attached :
    (id other : String) (m : Str) (dom : Dom)
    → value_of other (set_error_attached id m dom) ≡ value_of other dom
unfolding set_error_attached
value_of-set_error_attached id other m dom =
    read-modify (str "") (λ e. e.value) (error_id id) other
      (λ e. set_visibility "visible" (set_text m e)) (modify id (class_add "invalid") dom)
      (λ e. refl)
    ∙ read-modify (str "") (λ e. e.value) id other (class_add "invalid") dom (λ e. refl)

pub value_of-clear_error :
    (id other : String) (dom : Dom) → value_of other (clear_error id dom) ≡ value_of other dom
unfolding clear_error
value_of-clear_error id other dom =
    read-modify (str "") (λ e. e.value) (error_id id) other
      (λ e. set_visibility "hidden" (set_text (str "") e)) (modify id (class_remove "invalid") dom)
      (λ e. refl)
    ∙ read-modify (str "") (λ e. e.value) id other (class_remove "invalid") dom (λ e. refl)

-- What an input and its error element show.
abbrev pub Shows : String → Dom → Bool → Str → String → Type 0
Shows id dom invalid message visibility =
    (is_invalid id dom ≡ invalid)
    × (text_of (error_id id) dom ≡ message)
    × (visibility_of (error_id id) dom ≡ visibility)

module _ (id : String) (dom : Dom) {input error : Element} (here : dom id ≡ some input)
    (beside : dom (error_id id) ≡ some error) where
  modify-modify :
      (f g : Element → Element)
      → (modify (error_id id) g (modify id f dom) id ≡ some (f input))
        × (modify (error_id id) g (modify id f dom) (error_id id) ≡ some (g error))
  modify-modify f g = (
    rw (
      modify_ne (error_id id) id g (modify id f dom) (error_id_ne id),
      modify_self id f dom,
      here,
    ),
    rw (
      modify_self (error_id id) g (modify id f dom),
      modify_ne id (error_id id) f dom (λ e. error_id_ne id (sym e)),
      beside,
    ),
  )

  set_error_attached-Shows : (m : Str) → Shows id (set_error_attached id m dom) true m "visible"
  unfolding set_error_attached
  set_error_attached-Shows m =
      let (p, q) =
        modify-modify (class_add "invalid") (λ e. set_visibility "visible" (set_text m e)) in
      (rw p, rw q, rw q)

  clear_error-Shows : Shows id (clear_error id dom) false (str "") "hidden"
  unfolding clear_error
  clear_error-Shows =
      let (p, q) =
        modify-modify (class_remove "invalid")
          (λ e. set_visibility "hidden" (set_text (str "") e)) in
      (rw p, rw q, rw q)

  -- The user name is accepted exactly when it has three characters or more without the white space
  -- around it; the input and its error element show the verdict, and no value changes.
  validate_username_lem :
      (other : String)
      → let (dom', valid) = validate_username id dom in
        (valid ≡ leb 3 (length (trim input.value)))
        × Shows id dom'
            (not valid)
            (if valid then str "" else str "Username must be at least 3 characters")
            (if valid then "hidden" else "visible")
        × (value_of other dom' ≡ value_of other dom)
  unfolding validate_username
  validate_username_lem other = elim (Bool-cases (ltb (length (trim input.value)) 3)) [
    | inl short ↦
        rw (here, short)
          (ground arith, set_error_attached-Shows _, value_of-set_error_attached id other _ dom)
    | inr long ↦
        rw (here, long) (ground arith, clear_error-Shows, value_of-clear_error id other dom)
  ]

  -- The password is accepted exactly when it has seven characters or more, likewise.
  pub validate_password_lem :
      (other : String)
      → let (dom', valid) = validate_password id dom in
        (valid ≡ leb 7 (length (trim input.value)))
        × Shows id dom'
            (not valid)
            (if valid then str "" else str "Password must be at least 7 characters")
            (if valid then "hidden" else "visible")
        × (value_of other dom' ≡ value_of other dom)
  unfolding validate_password
  validate_password_lem other = elim (Bool-cases (ltb (length (trim input.value)) 7)) [
    | inl short ↦
        rw (here, short)
          (ground arith, set_error_attached-Shows _, value_of-set_error_attached id other _ dom)
    | inr long ↦
        rw (here, long) (ground arith, clear_error-Shows, value_of-clear_error id other dom)
  ]
