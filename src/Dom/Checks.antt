-- ===== src/Dom/Checks.antt =====
-- The checks of a form, one input after the other, over any document.
use teilpunkt.Base.{◌≤◌, ◌≡◌, Bool, true, String, is_empty, trim, length, ltb, if-elim, arith}
use teilpunkt.Dom.{Dom, value_of, validate_username, validate_password, check_input}
use teilpunkt.Dom.Laws.{value_of-set_error_attached, value_of-clear_error}

module _ (id other : String) (dom : Dom) where
  pub value_of-validate_username : value_of other (validate_username id dom).0 ≡ value_of other dom
  unfolding validate_username
  value_of-validate_username =
      if-elim (λ (r : Dom × Bool). value_of other r.0 ≡ value_of other dom)
        (ltb (length (trim (value_of id dom))) 3) (value_of-set_error_attached id other _ dom)
        (value_of-clear_error id other dom)

  pub value_of-validate_password : value_of other (validate_password id dom).0 ≡ value_of other dom
  unfolding validate_password
  value_of-validate_password =
      if-elim (λ (r : Dom × Bool). value_of other r.0 ≡ value_of other dom)
        (ltb (length (trim (value_of id dom))) 7) (value_of-set_error_attached id other _ dom)
        (value_of-clear_error id other dom)

-- A check keeps the values that its validator keeps.
pub value_of-check_input :
    (validator : String → Dom → Dom × Bool) (id other : String) (r : Dom × Bool)
    → value_of other (validator id r.0).0 ≡ value_of other r.0
    → value_of other (check_input validator id r).0 ≡ value_of other r.0
unfolding check_input
value_of-check_input validator id other (dom, b) kept =
    if-elim (λ (r : Dom × Bool). value_of other r.0 ≡ value_of other dom)
      (is_empty (trim (value_of id dom))) (value_of-set_error_attached id other _ dom) kept

-- A check that accepts was accepted so far, and so is its input.
pub check_input-accepts :
    (validator : String → Dom → Dom × Bool) (id : String) (r : Dom × Bool)
    → (check_input validator id r).1 ≡ true
    → (r.1 ≡ true) × ((validator id r.0).1 ≡ true)
unfolding check_input
check_input-accepts validator id (dom, b) h = ground arith

pub validate_username-accepts :
    (id : String) (dom : Dom)
    → (validate_username id dom).1 ≡ true
    → 3 ≤ length (trim (value_of id dom))
unfolding validate_username
validate_username-accepts id dom h = ground arith

pub validate_password-accepts :
    (id : String) (dom : Dom)
    → (validate_password id dom).1 ≡ true
    → 7 ≤ length (trim (value_of id dom))
unfolding validate_password
validate_password-accepts id dom h = ground arith
