-- ===== src/Dom.antt =====
-- The part of the document that the scripts read and write, and the helpers on single elements of
-- frontend/js/util.js: setErrorAttached, clearError, elementMakeInvisible, elementSetText,
-- validateUsername and validatePassword.
pub mod Laws
pub mod Checks
pub mod Samples
use Prim.Native.String
use text.Mathlib.Text.{◌==◌ as str_eq}
use mathlib.Core.Option
use teilpunkt.Base.{
  String, Bool, true, false, Option, none, some, Str, str, trim, length, ltb, ℕ, if◌then◌else◌,
  is_empty, ◌&&◌,
}

-- The properties of `style` that the scripts set.
pub record Style : Type 0 where
  pub display : String
  pub visibility : String
  pub opacity : String
  pub cursor : String

-- `class_list` is the set of the class names: their order shows nowhere.
pub record Element : Type 0 where
  pub value : Str
  pub text_content : Str
  pub class_list : String → Bool
  pub style : Style
  pub disabled : Bool

-- The elements by their `id`; `none` where the document has no element of that id.
abbrev pub Dom : Type 0
Dom = String → Option Element

-- A write to the element `id`, if there is one.
unfoldable pub modify : String → (Element → Element) → Dom → Dom
modify id f dom other = if str_eq id other then Option.map f (dom other) else dom other

abbrev pub set_value : Str → Element → Element
set_value v e = record e { value = v }

abbrev pub set_text : Str → Element → Element
set_text t e = record e { text_content = t }

abbrev pub set_display : String → Element → Element
set_display d e = record e { style = record (e.style) { display = d } }

abbrev pub set_visibility : String → Element → Element
set_visibility v e = record e { style = record (e.style) { visibility = v } }

abbrev pub set_opacity : String → Element → Element
set_opacity o e = record e { style = record (e.style) { opacity = o } }

abbrev pub set_cursor : String → Element → Element
set_cursor c e = record e { style = record (e.style) { cursor = c } }

abbrev pub set_disabled : Bool → Element → Element
set_disabled b e = record e { disabled = b }

abbrev pub class_add : String → Element → Element
class_add c e = record e { class_list = λ d. if str_eq c d then true else e.class_list d }

abbrev pub class_remove : String → Element → Element
class_remove c e = record e { class_list = λ d. if str_eq c d then false else e.class_list d }

-- A property of an element, with a default where there is none.
abbrev pub read {ℓ} : {A : Type ℓ} → A → (Element → A) → Option Element → A
read d get none = d
read d get (some e) = get e

-- `element.value`
abbrev pub value_of : String → Dom → Str
value_of id dom = read (str "") (λ e. e.value) (dom id)

-- What the user sees of an element.
abbrev pub is_invalid : String → Dom → Bool
is_invalid id dom = read false (λ e. e.class_list "invalid") (dom id)

abbrev pub text_of : String → Dom → Str
text_of id dom = read (str "") (λ e. e.text_content) (dom id)

abbrev pub visibility_of : String → Dom → String
visibility_of id dom = read "" (λ e. e.style.visibility) (dom id)

abbrev pub display_of : String → Dom → String
display_of id dom = read "" (λ e. e.style.display) (dom id)

abbrev pub opacity_of : String → Dom → String
opacity_of id dom = read "" (λ e. e.style.opacity) (dom id)

-- The element that shows the error of an input.
abbrev pub error_id : String → String
error_id id = String.◌++◌ id "-error"

-- `setErrorAttached`; where the input has no error element, `modify` changes nothing there.
unfoldable pub set_error_attached : String → Str → Dom → Dom
set_error_attached id message dom =
    let marked = modify id (class_add "invalid") dom in
    modify (error_id id) (λ e. set_visibility "visible" (set_text message e)) marked

unfoldable pub clear_error : String → Dom → Dom
clear_error id dom =
    let unmarked = modify id (class_remove "invalid") dom in
    modify (error_id id) (λ e. set_visibility "hidden" (set_text (str "") e)) unmarked

unfoldable pub element_make_invisible : String → Dom → Dom
element_make_invisible id = modify id (set_opacity "0")

unfoldable pub element_set_text : String → Str → Dom → Dom
element_set_text id message =
    modify id (λ e. set_visibility "visible" (set_text message (set_opacity "1" e)))

abbrev pub username_len : ℕ
username_len = 3

abbrev pub password_len : ℕ
password_len = 7

-- The validators return the new document and their verdict.
unfoldable pub validate_username : String → Dom → Dom × Bool
unfolding set_error_attached clear_error
validate_username id dom =
    if ltb (length (trim (value_of id dom))) username_len
    then (set_error_attached id (str "Username must be at least 3 characters") dom, false)
    else (clear_error id dom, true)

unfoldable pub validate_password : String → Dom → Dom × Bool
unfolding set_error_attached clear_error
validate_password id dom =
    if ltb (length (trim (value_of id dom))) password_len
    then (set_error_attached id (str "Password must be at least 7 characters") dom, false)
    else (clear_error id dom, true)

-- The body of the `forEach` by which both forms check their inputs: an input and its validator, and
-- the document and `isValid` so far.
unfoldable pub check_input : (String → Dom → Dom × Bool) → String → Dom × Bool → Dom × Bool
check_input validator id (dom, is_valid) =
    if is_empty (trim (value_of id dom))
    then (set_error_attached id (str "This field is required.") dom, false)
    else let (dom', accepted) = validator id dom in (dom', is_valid && accepted)
