-- ===== src/Theme.antt =====
-- frontend/js/theme-switcher.js: the class of the body, the icon of the button, and the theme in
-- the browser's storage.
pub mod Reload
mod Tests
use teilpunkt.Base.{
  ℕ, zero, suc, Str, str, eq_str, Bool, true, false, not, Option, none, some, if◌then◌else◌,
}

pub record Page : Type 0 where
  -- `document.body.classList` holds `dark-theme`
  pub is_dark : Bool
  pub icon : Str
  -- `localStorage.getItem('theme')`
  pub stored : Option Str

-- The icon in the document before the script runs.
abbrev pub initial_icon : Str
initial_icon = str "🌞"

abbrev is_text : Str → Option Str → Bool
is_text t none = false
is_text t (some s) = eq_str s t

-- The handler of `DOMContentLoaded`: the document itself is light.
unfoldable pub load : Option Str → Page
unfolding eq_str
load stored =
    if is_text (str "dark") stored
    then record { is_dark = true; icon = str "🌙"; stored = stored }
    else record { is_dark = false; icon = initial_icon; stored = stored }

-- The click on the button.
unfoldable pub toggle : Page → Page
toggle page =
    let is_dark_mode = not page.is_dark in
    record {
      is_dark = is_dark_mode;
      icon = if is_dark_mode then str "🌞" else str "🌙";
      stored = some (if is_dark_mode then str "dark" else str "light");
    }

unfoldable pub clicks : ℕ → Page → Page
unfolding toggle
clicks zero page = page
clicks (suc n) page = clicks n (toggle page)
