-- ===== src/Theme/Reload.antt =====
-- What a reload of the page keeps of the theme.
use teilpunkt.Base.{ℕ, zero, suc, Str, ◌≡◌, ◌≢◌, refl, Option, none, some, arith}
use teilpunkt.Theme.{Page, load, toggle, clicks}

-- A page that a reload would show in the same theme.
abbrev Persists : Page → Type 0
Persists page = (load page.stored).is_dark ≡ page.is_dark

load-Persists : (stored : Option Str) → Persists (load stored)
unfolding load
load-Persists none = refl
load-Persists (some t) = ground arith

toggle-Persists : (page : Page) → Persists (toggle page)
unfolding load toggle
toggle-Persists page = ground arith

clicks-Persists : (n : ℕ) (page : Page) → Persists page → Persists (clicks n page)
unfolding clicks
clicks-Persists zero page h = h
clicks-Persists (suc n) page h = clicks-Persists n (toggle page) (toggle-Persists page)

-- After any number of clicks on any loaded page, a reload shows the same theme.
pub load-clicks :
    (stored : Option Str) (n : ℕ)
    → let page = clicks n (load stored) in (load page.stored).is_dark ≡ page.is_dark
load-clicks stored n = clicks-Persists n (load stored) (load-Persists stored)

-- After a click that changes the theme, a reload always shows another icon than the click did.
icon-load-toggle_ne : (page : Page) → (load (toggle page).stored).icon ≢ (toggle page).icon
unfolding load toggle
icon-load-toggle_ne page = ground arith
