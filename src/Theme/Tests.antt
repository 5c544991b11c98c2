-- ===== src/Theme/Tests.antt =====
-- The theme at one page.
use teilpunkt.Base.{◌≡◌, true, some, str}
use teilpunkt.Theme.{load, toggle, clicks}
use teilpunkt.Theme.Reload.{load-clicks}

load-clicks_example : (load (clicks 3 (load (some (str "light")))).stored).is_dark ≡ true
unfolding load clicks toggle
load-clicks_example = load-clicks (some (str "light")) 3
