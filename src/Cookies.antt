-- ===== src/Cookies.antt =====
-- redirectDashBoardLoggedIn of frontend/js/util.js: whether the browser holds the cookie of a
-- session.
pub mod Finding
mod Tests
use teilpunkt.Base.{
  ℕ, List, [], ◌∷◌, ◌++◌, String, Str, str, Option, Bool, true, false, ◌&&◌, ◌||◌, ◌==◌,
  if◌then◌else◌, trim,
}

abbrev pub user_id_cookie : Str
user_id_cookie = str "tp-session-user"

abbrev pub onto_head : ℕ → List Str → List Str
onto_head c [] = (c ∷ []) ∷ []
onto_head c (part ∷ parts) = (c ∷ part) ∷ parts

-- `s.split(';')`
split : ℕ → Str → List Str
split separator [] = [] ∷ []
split separator (c ∷ s) =
    let parts = split separator s in if c == separator then [] ∷ parts else onto_head c parts

-- `s.startsWith(p)`
starts_with : Str → Str → Bool
starts_with [] s = true
starts_with (_ ∷ _) [] = false
starts_with (p ∷ ps) (c ∷ s) = p == c && starts_with ps s

-- `parts.some(cookie => cookie.trim().startsWith(p))`
some_starts_with : Str → List Str → Bool
unfolding starts_with
some_starts_with p [] = false
some_starts_with p (part ∷ parts) = starts_with p (trim part) || some_starts_with p parts

-- The test, over `document.cookie`.
unfoldable pub is_logged_in : Str → Bool
unfolding split some_starts_with
is_logged_in cookie = some_starts_with (user_id_cookie ++ str "=") (split b';' cookie)

-- The function: the redirection of a user who is logged in stands in a comment, so the branch does
-- nothing to `window.location`.
unfoldable pub redirect_dash_board_logged_in : Str → Option String → Option String
unfolding is_logged_in
redirect_dash_board_logged_in cookie location = if is_logged_in cookie then location else location
