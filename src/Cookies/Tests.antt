-- ===== src/Cookies/Tests.antt =====
-- The test of the cookies at two cookies.
use teilpunkt.Base.{◌≡◌, refl, none, true, false, [], ◌∷◌, List, str, All, arith, eq_str, trim}
use teilpunkt.Cookies.{is_logged_in, redirect_dash_board_logged_in}
use teilpunkt.Cookies.Finding.{Cookie, IsCookie, cookie_string, is_logged_in-cookie_string}

abbrev cookies : List Cookie
cookies =
    record { name = str "a"; value = str "tp-session-user=1" }
    ∷ record { name = str "tp-session-user"; value = str "7" }
    ∷ []

cookies-IsCookie : All IsCookie cookies
unfolding trim
cookies-IsCookie = (
  record { name = ground arith; value = omega arith },
  (record { name = ground arith; value = omega arith }, tt),
)

is_logged_in-cookie_string_example : is_logged_in (cookie_string cookies) ≡ true
unfolding eq_str
is_logged_in-cookie_string_example = is_logged_in-cookie_string cookies cookies-IsCookie

is_logged_in_tests :
    (is_logged_in (str "a=tp-session-user=1") ≡ false)
    × (is_logged_in (str "tp-session-user2=1; b=2") ≡ false)
    × (is_logged_in (str "b=2;  tp-session-user=") ≡ true)
    × (redirect_dash_board_logged_in (str "tp-session-user=7") none ≡ none)
unfolding is_logged_in redirect_dash_board_logged_in trim
is_logged_in_tests = (refl, refl, refl, refl)
