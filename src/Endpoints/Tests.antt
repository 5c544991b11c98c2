-- ===== src/Endpoints/Tests.antt =====
-- GetCookie at the cookies of a session.
use teilpunkt.Base.{◌≡◌, refl, none, some, [], ◌∷◌, List, Str, str, All, arith, eq_str, trim}
use teilpunkt.Cookies.Finding.{Cookie, IsCookie, cookie_string}
use teilpunkt.Endpoints.{get_header, get_cookie}
use teilpunkt.Endpoints.Lookup.{get_cookie-cookie_string, get_cookie-none}

abbrev cookies : List Cookie
cookies =
    record { name = str "theme"; value = str "dark=1" }
    ∷ record { name = str "tp-session-user"; value = str "7" }
    ∷ []

cookies-IsCookie : All IsCookie cookies
unfolding trim
cookies-IsCookie = (
  record { name = ground arith; value = omega arith },
  (record { name = ground arith; value = omega arith }, tt),
)

abbrev headers : List (Str × Str)
headers = (str "host", str "localhost") ∷ (str "cookie", str "theme=dark=1; tp-session-user=7") ∷ []

get_cookie-cookie_string_example : get_cookie 2 headers (str "tp-session-user") ≡ some (str "7")
unfolding get_header cookie_string eq_str
get_cookie-cookie_string_example =
    get_cookie-cookie_string cookies headers (str "tp-session-user") 2 refl cookies-IsCookie
      (omega arith) (omega arith) refl

get_cookie-none_example : get_cookie 1000 headers (str "tp-session-token") ≡ none
unfolding get_header cookie_string eq_str
get_cookie-none_example =
    get_cookie-none b't' (str "heme") (str "dark=1") (str "tp-session-token")
      (record { name = str "tp-session-user"; value = str "7" } ∷ []) headers 1000 refl
      cookies-IsCookie (omega arith) (ground arith) (ground arith)

-- Where the search wraps, it may find the end of a name.
get_cookie_tests :
    (get_cookie 5 [] (str "a") ≡ some [])
    × (get_cookie 5 ((str "cookie", str "plain") ∷ []) (str "a") ≡ some [])
    × (get_cookie 5 ((str "cookie", str "xa=1; b=2") ∷ []) (str "a") ≡ some (str "1"))
unfolding get_cookie get_header eq_str
get_cookie_tests = (refl, refl, refl)
