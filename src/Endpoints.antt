-- ===== src/Endpoints.antt =====
-- src/server/Endpoints.cpp: how the server reads a cookie of a request. Texts are lists of bytes,
-- and positions are of type `size_t`, with 64 bits.
pub mod Reading
pub mod Lookup
mod Tests
use teilpunkt.Base.{
  ℕ, zero, suc, ◌+◌, ◌-◌, ◌%◌, ◌==◌, ltb, Str, str, eq_str, is_empty, Bool, true, false, not, ◌||◌,
  Option, none, some, List, [], ◌∷◌, length, take, if◌then◌else◌,
}

abbrev pub size_t : ℕ
size_t = 18446744073709551616

-- `std::string_view::npos`
abbrev pub npos : ℕ
npos = 18446744073709551615

abbrev pub drop : ℕ → Str → Str
drop zero s = s
drop (suc n) [] = []
drop (suc n) (c ∷ s) = drop n s

unfoldable pub index_of : ℕ → Str → Option ℕ
index_of c [] = none
index_of c (d ∷ s) =
    if d == c then some 0 else elim (index_of c s) [ none ↦ none | some i ↦ some (suc i) ]

-- `s.find(c, pos)`
unfoldable pub find : ℕ → Str → ℕ → ℕ
unfolding index_of
find c s pos = elim (index_of c (drop pos s)) [ none ↦ npos | some i ↦ pos + i ]

-- `s.substr(pos, count)` for a position in the text
abbrev pub substr : Str → ℕ → ℕ → Str
substr s pos count = take count (drop pos s)

unfoldable pub get_header : List (Str × Str) → Str → Str
unfolding eq_str
get_header [] key = []
get_header ((key_name, value) ∷ headers) key =
    let rest = get_header headers key in if eq_str key_name key then value else rest

-- What a round of the loop does: it returns, or goes on from another position.
pub data Round : Type 0 where
  returns : Str → Round
  goes_on : ℕ → Round

-- The cookie whose name ends at `name_end`
unfoldable pub read_cookie : Str → Str → ℕ → ℕ → Round
unfolding find eq_str
read_cookie full_cookies name start name_end =
    if eq_str (substr full_cookies start (name_end - start)) name
    then (let value_start = name_end + 1 in
        let semicolon = find b';' full_cookies value_start in
        let value_end = if semicolon == npos then length full_cookies else semicolon in
        returns (substr full_cookies value_start (value_end - value_start)))
    else (let next = (find b';' full_cookies name_end + 2) % size_t in
        if next == npos || next == 0 then returns [] else goes_on next)

unfoldable pub round : Str → Str → ℕ → Round
unfolding find read_cookie
round full_cookies name start =
    if ltb start (length full_cookies)
    then (let name_end = find b'=' full_cookies start in
        if name_end == npos then returns [] else read_cookie full_cookies name start name_end)
    else returns []

-- So many rounds of the loop: `none` if it has not returned by then.
unfoldable pub rounds : ℕ → Str → Str → ℕ → Option Str
unfolding round
rounds zero full_cookies name start = none
rounds (suc n) full_cookies name start = elim (round full_cookies name start) [
  | returns value ↦ some value
  | goes_on next ↦ rounds n full_cookies name next
]

unfoldable pub get_cookie : ℕ → List (Str × Str) → Str → Option Str
unfolding get_header rounds
get_cookie n headers name =
    let full_cookies = get_header headers (str "cookie") in
    if is_empty full_cookies then some [] else rounds n full_cookies name 0
