-- ===== src/Backend/Filename.antt =====
-- The name under which `BackendFileDownload` of frontend/js/backend.js saves a file.
use teilpunkt.Base.{
  Str, str, [], ◌∷◌, ◌++◌, Option, none, some, ◌≡◌, ◌≢◌, refl, ◌==◌, if◌then◌else◌, All, arith,
}

-- `[^"]+` from the left, as long as it goes
until_quote : Str → Str
until_quote [] = []
until_quote (c ∷ s) = if c == b'"' then [] else c ∷ until_quote s

non_empty : Str → Option Str
non_empty [] = none
non_empty (c ∷ s) = some (c ∷ s)

-- The group of `"?([^"]+)`: where a quote comes first, the pattern cannot begin with it.
group : Str → Option Str
unfolding until_quote non_empty
group [] = none
group (c ∷ s) = non_empty (if c == b'"' then until_quote s else c ∷ until_quote s)

-- What follows the prefix, if the text starts with it.
strip_prefix : Str → Str → Option Str
strip_prefix [] s = some s
strip_prefix (_ ∷ _) [] = none
strip_prefix (p ∷ ps) (c ∷ s) = if p == c then strip_prefix ps s else none

-- The pattern at the start of the text.
match_here : Str → Option Str
unfolding group strip_prefix
match_here s = elim (strip_prefix (str "filename=") s) [ none ↦ none | some rest ↦ group rest ]

-- `contentDisposition.match(/filename="?([^"]+)"?/)`, the group of the leftmost match
match_filename : Str → Option Str
match_filename [] = none
match_filename (c ∷ s) =
    let later = match_filename s in
    elim (match_here (c ∷ s)) [ none ↦ later | some name ↦ some name ]

-- A header that is missing or empty gives the default, and so does one with no match.
unfoldable pub download_filename : Option Str → Str
unfolding match_filename match_here
download_filename none = str "download"
download_filename (some []) = str "download"
download_filename (some (c ∷ s)) = elim (match_filename (c ∷ s)) [
  | none ↦ str "download"
  | some name ↦ name
]

until_quote_of_plain : (s : Str) → All (λ c. c ≢ b'"') s → until_quote s ≡ s
unfolding until_quote
until_quote_of_plain [] h = refl
until_quote_of_plain (c ∷ s) (p, h) = ground (arith, until_quote_of_plain s h)

until_quote-append : (s rest : Str) → All (λ c. c ≢ b'"') s → until_quote (s ++ b'"' ∷ rest) ≡ s
unfolding until_quote
until_quote-append [] rest h = refl
until_quote-append (c ∷ s) rest (p, h) = ground (arith, until_quote-append s rest h)

-- The header that the server writes, `attachment; filename=` and the name, gives back every name
-- that is not empty and holds no quote.
pub download_filename-unquoted :
    (name : Str)
    → name ≢ []
    → All (λ c. c ≢ b'"') name
    → download_filename (some (str "attachment; filename=" ++ name)) ≡ name
unfolding download_filename group non_empty until_quote
download_filename-unquoted [] ne h = absurd (ne refl)
download_filename-unquoted (c ∷ s) ne (p, h) = ground (arith, until_quote_of_plain s h)

-- A header `attachment; filename=` with the name in quotes gives back every name that is not empty
-- and holds no quote, whatever follows the closing quote.
download_filename-quoted :
    (name rest : Str)
    → name ≢ []
    → All (λ c. c ≢ b'"') name
    → download_filename (some (str "attachment; filename=\"" ++ name ++ b'"' ∷ rest)) ≡ name
unfolding download_filename group non_empty until_quote
download_filename-quoted [] rest ne h = absurd (ne refl)
download_filename-quoted (c ∷ s) rest ne (p, h) = ground (arith, until_quote-append s rest h)
