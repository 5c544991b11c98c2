-- ===== src/Endpoints/Lookup.antt =====
-- What GetCookie in src/server/Endpoints.cpp makes of the cookies that a browser sends.
use teilpunkt.Base.{
  ℕ, zero, suc, ◌+◌, ◌≤◌, ◌<◌, ◌≡◌, ◌≢◌, refl, sym, ap, ◌∙◌, Str, str, eq_str, eq_str_iff,
  Bool-cases, true, ◌⊎◌, false, Option, none, some, List, [], ◌∷◌, ◌++◌, append_assoc, append-nil,
  length, length-append, All, All-imp, is_empty, inl, inr, arith, if◌then◌else◌,
}
use teilpunkt.Cookies.Finding.{Cookie, IsCookie, cookie_string}
use teilpunkt.Endpoints.{npos, get_header, round, rounds, get_cookie, returns, goes_on}
use teilpunkt.Endpoints.Reading.{round_hit, round_miss_last, round_miss}

-- What follows the first cookie.
abbrev tail : List Cookie → Str
tail [] = []
tail (d ∷ ds) = b';' ∷ b' ' ∷ cookie_string (d ∷ ds)

-- The value of the first cookie of a name.
abbrev pub value_of_first : Str → List Cookie → Option Str
value_of_first name [] = none
value_of_first name (c ∷ cs) =
    let rest = value_of_first name cs in if eq_str c.name name then some c.value else rest

cookie_string-cons :
    (c : Cookie) (cs : List Cookie) → cookie_string (c ∷ cs) ≡ c.name ++ b'=' ∷ (c.value ++ tail cs)
unfolding cookie_string
cookie_string-cons c [] = sym (ap (λ r. c.name ++ b'=' ∷ r) (append-nil c.value))
cookie_string-cons c (d ∷ ds) = append_assoc c.name (b'=' ∷ c.value) (tail (d ∷ ds))

name_plain : (c : Cookie) → IsCookie c → All (λ u. u ≢ b'=') c.name
name_plain c h = All-imp _ _ c.name (λ u p. p.1) h.name

-- What has been read once a cookie is passed over.
abbrev passed : Str → Str → Str → Str
passed before k v = before ++ (k ++ b'=' ∷ (v ++ b';' ∷ b' ' ∷ []))

module _ (full before k v more : Str)
    (here : full ≡ before ++ (k ++ b'=' ∷ (v ++ b';' ∷ b' ' ∷ more))) where
  after_passed : full ≡ passed before k v ++ more
  after_passed =
      here
      ∙ sym (
          append_assoc before (k ++ b'=' ∷ (v ++ b';' ∷ b' ' ∷ [])) more
          ∙ ap (before ++◌) (
              append_assoc k (b'=' ∷ (v ++ b';' ∷ b' ' ∷ [])) more
              ∙ ap (λ r. k ++ b'=' ∷ r) (append_assoc v (b';' ∷ b' ' ∷ []) more)))

  length-passed : length (passed before k v) ≡ length before + (length k + (length v + 3))
  length-passed = omega (
    arith,
    length-append before (k ++ b'=' ∷ (v ++ b';' ∷ b' ' ∷ [])),
    length-append k (b'=' ∷ (v ++ b';' ∷ b' ' ∷ [])),
    length-append v (b';' ∷ b' ' ∷ []),
  )

tail-cases : (cs : List Cookie) → (tail cs ≡ []) ⊎ ((more : Str) × (tail cs ≡ b';' ∷ more))
tail-cases [] = inl refl
tail-cases (d ∷ ds) = inr (b' ' ∷ cookie_string (d ∷ ds), refl)

differs_ne : (s t : Str) → eq_str s t ≡ false → s ≢ t
differs_ne s t h e = cc (h, (eq_str_iff s t).1 e)

module _ (full name : Str) (fits : length full < npos) where
  rounds_returns :
      (n p : ℕ) (v : Str) → round full name p ≡ returns v → rounds (suc n) full name p ≡ some v
  unfolding rounds
  rounds_returns n p v h = rw (h, rounds) refl

  rounds_goes_on :
      (n p q : ℕ)
      → round full name p ≡ goes_on q
      → rounds (suc n) full name p ≡ rounds n full name q
  unfolding rounds
  rounds_goes_on n p q h = rw (h, rounds) refl

  rounds_hit :
      (before : Str) (c : Cookie) (cs : List Cookie) (n : ℕ)
      → full ≡ before ++ cookie_string (c ∷ cs)
      → IsCookie c
      → eq_str c.name name ≡ true
      → rounds (suc n) full name (length before) ≡ some c.value
  rounds_hit before c cs n here p same = rounds_returns n _ c.value (
      round_hit before c.name c.value (tail cs) name
        (here ∙ ap (before ++◌) (cookie_string-cons c cs)) (name_plain c p) p.value fits
        (tail-cases cs) ((eq_str_iff c.name name).0 same))

  rounds_miss :
      (before k v : Str) (d : Cookie) (ds : List Cookie) (n : ℕ)
      → full ≡ before ++ (k ++ b'=' ∷ (v ++ tail (d ∷ ds)))
      → All (λ u. u ≢ b'=') k
      → All (λ u. u ≢ b';') v
      → k ≢ name
      → (full ≡ passed before k v ++ cookie_string (d ∷ ds))
        × (rounds (suc n) full name (length before)
            ≡ rounds n full name (length (passed before k v)))
  rounds_miss before k v d ds n here plain_k plain_v other = (
    after_passed full before k v (cookie_string (d ∷ ds)) here,
    rounds_goes_on n _ _ (
          round_miss before k v (tail (d ∷ ds)) name here plain_k plain_v fits other
            (cookie_string (d ∷ ds)) refl)
        ∙ ap (λ p. rounds n full name p)
            (sym (length-passed full before k v (cookie_string (d ∷ ds)) here)),
  )

  rounds_found :
      (before : Str) (cookies : List Cookie) (n : ℕ) {value : Str}
      → full ≡ before ++ cookie_string cookies
      → All IsCookie cookies
      → length cookies ≤ n
      → value_of_first name cookies ≡ some value
      → rounds n full name (length before) ≡ some value
  rounds_found before [] n here h enough found = cc
  rounds_found before (c ∷ cs) zero here h enough found = absurd (omega arith)
  rounds_found before (c ∷ []) (suc n) here (p, h) enough found =
      elim (Bool-cases (eq_str c.name name)) [
        | inl same ↦ rounds_hit before c [] n here p same ∙ ground (arith, found, same)
        | inr differs ↦ absurd (ground (arith, found, differs))
      ]
  rounds_found before (c ∷ d ∷ ds) (suc n) here (p, h) enough found =
      elim (Bool-cases (eq_str c.name name)) [
        | inl same ↦ rounds_hit before c (d ∷ ds) n here p same ∙ ground (arith, found, same)
        | inr differs ↦
            let (here', next) =
              rounds_miss before c.name c.value d ds n
                (here ∙ ap (before ++◌) (cookie_string-cons c (d ∷ ds))) (name_plain c p) p.value
                (differs_ne c.name name differs) in
            next
            ∙ rounds_found (passed before c.name c.value) (d ∷ ds) n here' h (omega arith)
                (ground (arith, found, differs))
      ]

is_empty-append : (s : Str) (u : ℕ) (rest : Str) → is_empty (s ++ u ∷ rest) ≡ false
is_empty-append [] u rest = refl
is_empty-append (c ∷ s) u rest = refl

get_cookie-eq-rounds :
    (c : Cookie) (cs : List Cookie) (headers : List (Str × Str)) (name : Str) (n : ℕ)
    → get_header headers (str "cookie") ≡ cookie_string (c ∷ cs)
    → get_cookie n headers name ≡ rounds n (cookie_string (c ∷ cs)) name 0
unfolding get_cookie
get_cookie-eq-rounds c cs headers name n sent =
    let some_text : is_empty (cookie_string (c ∷ cs)) ≡ false =
      ap is_empty (cookie_string-cons c cs) ∙ is_empty-append c.name b'=' (c.value ++ tail cs) in
    rw (sent, some_text, get_cookie) refl

-- A name that one of the cookies has is found: the server gets the value of the first of them, in as
-- many rounds of the loop as there are cookies, when their text is shorter than `npos`.
pub get_cookie-cookie_string :
    (cookies : List Cookie) (headers : List (Str × Str)) (name : Str) (n : ℕ) {value : Str}
    → get_header headers (str "cookie") ≡ cookie_string cookies
    → All IsCookie cookies
    → length (cookie_string cookies) < npos
    → length cookies ≤ n
    → value_of_first name cookies ≡ some value
    → get_cookie n headers name ≡ some value
get_cookie-cookie_string [] headers name n sent h fits enough found = cc
get_cookie-cookie_string (c ∷ cs) headers name n sent h fits enough found =
    get_cookie-eq-rounds c cs headers name n sent
    ∙ rounds_found (cookie_string (c ∷ cs)) name fits [] (c ∷ cs) n refl h enough found

module _ (x : ℕ) (rest v name : Str) (cs : List Cookie) where
  abbrev first : Cookie
  first = record { name = x ∷ rest; value = v }

  abbrev full : Str
  full = cookie_string (first ∷ cs)

  module _ (fits : length full < npos) (plain : IsCookie first) (other : rest ≢ name)
      (cookies : All IsCookie cs) (others : All (λ c. c.name ≢ name) cs) where
    -- Behind the last cookie the search goes on from the second character of the text.
    rounds-none :
        (n : ℕ) (before k w : Str) (ds : List Cookie)
        → full ≡ before ++ (k ++ b'=' ∷ (w ++ tail ds))
        → All (λ u. u ≢ b'=') k
        → All (λ u. u ≢ b';') w
        → k ≢ name
        → All IsCookie ds
        → All (λ c. c.name ≢ name) ds
        → rounds n full name (length before) ≡ none
    rounds-none zero before k w ds here plain_k plain_w misses h others_ds = unfold rounds in refl
    rounds-none (suc n) before k w [] here plain_k plain_w misses h others_ds =
        rounds_goes_on full name fits n _ 1
          (round_miss_last before k w [] name here plain_k plain_w fits misses refl)
        ∙ rounds-none n (x ∷ []) rest v cs (cookie_string-cons first cs) (name_plain first plain).1
            plain.value other cookies others
    rounds-none (suc n) before k w (d ∷ ds) here plain_k plain_w misses (p, h) (e, others_ds) =
        let (here', next) =
          rounds_miss full name fits before k w d ds n here plain_k plain_w misses in
        next
        ∙ rounds-none n (passed before k w) d.name d.value ds
            (here' ∙ ap (passed before k w ++◌) (cookie_string-cons d ds)) (name_plain d p) p.value
            e h others_ds

-- If the browser has cookies but none of that name, and the first one's name without its first
-- character is not that name either, then the loop never ends: after no number of rounds has it
-- returned.
pub get_cookie-none :
    (x : ℕ) (rest v name : Str) (cs : List Cookie) (headers : List (Str × Str)) (n : ℕ)
    → let cookies = record { name = x ∷ rest; value = v } ∷ cs in
      get_header headers (str "cookie") ≡ cookie_string cookies
      → All IsCookie cookies
      → length (cookie_string cookies) < npos
      → All (λ c. c.name ≢ name) cookies
      → rest ≢ name
      → get_cookie n headers name ≡ none
get_cookie-none x rest v name cs headers n sent (p, h) fits (e, others) other =
    let c : Cookie = record { name = x ∷ rest; value = v } in
    get_cookie-eq-rounds c cs headers name n sent
    ∙ rounds-none x rest v name cs fits p other h others n [] (x ∷ rest) v cs
        (cookie_string-cons c cs) (name_plain c p) p.value e h others
