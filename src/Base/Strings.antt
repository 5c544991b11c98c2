-- ===== src/Base/Strings.antt =====
-- JavaScript's strings: sequences of UTF-16 code units, and the string functions that the frontend
-- calls on them. Identifiers of elements, style values and URLs, which the program only compares,
-- are native texts.
use Prim.Native.Nat.{ℕ, zero, suc, ◌+◌, ◌-◌, ◌/◌, ◌%◌}
use Prim.Native.Char.{code}
use Prim.Native.String.{String}
use mathlib.Core.Path.{◌≡◌, refl, ap}
use mathlib.Core.Logic.{◌↔◌, inl, inr}
use mathlib.Core.Bool.{Bool, true, false, ◌&&◌, ◌||◌}
use mathlib.Core.Option.{some}
use mathlib.Core.List.{List, [], ◌∷◌, ◌++◌}
use native.Mathlib.Omega.{arith}
use package.teilpunkt.Base.Tests.{ltb, leb, ◌==◌, if◌then◌else◌, Bool-cases}
use package.teilpunkt.Base.Lists.{get_elem?, take, all}

abbrev pub Str : Type 0
Str = List ℕ

-- The code units of a code point: one, or a surrogate pair.
abbrev pub utf16 : ℕ → Str
utf16 c =
    if ltb c 0x10000
    then c ∷ []
    else (0xd800 + (c - 0x10000) / 1024) ∷ (0xdc00 + (c - 0x10000) % 1024) ∷ []

-- A literal.
abbrev pub str : String → Str
str String.[] = []
str (String.◌∷◌ c s) = utf16 (code c) ++ str s

-- `===` on strings
unfoldable pub eq_str : Str → Str → Bool
eq_str [] [] = true
eq_str [] (_ ∷ _) = false
eq_str (_ ∷ _) [] = false
eq_str (a ∷ s) (b ∷ t) = a == b && eq_str s t

pub eq_str_iff : (s t : Str) → (eq_str s t ≡ true) ↔ (s ≡ t)
unfolding eq_str
eq_str_iff [] [] = (λ _. refl, λ _. refl)
eq_str_iff [] (b ∷ t) = (λ e. cc, λ e. cc)
eq_str_iff (a ∷ s) [] = (λ e. cc, λ e. cc)
eq_str_iff (a ∷ s) (b ∷ t) = ground (arith, eq_str_iff s t)

-- White space and line terminators, as `trim` reads them.
pub is_space : ℕ → Bool
is_space c =
    leb 9 c && leb c 13
    || c == 32
    || c == 0xa0
    || c == 0x1680
    || leb 0x2000 c && leb c 0x200a
    || c == 0x2028
    || c == 0x2029
    || c == 0x202f
    || c == 0x205f
    || c == 0x3000
    || c == 0xfeff

abbrev pub is_empty : Str → Bool
is_empty [] = true
is_empty (_ ∷ _) = false

-- The text without the units at both ends that pass the test.
unfoldable pub strip_start : (ℕ → Bool) → Str → Str
strip_start p [] = []
strip_start p (c ∷ s) = let rest = strip_start p s in if p c then rest else c ∷ s

unfoldable pub strip_end : (ℕ → Bool) → Str → Str
strip_end p [] = []
strip_end p (c ∷ s) = let rest = strip_end p s in if p c && is_empty rest then [] else c ∷ rest

unfoldable pub strip : (ℕ → Bool) → Str → Str
unfolding strip_start strip_end
strip p s = strip_end p (strip_start p s)

-- `s.trim()`
unfoldable pub trim : Str → Str
unfolding is_space strip
trim s = strip is_space s

-- `[0-9]`
pub is_digit : ℕ → Bool
is_digit c = leb b'0' c && leb c b'9'

-- `s.replace(/\D/g, '')`
unfoldable pub only_digits : Str → Str
unfolding is_digit
only_digits [] = []
only_digits (c ∷ s) = if is_digit c then c ∷ only_digits s else only_digits s

abbrev pub IsDigits : Str → Type 0
IsDigits [] = Unit
IsDigits (c ∷ s) = (is_digit c ≡ true) × IsDigits s

-- The text does not start with a unit that passes the test.
abbrev StartsPlain : (ℕ → Bool) → Str → Type 0
StartsPlain p [] = Unit
StartsPlain p (c ∷ s) = p c ≡ false

module _ (p : ℕ → Bool) where
  strip_start-StartsPlain : (s : Str) → StartsPlain p (strip_start p s)
  unfolding strip_start
  strip_start-StartsPlain [] = tt
  strip_start-StartsPlain (c ∷ s) = elim (Bool-cases (p c)) [
    | inl e ↦ rw e (strip_start-StartsPlain s)
    | inr e ↦ rw e e
  ]

  strip_end-StartsPlain : (s : Str) → StartsPlain p s → StartsPlain p (strip_end p s)
  unfolding strip_end
  strip_end-StartsPlain [] h = tt
  strip_end-StartsPlain (c ∷ s) h = rw h h

  strip_start_of_StartsPlain : (s : Str) → StartsPlain p s → strip_start p s ≡ s
  unfolding strip_start
  strip_start_of_StartsPlain [] h = refl
  strip_start_of_StartsPlain (c ∷ s) h = rw h

  strip_end_idem : (s : Str) → strip_end p (strip_end p s) ≡ strip_end p s
  unfolding strip_end
  strip_end_idem [] = refl
  strip_end_idem (c ∷ s) = ground (arith, strip_end_idem s)

  -- Stripping twice is stripping once.
  pub strip-strip : (s : Str) → strip p (strip p s) ≡ strip p s
  unfolding strip
  strip-strip s =
      rw (strip_start_of_StartsPlain _ (strip_end-StartsPlain _ (strip_start-StartsPlain s)))
        (strip_end_idem (strip_start p s))

-- A unit that fails `p` is not stripped: it passes every test that all of the rest passes.
module _ (p q : ℕ → Bool) where
  all-strip_end :
      (s : Str) (i : ℕ) {c : ℕ}
      → get_elem? s i ≡ some c
      → p c ≡ false
      → all q (strip_end p s) ≡ true
      → q c ≡ true
  unfolding strip_end
  all-strip_end [] i h e k = cc
  all-strip_end (d ∷ s) zero h e k = ground arith
  all-strip_end (d ∷ s) (suc i) h e k = elim (Bool-cases (p d && is_empty (strip_end p s))) [
    | inl gone ↦ all-strip_end s i h e (ground arith)
    | inr kept ↦ all-strip_end s i h e (ground arith)
  ]

  all-strip_start :
      (s : Str) (i : ℕ) {c : ℕ}
      → get_elem? s i ≡ some c
      → p c ≡ false
      → all q (strip_end p (strip_start p s)) ≡ true
      → q c ≡ true
  unfolding strip_start
  all-strip_start [] i h e k = cc
  all-strip_start (d ∷ s) zero h e k = elim (Bool-cases (p d)) [
    | inl gone ↦ ground arith
    | inr kept ↦ all-strip_end (d ∷ s) zero h e (rw kept at k)
  ]
  all-strip_start (d ∷ s) (suc i) h e k = elim (Bool-cases (p d)) [
    | inl gone ↦ all-strip_start s i h e (rw gone at k)
    | inr kept ↦ all-strip_end (d ∷ s) (suc i) h e (rw kept at k)
  ]

  pub all-strip :
      (s : Str) (i : ℕ) {c : ℕ}
      → get_elem? s i ≡ some c
      → p c ≡ false
      → all q (strip p s) ≡ true
      → q c ≡ true
  unfolding strip
  all-strip s i h e k = all-strip_start s i h e k

pub trim-trim : (s : Str) → trim (trim s) ≡ trim s
unfolding trim
trim-trim s = strip-strip is_space s

pub only_digits-IsDigits : (s : Str) → IsDigits (only_digits s)
unfolding only_digits
only_digits-IsDigits [] = tt
only_digits-IsDigits (c ∷ s) = elim (Bool-cases (is_digit c)) [
  | inl e ↦ rw e (e, only_digits-IsDigits s)
  | inr e ↦ rw e (only_digits-IsDigits s)
]

pub only_digits_of_IsDigits : (s : Str) → IsDigits s → only_digits s ≡ s
unfolding only_digits
only_digits_of_IsDigits [] h = refl
only_digits_of_IsDigits (c ∷ s) (e, h) = rw e (ap (c ∷◌) (only_digits_of_IsDigits s h))

pub IsDigits-take : (n : ℕ) (s : Str) → IsDigits s → IsDigits (take n s)
IsDigits-take zero s h = tt
IsDigits-take (suc n) [] h = tt
IsDigits-take (suc n) (c ∷ s) (e, h) = (e, IsDigits-take n s h)

trim_test : trim (str " a b  ") ≡ str "a b"
unfolding trim
trim_test = refl

moon_test : str "🌙" ≡ 0xd83c ∷ 0xdf19 ∷ []
moon_test = refl

digit_not_space : (c : ℕ) → is_digit c ≡ true → is_space c ≡ false
unfolding is_digit is_space
digit_not_space c h = ground arith

strip_end_of_IsDigits : (s : Str) → IsDigits s → strip_end is_space s ≡ s
unfolding strip_end
strip_end_of_IsDigits [] h = refl
strip_end_of_IsDigits (c ∷ s) (d, h) =
    rw (digit_not_space c d) (ap (c ∷◌) (strip_end_of_IsDigits s h))

-- There is nothing to trim on digits.
pub trim_of_IsDigits : (s : Str) → IsDigits s → trim s ≡ s
unfolding trim strip_start
trim_of_IsDigits [] h = refl
trim_of_IsDigits (c ∷ s) (d, h) = rw (digit_not_space c d) (strip_end_of_IsDigits (c ∷ s) (d, h))
