-- ===== src/EventLimiter/Runs.antt =====
-- How many requests src/monitoring/EventLimiter.cpp allows, whatever comes in whatever order.
use mathlib.Core.Path.{subst}
use teilpunkt.Base.{
  ◌∙◌, sym, ap, ==_iff, ℕ, ◌+◌, ◌*◌, ◌≤◌, ◌<◌, ◌≡◌, refl, true, false, ◌==◌, if◌then◌else◌, Option,
  none, some, List, [], ◌∷◌, arith, Bool-cases, inl, inr, All,
}
use teilpunkt.Base.Int.{is_negative, positive}
use teilpunkt.EventLimiter.{
  IpRangeLimit, allow_in_range, IpStatusMap, limit_of, allow_request, insert,
}
use teilpunkt.EventLimiter.Rate.{
  one_if, positive-allow_in_range, last-allow_in_range, allow_in_range-starved,
}

-- A request, so long after the one before it, whichever range that one is from
pub record Arrival : Type 0 where
  pub gap : ℕ
  pub range : ℕ

pub duration : List Arrival → ℕ
duration [] = 0
duration (x ∷ xs) = x.gap + duration xs

-- How many requests of a range are allowed
unfoldable pub allowed_of : ℕ → ℕ → List Arrival → IpStatusMap → ℕ
unfolding allow_request
allowed_of range clock [] map = 0
allowed_of range clock (x ∷ xs) map =
    let answer = allow_request (clock + x.gap) x.range map in
    let rest = allowed_of range (clock + x.gap) xs answer.0 in
    if range == x.range then one_if answer.1 + rest else rest

-- So many requests, after the last of the limit's and until the end, are not too many.
abbrev Affords : IpRangeLimit → ℕ → ℕ → Type 0
Affords s end n = n * 1000000000 + 2 * s.last ≤ positive s.tokens * 1000000000 + 2 * end

later :
    (clock gap : ℕ) (o : Option IpRangeLimit)
    → (limit_of clock o).last ≤ clock
    → ((limit_of (clock + gap) o).last ≤ clock + gap)
      × ((limit_of clock o).last ≤ (limit_of (clock + gap) o).last)
      × ((limit_of (clock + gap) o).tokens ≡ (limit_of clock o).tokens)
later clock gap none h = (omega arith, omega arith, refl)
later clock gap (some s) h = (omega (arith, h), omega arith, refl)

earlier :
    (clock gap d n : ℕ) (o : Option IpRangeLimit)
    → (limit_of clock o).last ≤ clock
    → Affords (limit_of (clock + gap) o) (clock + gap + d) n
    → Affords (limit_of clock o) (clock + (gap + d)) n
earlier clock gap d n o h affords =
    let (recent, forward, kept) = later clock gap o h in
    omega (arith, affords, forward, ap positive kept)

same_insert :
    (now range key : ℕ) (s : IpRangeLimit) (map : IpStatusMap)
    → (range == key) ≡ true
    → s ≡ limit_of now (insert key s map range)
same_insert now range key s map h = rw h refl

other_insert :
    (now range key : ℕ) (s : IpRangeLimit) (map : IpStatusMap)
    → (range == key) ≡ false
    → limit_of now (map range) ≡ limit_of now (insert key s map range)
other_insert now range key s map h = rw h refl

allow_in_range-Affords :
    (now end n : ℕ) (s : IpRangeLimit)
    → s.last ≤ now
    → Affords (allow_in_range now s).0 end n
    → Affords s end (one_if (allow_in_range now s).1 + n)
allow_in_range-Affords now end n s h affords =
    let (s', b) = allow_in_range now s in
    omega (arith, affords, positive-allow_in_range now s, last-allow_in_range now s)

allowed_of-Affords :
    (range clock : ℕ) (xs : List Arrival) (map : IpStatusMap)
    → (limit_of clock (map range)).last ≤ clock
    → Affords (limit_of clock (map range)) (clock + duration xs) (allowed_of range clock xs map)
unfolding allowed_of allow_request duration
allowed_of-Affords range clock [] map h = omega (arith, h)
allowed_of-Affords range clock (x ∷ xs) map h =
    let now = clock + x.gap in
    let s = limit_of now (map x.range) in
    let s' = (allow_in_range now s).0 in
    let n = allowed_of range now xs (insert x.range s' map) in
    let rest = allowed_of-Affords range now xs (insert x.range s' map) in
    let (recent, _, _) = later clock x.gap (map range) h in
    let Funded = λ (t : IpRangeLimit). (t.last ≤ now → Affords t (now + duration xs) n) in
    elim (Bool-cases (range == x.range)) [
      | inl same ↦
          let e = ap (λ r. limit_of now (map r)) ((==_iff range x.range).0 same) in
          let ih = subst Funded (sym (same_insert now range x.range s' map same)) rest in
          let spent =
            allow_in_range-Affords now (now + duration xs) n s (subst (λ t. t.last ≤ now) e recent)
              (ih (subst (λ m. m ≤ now) (sym (last-allow_in_range now s)) (omega arith))) in
          rw same (
            earlier clock x.gap (duration xs) (one_if (allow_in_range now s).1 + n) (map range) h (
              subst (λ t. Affords t (now + duration xs) (one_if (allow_in_range now s).1 + n))
                (sym e) spent))
      | inr other ↦
          let ih = subst Funded (sym (other_insert now range x.range s' map other)) rest recent in
          rw other (earlier clock x.gap (duration xs) n (map range) h ih)
    ]

-- Whatever requests come, from whatever addresses, to a new limiter: in the time from its start to
-- the last request, a range is allowed fifty requests, and two more for each second.
pub allowed_of-le :
    (range clock : ℕ) (xs : List Arrival)
    → allowed_of range clock xs (λ _. none) * 1000000000 ≤ 50 * 1000000000 + 2 * duration xs
allowed_of-le range clock xs =
    let all = allowed_of-Affords range clock xs (λ _. none) (omega arith) in omega (arith, all)

-- A range that is out of tokens stays out of them while its requests follow each other within less
-- than a second: of a run of such requests, none is allowed.
pub allowed_of-starved :
    (range clock : ℕ) (s : IpRangeLimit) (xs : List Arrival) (map : IpStatusMap)
    → map range ≡ some s
    → s.last ≡ clock
    → is_negative s.tokens ≡ true
    → All (λ x. ((range == x.range) ≡ true) × (x.gap < 1000000000)) xs
    → allowed_of range clock xs map ≡ 0
unfolding allowed_of allow_request
allowed_of-starved range clock s [] map found now negative quick = refl
allowed_of-starved range clock s (x ∷ xs) map found now negative ((same, quick), quicks) =
    let time = clock + x.gap in
    let e : map x.range ≡ some s = sym (ap map ((==_iff range x.range).0 same)) ∙ found in
    let s' = (allow_in_range time s).0 in
    let (still, refused) = allow_in_range-starved time s (omega (arith, now, quick)) negative in
    let rest =
      allowed_of-starved range time s' xs (insert x.range s' map) (rw same refl)
        (last-allow_in_range time s) still quicks in
    rw (same, e, refused) (omega (arith, rest))
