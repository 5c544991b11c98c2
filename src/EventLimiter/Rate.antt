-- ===== src/EventLimiter/Rate.antt =====
-- The tokens of one range of src/monitoring/EventLimiter.cpp.
use teilpunkt.Base.{
  ℕ, ◌+◌, ◌*◌, ◌-◌, ◌/◌, ◌%◌, ◌≤◌, ◌<◌, ◌≡◌, refl, Bool, true, false, ltb, if◌then◌else◌, arith,
  Bool-cases, inl, inr,
}
use teilpunkt.Base.Int.{ℤ, pos, negsuc, sub_ℕ, ◌+ℤ◌, is_negative, positive}
use teilpunkt.EventLimiter.{
  IpRangeLimit, to_int32, times_per_sec, at_most_max, refill, allow_in_range, over_limit_limit,
}

positive-sub_ℕ : (a b : ℕ) → positive (sub_ℕ a b) ≤ a
positive-sub_ℕ a b = ground arith

positive-add : (x y : ℤ) → positive (x +ℤ y) ≤ positive x + positive y
positive-add (pos a) (pos b) = omega arith
positive-add (pos a) (negsuc b) = omega (arith, positive-sub_ℕ a (b + 1))
positive-add (negsuc a) (pos b) = omega (arith, positive-sub_ℕ b (a + 1))
positive-add (negsuc a) (negsuc b) = omega arith

positive-to_int32 : (n : ℕ) → positive (to_int32 n) ≤ n
unfolding to_int32
positive-to_int32 n = elim (Bool-cases (ltb (n % 4294967296) 2147483648)) [
  | inl low ↦ rw low (omega arith)
  | inr high ↦ rw high (omega (arith, positive-sub_ℕ (n % 4294967296) 4294967296))
]

positive-at_most_max : (x : ℤ) → positive (at_most_max x) ≤ positive x
unfolding at_most_max
positive-at_most_max (pos a) = ground arith
positive-at_most_max (negsuc a) = omega arith

positive-refill :
    (now : ℕ) (s : IpRangeLimit)
    → positive (refill now s) ≤ positive s.tokens + 2 * ((now - s.last) / 1000000000)
unfolding refill times_per_sec
positive-refill now s =
    let seconds = to_int32 ((now - s.last) / 1000000000) in
    omega (
      arith,
      positive-at_most_max (s.tokens +ℤ times_per_sec seconds),
      positive-add s.tokens (times_per_sec seconds),
      positive-add seconds seconds,
      positive-to_int32 ((now - s.last) / 1000000000),
    )

abbrev pub one_if : Bool → ℕ
one_if b = if b then 1 else 0

-- A request that is allowed has cost a token.
pay : (x : ℤ) → is_negative (x +ℤ negsuc 0) ≡ false → positive (x +ℤ negsuc 0) + 1 ≤ positive x
pay (pos a) h = ground arith
pay (negsuc a) h = ground arith

broke : (x : ℤ) → is_negative x ≡ true → positive x ≡ 0
broke (pos a) h = ground arith
broke (negsuc a) h = refl

pub positive-allow_in_range :
    (now : ℕ) (s : IpRangeLimit)
    → positive ((allow_in_range now s).0).tokens + one_if (allow_in_range now s).1
      ≤ positive s.tokens + 2 * ((now - s.last) / 1000000000)
unfolding allow_in_range
positive-allow_in_range now s =
    let tokens = refill now s +ℤ negsuc 0 in
    elim (Bool-cases (is_negative tokens)) [
      | inl none_left ↦
          elim (Bool-cases (ltb over_limit_limit ((s.over_limit_requests + 1) % 256))) [
            | inl often ↦ rw (none_left, often) (omega arith)
            | inr seldom ↦ rw (none_left, seldom) (omega (arith, broke tokens none_left))
          ]
      | inr left ↦ rw left (omega (arith, positive-refill now s, pay (refill now s) left))
    ]

pub last-allow_in_range : (now : ℕ) (s : IpRangeLimit) → ((allow_in_range now s).0).last ≡ now
unfolding allow_in_range
last-allow_in_range now s = elim (Bool-cases (is_negative (refill now s +ℤ negsuc 0))) [
  | inl none_left ↦ elim (Bool-cases (ltb over_limit_limit ((s.over_limit_requests + 1) % 256))) [
    | inl often ↦ rw (none_left, often) refl
    | inr seldom ↦ rw (none_left, seldom) refl
  ]
  | inr left ↦ rw left refl
]

no_tokens :
    (x : ℤ)
    → is_negative x ≡ true
    → is_negative (at_most_max (x +ℤ times_per_sec (to_int32 0)) +ℤ negsuc 0) ≡ true
unfolding times_per_sec at_most_max to_int32
no_tokens (pos a) h = ground arith
no_tokens (negsuc a) h = ground arith

-- Part of a second is no second.
refill-negative :
    (now : ℕ) (s : IpRangeLimit)
    → now < s.last + 1000000000
    → is_negative s.tokens ≡ true
    → is_negative (refill now s +ℤ negsuc 0) ≡ true
unfolding refill times_per_sec at_most_max to_int32
refill-negative now s h negative =
    let e : (now - s.last) / 1000000000 ≡ 0 = omega (arith, h) in rw e (no_tokens s.tokens negative)

-- A range without tokens gets none in less than a second.
pub allow_in_range-starved :
    (now : ℕ) (s : IpRangeLimit)
    → now < s.last + 1000000000
    → is_negative s.tokens ≡ true
    → (is_negative ((allow_in_range now s).0).tokens ≡ true) × ((allow_in_range now s).1 ≡ false)
unfolding allow_in_range
allow_in_range-starved now s h negative =
    let none_left = refill-negative now s h negative in
    elim (Bool-cases (ltb over_limit_limit ((s.over_limit_requests + 1) % 256))) [
      | inl often ↦ rw (none_left, often) (refl, refl)
      | inr seldom ↦ rw (none_left, seldom) (none_left, refl)
    ]
