-- ===== src/EventLimiter.antt =====
-- The limit on requests of src/monitoring/EventLimiter.cpp and src/monitoring/Limits.h. Times are in
-- nanoseconds of the monotonic clock. The result of signed arithmetic beyond 32 bits, which C++ does
-- not define, needs 34 years between two requests: the sums below are those of the integers.
pub mod Rate
pub mod Runs
pub mod Ranges
mod Tests
use teilpunkt.Base.{
  ℕ, zero, suc, ◌+◌, ◌*◌, ◌-◌, ◌/◌, ◌%◌, Bool, true, false, ltb, ◌==◌, if◌then◌else◌, Option, none,
  some, not,
}
use teilpunkt.Base.Int.{ℤ, pos, negsuc, sub_ℕ, ◌+ℤ◌, is_negative}

abbrev pub tokens_per_sec : ℕ
tokens_per_sec = 2

abbrev pub tokens_max : ℤ
tokens_max = pos 50

-- `-TOKEN_COST_CONN`
abbrev pub minus_token_cost_conn : ℤ
minus_token_cost_conn = negsuc 0

abbrev pub token_max_minus : ℤ
token_max_minus = negsuc (tokens_per_sec * 60 - 1)

abbrev pub over_limit_limit : ℕ
over_limit_limit = 15

pub record IpRangeLimit : Type 0 where
  pub tokens : ℤ
  pub over_limit_requests : ℕ
  pub last : ℕ

-- What a range has that is not in the map yet
abbrev pub new_limit : ℕ → IpRangeLimit
new_limit now = record { tokens = tokens_max; over_limit_requests = 0; last = now }

-- `static_cast<int32_t>` of an unsigned number
unfoldable pub to_int32 : ℕ → ℤ
to_int32 n = let m = n % 4294967296 in if ltb m 2147483648 then pos m else sub_ℕ m 4294967296

-- `TOKENS_PER_SEC * x`, twice `x`
unfoldable pub times_per_sec : ℤ → ℤ
times_per_sec x = x +ℤ x

-- `std::min(TOKENS_MAX, x)`
unfoldable pub at_most_max : ℤ → ℤ
at_most_max x = if is_negative (x +ℤ negsuc 49) then x else tokens_max

-- The first four bytes of the address, the first the lowest, without the lowest eight bits
unfoldable pub ip_range : (b0 b1 b2 b3 : ℕ) → ℕ
ip_range b0 b1 b2 b3 = (b0 + b1 * 256 + b2 * 65536 + b3 * 16777216) / 256 * 256

-- `now - ipStatus.last`, and its seconds: the tokens to add
unfoldable pub refill : ℕ → IpRangeLimit → ℤ
unfolding to_int32 times_per_sec at_most_max
refill now s = at_most_max (s.tokens +ℤ times_per_sec (to_int32 ((now - s.last) / 1000000000)))

-- What a request leaves of its range's limit, and whether it is allowed
unfoldable pub allow_in_range : ℕ → IpRangeLimit → IpRangeLimit × Bool
unfolding refill
allow_in_range now s =
    let tokens = refill now s +ℤ minus_token_cost_conn in
    let over = (s.over_limit_requests + 1) % 256 in
    if is_negative tokens
    then (if ltb over_limit_limit over
        then (record { tokens = token_max_minus; over_limit_requests = 0; last = now }, false)
        else (record { tokens = tokens; over_limit_requests = over; last = now }, false))
    else (record { tokens = tokens; over_limit_requests = s.over_limit_requests; last = now }, true)

-- `ipStatusMap`
abbrev pub IpStatusMap : Type 0
IpStatusMap = ℕ → Option IpRangeLimit

abbrev pub limit_of : ℕ → Option IpRangeLimit → IpRangeLimit
limit_of now none = new_limit now
limit_of now (some s) = s

abbrev pub insert : ℕ → IpRangeLimit → IpStatusMap → IpStatusMap
insert range s map key = if key == range then some s else map key

-- A request from an address of the range
unfoldable pub allow_request : ℕ → ℕ → IpStatusMap → IpStatusMap × Bool
unfolding allow_in_range
allow_request now range map =
    let answer = allow_in_range now (limit_of now (map range)) in
    (insert range answer.0 map, answer.1)
