-- ===== src/EventLimiter/Tests.antt =====
-- Runs of the limit of src/monitoring/EventLimiter.cpp, and its theorems at such runs.
use teilpunkt.Base.{ℕ, zero, suc, ◌+◌, ◌*◌, ◌≤◌, ◌≡◌, refl, none, List, [], ◌∷◌, arith}
use mathlib.Core.Logic.{◌↔◌}
use teilpunkt.Base.Int.{negsuc}
use teilpunkt.EventLimiter.{IpRangeLimit, IpStatusMap, ip_range, insert}
use teilpunkt.EventLimiter.Runs.{Arrival, duration, allowed_of, allowed_of-le, allowed_of-starved}
use teilpunkt.EventLimiter.Ranges.{ip_range_iff}

abbrev every : ℕ → ℕ → List Arrival
every zero gap = []
every (suc n) gap = record { gap = gap; range = 256 } ∷ every n gap

-- Sixty requests at once: fifty are allowed.
burst : allowed_of 256 0 (every 60 0) (λ _. none) ≡ 50
unfolding allowed_of
burst = refl

-- With 0.9 s between them, no more.
steady : allowed_of 256 0 (every 70 900000000) (λ _. none) ≡ 50
unfolding allowed_of
steady = refl

-- With a second between them, all.
slow : allowed_of 256 0 (every 70 1000000000) (λ _. none) ≡ 70
unfolding allowed_of
slow = refl

allowed_of-le_example :
    allowed_of 256 7 (every 70 900000000) (λ _. none) * 1000000000
    ≤ 50 * 1000000000 + 2 * duration (every 70 900000000)
allowed_of-le_example = allowed_of-le 256 7 (every 70 900000000)

abbrev starved : IpRangeLimit
starved = record { tokens = negsuc 0; over_limit_requests = 1; last = 5 }

abbrev with_starved : IpStatusMap
with_starved = insert 256 starved (λ _. none)

allowed_of-starved_example : allowed_of 256 5 (every 3 900000000) with_starved ≡ 0
allowed_of-starved_example =
    allowed_of-starved 256 5 starved (every 3 900000000) with_starved refl refl refl
      ((refl, omega arith), ((refl, omega arith), ((refl, omega arith), tt)))

ip_range_iff_example :
    (ip_range 10 0 0 1 ≡ ip_range 203 0 0 1)
    ↔ ((◌≡◌ {A = ℕ} 0 0) × (◌≡◌ {A = ℕ} 0 0) × (◌≡◌ {A = ℕ} 1 1))
ip_range_iff_example =
    ip_range_iff 10 0 0 1 203 0 0 1 (omega arith) (omega arith) (omega arith) (omega arith)
      (omega arith) (omega arith) (omega arith) (omega arith)
