-- ===== src/EventLimiter/Ranges.antt =====
-- Which addresses src/monitoring/EventLimiter.cpp counts together.
use mathlib.Core.Logic.{◌↔◌}
use teilpunkt.Base.{ℕ, ◌+◌, ◌*◌, ◌/◌, ◌<◌, ◌≡◌, arith}
use teilpunkt.EventLimiter.{ip_range}

octets :
    (b0 b1 b2 b3 : ℕ)
    → b0 < 256
    → (b0 + b1 * 256 + b2 * 65536 + b3 * 16777216) / 256 ≡ b1 + b2 * 256 + b3 * 65536
octets b0 b1 b2 b3 h = omega (arith, h)

-- Two addresses are counted together exactly if they agree in their last three octets, which the
-- memory has behind the first.
pub ip_range_iff :
    (a0 a1 a2 a3 b0 b1 b2 b3 : ℕ)
    → a0 < 256
    → a1 < 256
    → a2 < 256
    → a3 < 256
    → b0 < 256
    → b1 < 256
    → b2 < 256
    → b3 < 256
    → (ip_range a0 a1 a2 a3 ≡ ip_range b0 b1 b2 b3) ↔ ((a1 ≡ b1) × (a2 ≡ b2) × (a3 ≡ b3))
unfolding ip_range
ip_range_iff a0 a1 a2 a3 b0 b1 b2 b3 p0 p1 p2 p3 q0 q1 q2 q3 =
    let left = octets a0 a1 a2 a3 p0 in
    let right = octets b0 b1 b2 b3 q0 in
    (
      λ e. (
        omega (arith, e, left, right),
        omega (arith, e, left, right),
        omega (arith, e, left, right),
      ),
      λ (e1, e2, e3). omega (arith, e1, e2, e3, left, right),
    )
