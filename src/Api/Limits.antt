-- ===== src/Api/Limits.antt =====
-- The time that the health check gives its pings.
use astron_claw.Prelude.{◌≡◌, true, some, arith}
use astron_claw.Prelude.Int.{ℤ, pos, ◌≤ℤ◌, ◌-ℤ◌, -ℤ_parts, ltb_ℤ}
use astron_claw.Api.{health_timeout, health_deadline_slack}

-- The time is positive, at most a second, and where more than the slack is left to the deadline, at
-- most what is left less the slack.
pub health_timeout-bounds :
    (left : ℤ)
    → (ltb_ℤ (pos 0) (health_timeout (some left)) ≡ true)
      × (health_timeout (some left) ≤ℤ pos 1000000000)
      × ((ltb_ℤ health_deadline_slack left ≡ true)
          → health_timeout (some left) ≤ℤ (left -ℤ health_deadline_slack))
unfolding health_timeout
health_timeout-bounds left =
    let p = -ℤ_parts left (pos 50000000) in
    (ground (arith, p), ground (arith, p), λ h. ground (arith, p))
