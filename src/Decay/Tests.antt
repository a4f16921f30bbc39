-- ===== src/Decay/Tests.antt =====
-- The theorems on the decay at the rate of the runtime, and two of the tests of the source.
use anarchy.Base.{◌*◌, ◌^◌, ◌≡◌, ◌≤◌, refl, arith, some}
use anarchy.Decay.{apply, power_loop, mul_fixed, one, scale}
use anarchy.Decay.Squaring.{squared_power, outcome}
use anarchy.Decay.Bounds.{power_loop_ends}

-- `delta_zero_returns_score_unchanged`
unchanged : apply 123 0 999_950 1_000_000 ≡ 123
unfolding apply mul_fixed
unchanged = refl

-- `known_decay_roughly_matches_expectation`
known : apply 100_000 200 999_950 1_000_000 ≡ 99_004
unfolding apply mul_fixed
known = refl

power_loop_ends_example :
    (outcome (power_loop 33 200 (999_950 * scale) one)
      ≡ some (squared_power 32 200 (999_950 * scale) one))
    × (squared_power 32 200 (999_950 * scale) one * one ^ 200 ≤ one * (999_950 * scale) ^ 200)
power_loop_ends_example = power_loop_ends 32 200 (999_950 * scale) one (omega arith)
