-- ===== src/Rewards/Tests.antt =====
-- The root of a quarter, which the source names in a comment, and the root of the largest argument.
use anarchy.Base.{ℕ, ◌*◌, ◌<◌, ◌≤◌, ◌≡◌, ◌⊎◌, refl, some, none, u128_max}
use anarchy.Rewards.{sqrt_ppm, scaled_sqrt, one_million}
use anarchy.Rewards.Sqrt.{IsSqrt, sqrt_ppm-IsSqrt}

quarter : sqrt_ppm 250_000 ≡ some 500_000
unfolding sqrt_ppm scaled_sqrt
quarter = refl

sqrt_ppm-IsSqrt_example :
    ((250_000 * one_million < u128_max)
      × ((r : ℕ) × (sqrt_ppm 250_000 ≡ some r) × IsSqrt (250_000 * one_million) r))
    ⊎ ((u128_max ≤ 250_000 * one_million) × (sqrt_ppm 250_000 ≡ none))
sqrt_ppm-IsSqrt_example = sqrt_ppm-IsSqrt 250_000
