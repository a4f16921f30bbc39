-- ===== src/Storage/Work.antt =====
-- The difficulty of the proof of work (pallets/storage/src/pow.rs) as a function of recent registrations.
use anarchy.Base.{ℕ, ◌+◌, ◌/◌, ◌<◌, ◌≤◌, ◌≡◌, arith, min}
use anarchy.Storage.Pow.{calculate_difficulty, max_difficulty}

-- Below 1280 recent registrations the difficulty is the documented formula, the base and a fifth of
-- the registrations, at most 24; it never exceeds 24, and every further 1280 registrations start
-- the formula anew, since the cast to `u8` drops the multiples of 256.
pub calculate_difficulty_wraps :
    (recent base : ℕ)
    → (recent < 1280
        → base ≤ 24
        → calculate_difficulty recent base ≡ min (base + recent / 5) max_difficulty)
      × (calculate_difficulty recent base ≤ max_difficulty)
      × (calculate_difficulty (recent + 1280) base ≡ calculate_difficulty recent base)
unfolding calculate_difficulty
calculate_difficulty_wraps recent base = (λ h k. omega arith, omega arith, omega arith)
