-- ===== src/Stealth/Amount.antt =====
-- How much of the pool a claim of the stealth rewards gets.
use anarchy.Base.{ℕ, ◌*◌, ◌/◌, ◌≤◌, ◌<◌, arith, max, sat_mul, u128_max}
use native.Mathlib.Nat.{mul-le-mul_right, mul-le-mul_left, div-mul-le_self}
use anarchy.Stealth.{compute_claim_amount}

-- A part of the pool, as the code computes it.
abbrev part : (pool ppm : ℕ) → ℕ
part pool ppm = sat_mul u128_max pool ppm / 1_000_000

part_le : (pool ppm : ℕ) → part pool ppm * 1_000_000 ≤ pool * ppm
part_le pool ppm = omega (arith, div-mul-le_self (sat_mul u128_max pool ppm) 1_000_000)

share_le :
    (unclaimed total : ℕ)
    → sat_mul u128_max unclaimed 1_000_000 / max total 1 * total ≤ unclaimed * 1_000_000
share_le unclaimed total = omega (
  arith,
  div-mul-le_self (sat_mul u128_max unclaimed 1_000_000) (max total 1),
  mul-le-mul_left (sat_mul u128_max unclaimed 1_000_000 / max total 1) (total-le total),
)
  where
    total-le : (n : ℕ) → n ≤ max n 1
    total-le n = omega arith

fair :
    (unclaimed total pool amount share : ℕ)
    → amount * 1_000_000 ≤ pool * share
    → share * total ≤ unclaimed * 1_000_000
    → amount * total ≤ pool * unclaimed
fair unclaimed total pool amount share h k =
    grind (arith, mul-le-mul_right total h, mul-le-mul_left pool k)

amount_le :
    (unclaimed total pool cap : ℕ)
    → compute_claim_amount unclaimed total pool cap
      ≤ part pool (sat_mul u128_max unclaimed 1_000_000 / max total 1)
unfolding compute_claim_amount
amount_le unclaimed total pool cap = ground arith

amount_le_cap :
    (unclaimed total pool cap : ℕ)
    → 0 < cap
    → compute_claim_amount unclaimed total pool cap ≤ part pool cap
unfolding compute_claim_amount
amount_le_cap unclaimed total pool cap h = ground arith

-- A claim gets at most its share of the pool, by the number of its receipts among all, and never more
-- than the pool has; with a cap that is not 0, at most that part of the pool.
pub compute_claim_amount_bounds :
    (unclaimed total pool cap : ℕ)
    → (compute_claim_amount unclaimed total pool cap * total ≤ pool * unclaimed)
      × (compute_claim_amount unclaimed total pool cap ≤ pool)
      × (0 < cap → compute_claim_amount unclaimed total pool cap * 1_000_000 ≤ pool * cap)
unfolding compute_claim_amount
compute_claim_amount_bounds unclaimed total pool cap =
    let share = sat_mul u128_max unclaimed 1_000_000 / max total 1 in
    (
      fair unclaimed total pool (compute_claim_amount unclaimed total pool cap) share
          (omega (arith, amount_le unclaimed total pool cap, part_le pool share))
          (share_le unclaimed total),
      ground arith,
      λ h. omega (arith, amount_le_cap unclaimed total pool cap h, part_le pool cap),
    )
