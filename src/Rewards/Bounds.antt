-- ===== src/Rewards/Bounds.antt =====
-- What the storage reward can be: its bounds, and how it moves with the bond.
use anarchy.Base.{ℕ, ◌*◌, ◌/◌, ◌<◌, ◌≤◌, ◌≡◌, arith, sat_mul, u128_max, max}
use anarchy.Rewards.{
  root, one_million, pool_decay, bond_correction, calculate_reward_v3,
  calculate_reward_with_threshold,
}
use anarchy.Rewards.Sqrt.{root-IsSqrt, IsSqrt-mono}

pub root_mono : (x y : ℕ) → x ≤ y → y ≤ one_million → root x ≤ root y
root_mono x y h top =
    IsSqrt-mono (x * one_million) (y * one_million) (root x) (root y) (omega (arith, h))
      (root-IsSqrt x (omega (arith, h, top))) (root-IsSqrt y top)

-- A share of at most 1 has a square root of at most 1.
pub root-le : (x : ℕ) → x ≤ one_million → root x ≤ one_million
root-le x h =
    IsSqrt-mono (x * one_million) (one_million * one_million) (root x) one_million
      (omega (arith, h)) (root-IsSqrt x h) (omega arith)

-- A saturated part of at most a million does not grow a reward.
pub ppm-le : (r p : ℕ) → p ≤ one_million → sat_mul u128_max r p / one_million ≤ r
ppm-le r p h = grind arith

pub ppm_mono :
    (r s p q : ℕ)
    → r ≤ s
    → p ≤ q
    → sat_mul u128_max r p / one_million ≤ sat_mul u128_max s q / one_million
ppm_mono r s p q h k = grind arith

pub share-le : (a b : ℕ) → a ≤ b → sat_mul u128_max a one_million / max b 1 ≤ one_million
share-le a b h = grind arith

share_mono :
    (a b t : ℕ)
    → a ≤ b
    → sat_mul u128_max a one_million / max t 1 ≤ sat_mul u128_max b one_million / max t 1
share_mono a b t h = grind arith

pub pool_decay-le : (balance target r : ℕ) → pool_decay balance target r ≤ r
unfolding pool_decay
pool_decay-le balance target r = ground (
  arith,
  ppm-le r one_million,
  ppm-le r (sat_mul u128_max balance one_million / max target 1),
  share-le balance target,
)

pub bond_correction-le : (bond total r : ℕ) → bond ≤ total → bond_correction bond total r ≤ r
unfolding bond_correction
bond_correction-le bond total r h = ground (
  arith,
  ppm-le r (root (sat_mul u128_max bond one_million / max total 1)),
  root-le (sat_mul u128_max bond one_million / max total 1),
  share-le bond total,
)

pub bond_correction_mono :
    (a b total r : ℕ)
    → 0 < a
    → a ≤ b
    → b ≤ total
    → bond_correction a total r ≤ bond_correction b total r
unfolding bond_correction
bond_correction_mono a b total r p h top = ground (
  arith,
  ppm_mono r r (root (sat_mul u128_max a one_million / max total 1))
      (root (sat_mul u128_max b one_million / max total 1)),
  root_mono (sat_mul u128_max a one_million / max total 1)
      (sat_mul u128_max b one_million / max total 1),
  share_mono a b total,
  share-le b total,
)

-- A reward below the score threshold is 0, and no reward of a node whose bond is part of the total
-- exceeds the plain product of rate and size.
pub calculate_reward_v3_bounds :
    (size rate score threshold balance target bond total : ℕ)
    → bond ≤ total
    → (score < threshold
        → calculate_reward_v3 size rate score threshold balance target bond total ≡ 0)
      × (calculate_reward_v3 size rate score threshold balance target bond total
          ≤ calculate_reward_with_threshold size rate score threshold)
unfolding calculate_reward_v3 calculate_reward_with_threshold
calculate_reward_v3_bounds size rate score threshold balance target bond total h =
    let base = sat_mul u128_max rate size in
    let decayed = pool_decay balance target base in
    (
      ground arith,
      ground (arith, pool_decay-le balance target base, bond_correction-le bond total decayed h),
    )

-- With the other inputs fixed, a larger positive bond that is part of the total never lowers the reward.
pub calculate_reward_v3_mono :
    (size rate score threshold balance target a b total : ℕ)
    → 0 < a
    → a ≤ b
    → b ≤ total
    → calculate_reward_v3 size rate score threshold balance target a total
      ≤ calculate_reward_v3 size rate score threshold balance target b total
unfolding calculate_reward_v3
calculate_reward_v3_mono size rate score threshold balance target a b total p h top = ground (
  arith,
  bond_correction_mono a b total (pool_decay balance target (sat_mul u128_max rate size)) p h top,
)

-- A node without a bond earns at least what any node earns whose bond is part of the same total,
-- since a bond of 0 switches the correction off.
pub calculate_reward_v3_unbonded :
    (size rate score threshold balance target bond total : ℕ)
    → bond ≤ total
    → calculate_reward_v3 size rate score threshold balance target bond total
      ≤ calculate_reward_v3 size rate score threshold balance target 0 total
unfolding calculate_reward_v3 bond_correction
calculate_reward_v3_unbonded size rate score threshold balance target bond total h = ground (
  arith,
  bond_correction-le bond total (pool_decay balance target (sat_mul u128_max rate size)) h,
)
