-- ===== src/Rewards.antt =====
-- Reward formulas of the storage pallet (apps/blockchain/pallets/storage/src/rewards.rs).
-- Amounts are `u128`, scores are `u64`, sizes are `u32`; all products saturate as in the source.
pub mod Sqrt
pub mod Bounds
pub mod Sybil
mod Tests
use mathlib.Core.WellFounded.{Acc, WellFounded}
use anarchy.Base.{
  ℕ, ◌%◌, ◌^◌, Option, none, some, ◌+◌, ◌*◌, ◌/◌, ◌<◌, Bool, ◌&&◌, arith, ltb, leb, ◌==◌,
  if◌then◌else◌, dite, dec_lt, max, sat_mul, u128_max,
}
use anarchy.Base.Order.{lt_wf}

abbrev pub score_threshold : ℕ
score_threshold = 100

abbrev pub one_million : ℕ
one_million = 1_000_000

unfoldable pub calculate_reward_with_threshold : ℕ → ℕ → ℕ → ℕ → ℕ
calculate_reward_with_threshold data_size base_reward_per_byte score threshold =
    if ltb score threshold then 0 else sat_mul u128_max base_reward_per_byte data_size

unfoldable pub calculate_reward : ℕ → ℕ → ℕ → ℕ
unfolding calculate_reward_with_threshold
calculate_reward data_size base_reward_per_byte score =
    calculate_reward_with_threshold data_size base_reward_per_byte score score_threshold

-- `while z < y { y = z; z = (scaled / z + z) / 2; }`, which returns `y`; `none` is the panic of the
-- division by zero.
pub newton : (scaled z y : ℕ) → Acc ◌<◌ y → Option ℕ
newton scaled z y (Acc.intro _ smaller) =
    dite (dec_lt z y)
      (λ h.
        let rest = newton scaled ((scaled / z + z) / 2) z (smaller z h) in
        if z == 0 then none else rest)
      (λ _. some y)

-- The sum wraps around as in a release build. With checks it panics itself, where here the loop does.
unfoldable pub scaled_sqrt : (scaled : ℕ) → Option ℕ
unfolding newton lt_wf dec_lt
scaled_sqrt scaled =
    if scaled == 0
    then some 0
    else newton scaled ((scaled + 1) % 2 ^ 128 / 2) scaled (lt_wf.apply scaled)

unfoldable pub sqrt_ppm : ℕ → Option ℕ
sqrt_ppm x_ppm = scaled_sqrt (sat_mul u128_max x_ppm one_million)

-- The value of a call of `sqrt_ppm`, whose argument is at most a million wherever a bond is part of
-- the total of all bonds; 0 stands for the panic, which then does not occur.
abbrev pub value_of : Option ℕ → ℕ
value_of none = 0
value_of (some r) = r

unfoldable pub root : ℕ → ℕ
root x_ppm = value_of (sqrt_ppm x_ppm)

-- Step (1): the decay of the pool; a target of 0 switches it off.
unfoldable pub pool_decay : ℕ → ℕ → ℕ → ℕ
pool_decay pool_balance pool_target reward =
    if ltb 0 pool_target
    then (let pool_ratio_ppm =
          if leb pool_target pool_balance
          then one_million
          else sat_mul u128_max pool_balance one_million / max pool_target 1 in
        sat_mul u128_max reward pool_ratio_ppm / one_million)
    else reward

-- Step (2): the square root of the share in all bonds; a total or a bond of 0 switches it off.
unfoldable pub bond_correction : ℕ → ℕ → ℕ → ℕ
bond_correction node_bond total_active_bond reward =
    if ltb 0 total_active_bond && ltb 0 node_bond
    then (let bond_share_ppm = sat_mul u128_max node_bond one_million / max total_active_bond 1 in
        sat_mul u128_max reward (root bond_share_ppm) / one_million)
    else reward

unfoldable pub calculate_reward_v3 :
    (data_size base_reward_per_byte score threshold : ℕ) → ℕ → ℕ → ℕ → ℕ → ℕ
unfolding pool_decay bond_correction
calculate_reward_v3 data_size base_reward_per_byte score threshold pool_balance pool_target
      node_bond total_active_bond =
    if ltb score threshold
    then 0
    else bond_correction node_bond total_active_bond
        (pool_decay pool_balance pool_target (sat_mul u128_max base_reward_per_byte data_size))

unfoldable pub calculate_reward_v2 : ℕ → ℕ → ℕ → ℕ → ℕ → ℕ → ℕ
unfolding calculate_reward_v3
calculate_reward_v2 data_size base_reward_per_byte score threshold pool_balance pool_target =
    calculate_reward_v3 data_size base_reward_per_byte score threshold pool_balance pool_target 0 0
