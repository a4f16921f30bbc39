-- ===== src/BlockReward/Shares.antt =====
-- What a block mints, and how the reward falls with the block number.
use anarchy.Base.{
  ℕ, ◌+◌, ◌*◌, ◌/◌, ◌%◌, ◌^◌, ◌≤◌, ◌<◌, ◌≡◌, refl, arith, Option, none, some, div_mono, div-anti,
}
use native.Mathlib.Nat.{mul-le-mul_right, pow-le-pow_right}
use anarchy.BlockReward.{
  Config, State, current_reward, halvings, shift_right, split, on_finalize, minted,
}

shares_le :
    (m s r t : ℕ)
    → m + s + r ≤ 1_000_000
    → m * t / 1_000_000 + s * t / 1_000_000 + r * t / 1_000_000 ≤ t
shares_le m s r t h = omega (arith, mul-le-mul_right t h)

module _ (config : Config) (floor : (p x : ℕ) → config.mul_floor p x ≡ p * x / 1_000_000) where
  -- When `mul_floor` is the product rounded down, the end of a block mints and deposits at most
  -- the reward of the block, on every path, also when the shares add up to more than the whole.
  pub on_finalize_mints :
      (n : ℕ) (author : Option ℕ) (s : State)
      → minted (on_finalize config n author s).deposits
        ≤ minted s.deposits + current_reward config n
  unfolding on_finalize split
  on_finalize_mints n none s = ground arith
  on_finalize_mints n (some author) s = ground (
    arith,
    floor config.miner_share_permill (current_reward config n),
    floor config.storage_share_permill (current_reward config n),
    floor config.reaction_share_permill (current_reward config n),
    shares_le config.miner_share_permill config.storage_share_permill config.reaction_share_permill
        (current_reward config n),
  )

module _ (config : Config) where
  halvings_mono : (m n : ℕ) → m ≤ n → n < 2 ^ 32 → halvings config m ≤ halvings config n
  unfolding halvings
  halvings_mono m n h k = omega (arith, div_mono m n config.halving_period h)

  -- The reward falls when the number of halvings grows.
  halved-anti : (a b : ℕ) → a ≤ b → config.initial_reward / 2 ^ b ≤ config.initial_reward / 2 ^ a
  halved-anti a b h =
      let positive : 0 < 2 ^ a =
        pow-le-pow_right {n = 2} (omega arith) {i = 0} {j = a} (omega arith) in
      div-anti config.initial_reward (2 ^ a) (2 ^ b) positive (pow-le-pow_right (omega arith) h)

  shift_right_lem :
      (n : ℕ) → n < 128 → shift_right config.initial_reward n ≡ config.initial_reward / 2 ^ n
  shift_right_lem n h = let small : n % 128 ≡ n = omega arith in rw small refl

  -- With at most 128 halvings, the reward never rises on the block numbers of `u32`, and it never
  -- falls below the tail emission.
  pub current_reward_schedule :
      config.max_halvings ≤ 128
      → (m n : ℕ) → m ≤ n
      → n < 2 ^ 32
      → (config.tail_emission ≤ current_reward config n)
        × (current_reward config n ≤ current_reward config m)
  unfolding current_reward
  current_reward_schedule few m n h k =
      let fewer = halvings_mono m n h k in
      ground (
        arith,
        fewer,
        halved-anti (halvings config m) (halvings config n) fewer,
        shift_right_lem (halvings config m),
        shift_right_lem (halvings config n),
      )
