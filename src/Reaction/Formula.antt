-- ===== src/Reaction/Formula.antt =====
-- What the reward of a reaction can be, and how it moves with the history of the reactor.
use anarchy.Base.{ℕ, ◌+◌, ◌/◌, ◌≤◌, ◌<◌, arith, max, sat_mul, u128_max, div_mono, div-anti}
use anarchy.Rewards.{one_million}
use anarchy.Rewards.Bounds.{root_mono, root-le, ppm-le, ppm_mono, share-le}
use anarchy.Reaction.Types.{Config}
use anarchy.Reaction.{gamma_ppm, decay_ppm, compute_reward}

module _ {World : Type 0} (config : Config World) where
  gamma_ppm-le : (pool issuance : ℕ) → gamma_ppm config pool issuance ≤ config.gamma_max_ppm
  unfolding gamma_ppm
  gamma_ppm-le pool issuance = ground arith

  gamma_ppm_mono :
      (a b issuance : ℕ) → a ≤ b → gamma_ppm config a issuance ≤ gamma_ppm config b issuance
  unfolding gamma_ppm
  gamma_ppm_mono a b issuance h = ground (
    arith,
    div_mono (sat_mul u128_max a one_million) (sat_mul u128_max b one_million) (max issuance 1),
  )

  decay_ppm-le : (n : ℕ) → decay_ppm config n ≤ one_million
  unfolding decay_ppm
  decay_ppm-le n = ground (
    arith,
    root-le
        (sat_mul u128_max config.reactor_decay_k one_million / max (config.reactor_decay_k + n) 1),
    share-le config.reactor_decay_k (config.reactor_decay_k + n),
  )

  decay_ppm_anti : (m n : ℕ) → m ≤ n → decay_ppm config n ≤ decay_ppm config m
  unfolding decay_ppm
  decay_ppm_anti m n h = ground (
    arith,
    root_mono
        (sat_mul u128_max config.reactor_decay_k one_million / max (config.reactor_decay_k + n) 1)
        (sat_mul u128_max config.reactor_decay_k one_million / max (config.reactor_decay_k + m) 1),
    div-anti (sat_mul u128_max config.reactor_decay_k one_million)
        (max (config.reactor_decay_k + m) 1) (max (config.reactor_decay_k + n) 1),
    share-le config.reactor_decay_k (config.reactor_decay_k + m),
  )

  -- When the limit of the share of the pool is not 0: a reward is at most that share of the base
  -- reward; it does not grow with the number of reactions that the account has made before, and
  -- does not fall when the pool grows.
  pub compute_reward_bounds :
      (pool issuance n : ℕ)
      → 0 < config.gamma_max_ppm
      → (compute_reward config pool issuance n
          ≤ sat_mul u128_max config.reaction_reward config.gamma_max_ppm / one_million)
        × ((m : ℕ)
            → m ≤ n
            → compute_reward config pool issuance n ≤ compute_reward config pool issuance m)
        × ((smaller : ℕ)
            → smaller ≤ pool
            → compute_reward config smaller issuance n ≤ compute_reward config pool issuance n)
  unfolding compute_reward
  compute_reward_bounds pool issuance n positive =
      let r1 : ℕ → ℕ =
        λ p. sat_mul u128_max config.reaction_reward (gamma_ppm config p issuance) / one_million in
      (
        ground (
          arith,
          ppm-le (r1 pool) (decay_ppm config n),
          decay_ppm-le n,
          ppm_mono config.reaction_reward config.reaction_reward (gamma_ppm config pool issuance)
              config.gamma_max_ppm,
          gamma_ppm-le pool issuance,
        ),
        λ m h. ground (
          arith,
          ppm_mono (r1 pool) (r1 pool) (decay_ppm config n) (decay_ppm config m),
          decay_ppm_anti m n h,
        ),
        λ smaller h. ground (
          arith,
          ppm_mono (r1 smaller) (r1 pool) (decay_ppm config n) (decay_ppm config n),
          ppm_mono config.reaction_reward config.reaction_reward (gamma_ppm config smaller issuance)
              (gamma_ppm config pool issuance),
          gamma_ppm_mono smaller pool issuance h,
        ),
      )
