-- ===== src/BaseFee/Bounds.antt =====
-- How far the fee moves at the end of a block, and over many blocks.
use anarchy.Base.{
  ℕ, ◌+◌, ◌-◌, ◌*◌, ◌/◌, ◌≤◌, ◌<◌, ◌≡◌, min, max, arith, u32_max, u128_max, sat_mul, div_mono,
}
use native.Mathlib.Nat.{mul-div-mul_right, mul-le-mul_left, mul-le-mul}
use anarchy.BaseFee.{
  Config, State, current_base_fee_value, gas_target, new_fee, clamp_fee, on_finalize,
}

eighth : (c t : ℕ) → 0 < t → c * t / (t * 8) ≡ c / 8
eighth c t h = grind (arith, mul-div-mul_right {m = t} c 8 h)

up-le : (c o t : ℕ) → o ≤ t → 0 < t → sat_mul u128_max c o / (t * 8) ≤ c / 8
up-le c o t h k = omega (
  arith,
  eighth c t k,
  div_mono (sat_mul u128_max c o) (c * t) (t * 8) (omega (arith, mul-le-mul_left c h)),
)

part_mono : (c o p t : ℕ) → o ≤ p → sat_mul u128_max c o / (t * 8) ≤ sat_mul u128_max c p / (t * 8)
part_mono c o p t h = grind arith

full-part : (c o t : ℕ) → t ≤ o → 0 < t → c * o ≤ u128_max → c / 8 ≤ sat_mul u128_max c o / (t * 8)
full-part c o t h k l = omega (
  arith,
  eighth c t k,
  div_mono (c * t) (sat_mul u128_max c o) (t * 8) (omega (arith, mul-le-mul_left c h)),
)

module _ (config : Config) where
  pub on_finalize-fee :
      (s : State)
      → config.base_fee_min ≤ config.base_fee_max
      → current_base_fee_value config (on_finalize config s)
        ≡ clamp_fee config
            (current_base_fee_value config s)
            (new_fee config (current_base_fee_value config s) s.gas_used_this_block)
  unfolding on_finalize current_base_fee_value clamp_fee
  on_finalize-fee s h = ground arith

  new_fee_mono : (c u v : ℕ) → c ≤ u128_max → u ≤ v → new_fee config c u ≤ new_fee config c v
  unfolding new_fee
  new_fee_mono c u v k h = ground (
    arith,
    part_mono c (u - gas_target config) (v - gas_target config) (gas_target config) (omega arith),
    part_mono c (gas_target config - v) (gas_target config - u) (gas_target config) (omega arith),
  )

  clamp_fee_bounds :
      (c f : ℕ)
      → config.base_fee_min ≤ config.base_fee_max
      → config.base_fee_max ≤ u128_max
      → (config.base_fee_min ≤ clamp_fee config c f)
        × (clamp_fee config c f ≤ config.base_fee_max)
        × (config.base_fee_min ≤ c
            → c ≤ config.base_fee_max
            → (c - c / 8 ≤ clamp_fee config c f) × (clamp_fee config c f ≤ c + c / 8))
  unfolding clamp_fee
  clamp_fee_bounds c f h k = ground arith

  -- With a minimum of at most the maximum, the fee after a block lies between them; a fee that was
  -- not above the maximum moves by an eighth of itself at most.
  pub on_finalize_bounds :
      (s : State)
      → config.base_fee_min ≤ config.base_fee_max
      → config.base_fee_max ≤ u128_max
      → (config.base_fee_min ≤ current_base_fee_value config (on_finalize config s))
        × (current_base_fee_value config (on_finalize config s) ≤ config.base_fee_max)
        × (current_base_fee_value config s ≤ config.base_fee_max
            → (current_base_fee_value config s - current_base_fee_value config s / 8
                ≤ current_base_fee_value config (on_finalize config s))
              × (current_base_fee_value config (on_finalize config s)
                  ≤ current_base_fee_value config s + current_base_fee_value config s / 8))
  unfolding current_base_fee_value
  on_finalize_bounds s h k = ground (
    arith,
    on_finalize-fee s h,
    clamp_fee_bounds (current_base_fee_value config s)
        (new_fee config (current_base_fee_value config s) s.gas_used_this_block) h k,
  )

  -- From the same fee, a block that used more bytes leaves no lower fee.
  pub on_finalize_mono :
      (s t : State)
      → config.base_fee_min ≤ config.base_fee_max
      → config.base_fee_min ≤ u128_max
      → s.base_fee ≤ u128_max
      → s.base_fee ≡ t.base_fee
      → s.gas_used_this_block ≤ t.gas_used_this_block
      → current_base_fee_value config (on_finalize config s)
        ≤ current_base_fee_value config (on_finalize config t)
  unfolding clamp_fee current_base_fee_value
  on_finalize_mono s t h m k e l =
      rw (on_finalize-fee s h, on_finalize-fee t h, e)
        (omega (
          arith,
          new_fee_mono (current_base_fee_value config t) s.gas_used_this_block t.gas_used_this_block
              (omega arith) l,
        ))

  new_fee_direction :
      (c u : ℕ)
      → c ≤ u128_max
      → (u ≤ gas_target config → new_fee config c u ≤ c)
        × (gas_target config ≤ u → c ≤ new_fee config c u)
  unfolding new_fee
  new_fee_direction c u k = ground arith

  -- A fee that was not above the maximum does not rise after a block of at most the target, and does
  -- not fall after one of at least the target.
  pub on_finalize_direction :
      (s : State)
      → config.base_fee_min ≤ config.base_fee_max
      → config.base_fee_max ≤ u128_max
      → current_base_fee_value config s ≤ config.base_fee_max
      → (s.gas_used_this_block ≤ gas_target config
          → current_base_fee_value config (on_finalize config s) ≤ current_base_fee_value config s)
        × (gas_target config ≤ s.gas_used_this_block
            → current_base_fee_value config s
              ≤ current_base_fee_value config (on_finalize config s))
  unfolding clamp_fee current_base_fee_value
  on_finalize_direction s h k l = ground (
    arith,
    on_finalize-fee s h,
    new_fee_direction (current_base_fee_value config s) s.gas_used_this_block (omega arith),
  )

  new_fee_full :
      (c u : ℕ)
      → 2 * gas_target config ≤ u
      → c * u ≤ u128_max
      → c ≤ u128_max
      → min (c + c / 8) u128_max ≤ new_fee config c u
  unfolding new_fee
  new_fee_full c u h k l = ground (
    arith,
    full-part c (u - gas_target config) (gas_target config) (omega arith) (omega arith)
        (omega (arith, mul-le-mul_left {m = u - gas_target config} {n = u} c (omega arith))),
  )

  new_fee_empty : (c : ℕ) → c * gas_target config ≤ u128_max → new_fee config c 0 ≡ c - c / 8
  unfolding new_fee
  new_fee_empty c h = ground (arith, eighth c (gas_target config) (omega arith))

  -- A block of at least twice the target raises a fee that was not above the maximum by exactly an
  -- eighth, up to the maximum, and a block without bytes lowers it by exactly an eighth, down to the
  -- minimum; the products must fit into u128.
  pub on_finalize_extremes :
      (s : State)
      → config.base_fee_min ≤ config.base_fee_max
      → config.base_fee_max * u32_max ≤ u128_max
      → gas_target config ≤ u32_max
      → s.gas_used_this_block ≤ u32_max
      → current_base_fee_value config s ≤ config.base_fee_max
      → (2 * gas_target config ≤ s.gas_used_this_block
          → current_base_fee_value config (on_finalize config s)
            ≡ min
                (current_base_fee_value config s + current_base_fee_value config s / 8)
                config.base_fee_max)
        × (s.gas_used_this_block ≡ 0
            → current_base_fee_value config (on_finalize config s)
              ≡ max
                  (current_base_fee_value config s - current_base_fee_value config s / 8)
                  config.base_fee_min)
  unfolding clamp_fee current_base_fee_value
  on_finalize_extremes s h k l m n =
      let c = current_base_fee_value config s in
      (
        λ f. rw (on_finalize-fee s h) (
            omega (
              arith,
              new_fee_full c s.gas_used_this_block f
                  (omega (arith, mul-le-mul {n₁ = c} {n₂ = config.base_fee_max} n m)) (omega arith),
            )),
        λ e.
            rw (on_finalize-fee s h, e)
              (omega (
                arith,
                new_fee_empty c (omega (arith, mul-le-mul {n₁ = c} {n₂ = config.base_fee_max} n l)),
              )),
      )
