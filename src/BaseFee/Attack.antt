-- ===== src/BaseFee/Attack.antt =====
-- The fee over many blocks that are more than full.
use anarchy.Base.{ℕ, ◌+◌, ◌*◌, ◌≤◌, ◌≡◌, refl, min, arith, u32_max, u128_max, List, [], ◌∷◌, length}
use anarchy.BaseFee.{
  Config, State, current_base_fee_value, gas_target, on_finalize, record_gas_internal, block,
  blocks,
}
use anarchy.BaseFee.Bounds.{on_finalize_bounds, on_finalize_extremes}

-- What the extrinsics of a block record, before its end.
abbrev recorded : List ℕ → State → State
recorded [] s = s
recorded (bytes ∷ rest) s = recorded rest (record_gas_internal bytes s)

abbrev pub sum : List ℕ → ℕ
sum [] = 0
sum (x ∷ xs) = x + sum xs

block-eq :
    (config : Config) (b : List ℕ) (s : State)
    → block config b s ≡ on_finalize config (recorded b s)
unfolding block
block-eq config [] s = refl
block-eq config (x ∷ b) s = block-eq config b (record_gas_internal x s)

recorded-base_fee : (b : List ℕ) (s : State) → (recorded b s).base_fee ≡ s.base_fee
unfolding record_gas_internal
recorded-base_fee [] s = refl
recorded-base_fee (x ∷ b) s = recorded-base_fee b (record_gas_internal x s)

recorded-gas :
    (b : List ℕ) (s : State)
    → s.gas_used_this_block ≤ u32_max
    → (recorded b s).gas_used_this_block ≡ min (s.gas_used_this_block + sum b) u32_max
unfolding record_gas_internal
recorded-gas [] s h = omega arith
recorded-gas (x ∷ b) s h = omega (arith, recorded-gas b (record_gas_internal x s) (omega arith))

on_finalize-gas : (config : Config) (s : State) → (on_finalize config s).gas_used_this_block ≡ 0
unfolding on_finalize
on_finalize-gas config s = ground arith

-- Every block uses at least twice the target.
abbrev pub AllFull : Config → List (List ℕ) → Type 0
AllFull config [] = Unit
AllFull config (b ∷ bs) = (2 * gas_target config ≤ sum b) × AllFull config bs

module _ (config : Config) (low : 8 ≤ config.base_fee_min)
    (order : config.base_fee_min ≤ config.base_fee_max)
    (fits : config.base_fee_max * u32_max ≤ u128_max)
    (target : 2 * gas_target config ≤ u32_max) where
  block_full :
      (b : List ℕ) (s : State)
      → 2 * gas_target config ≤ sum b
      → s.gas_used_this_block ≡ 0
      → current_base_fee_value config s ≤ config.base_fee_max
      → (min (current_base_fee_value config s + 1) config.base_fee_max
          ≤ current_base_fee_value config (block config b s))
        × (current_base_fee_value config (block config b s) ≤ config.base_fee_max)
        × ((block config b s).gas_used_this_block ≡ 0)
  unfolding current_base_fee_value
  block_full b s h e k =
      let t = recorded b s in
      rw (block-eq config b s) (
        omega (
          arith,
          recorded-base_fee b s,
          recorded-gas b s (omega arith),
          (on_finalize_extremes config t order fits (omega arith)
                (omega (arith, recorded-gas b s (omega arith)))
                (omega (arith, recorded-base_fee b s))).0
              (omega (arith, recorded-gas b s (omega arith))),
        ),
        (on_finalize_bounds config t order (omega arith)).1,
        on_finalize-gas config t,
      )

  -- With a minimum of at least 8 and at most the maximum, a target of which the double fits into
  -- u32 and a maximum whose products fit into u128: from a fee that is not above the maximum, a
  -- run of blocks that each use at least twice the target raises the fee by at least one for
  -- every block, until it stands at the maximum.
  pub blocks_reach_max :
      (bs : List (List ℕ)) (s : State)
      → AllFull config bs
      → s.gas_used_this_block ≡ 0
      → current_base_fee_value config s ≤ config.base_fee_max
      → min (current_base_fee_value config s + length bs) config.base_fee_max
        ≤ current_base_fee_value config (blocks config bs s)
  unfolding blocks
  blocks_reach_max [] s f e k = omega arith
  blocks_reach_max (b ∷ bs) s f e k =
      let step = block_full b s f.0 e k in
      omega (arith, step, blocks_reach_max bs (block config b s) f.1 step.2 step.1)
