-- ===== src/BaseFee/Tests.antt =====
-- The theorems on the base fee with the constants of the runtime.
use anarchy.Base.{ℕ, ◌-◌, ◌+◌, ◌/◌, ◌≤◌, refl, min, arith, [], ◌∷◌}
use anarchy.BaseFee.{Config, State, genesis, current_base_fee_value, on_finalize, blocks}
use anarchy.BaseFee.Bounds.{on_finalize_bounds}
use anarchy.BaseFee.Attack.{blocks_reach_max}

abbrev pub config : Config
config = record {
  gas_target_bytes_per_block = 50_000;
  base_fee_min = 100;
  base_fee_max = 100_000_000_000;
  base_fee_init = 10_000;
}

-- A block with three times the target, and one with half of it.
abbrev busy : State
busy = record (genesis config) { gas_used_this_block = 150_000 }

abbrev calm : State
calm = record (genesis config) { gas_used_this_block = 25_000 }

abbrev fee : State → ℕ
fee s = current_base_fee_value config s

on_finalize_bounds_example :
    (100 ≤ fee (on_finalize config busy))
    × (fee (on_finalize config busy) ≤ 100_000_000_000)
    × (fee busy ≤ 100_000_000_000
        → (fee busy - fee busy / 8 ≤ fee (on_finalize config busy))
          × (fee (on_finalize config busy) ≤ fee busy + fee busy / 8))
on_finalize_bounds_example = on_finalize_bounds config busy (omega arith) (omega arith)

fee_start : fee calm ≤ 100_000_000_000
unfolding current_base_fee_value
fee_start = omega arith

fee-busy : fee busy ≤ 100_000_000_000
unfolding current_base_fee_value
fee-busy = omega arith

fee-genesis : fee (genesis config) ≤ 100_000_000_000
unfolding current_base_fee_value
fee-genesis = omega arith

blocks_reach_max_example :
    min (fee (genesis config) + 2) 100_000_000_000
    ≤ fee (blocks config ((60_000 ∷ 50_000 ∷ []) ∷ (200_000 ∷ []) ∷ []) (genesis config))
blocks_reach_max_example =
    blocks_reach_max config (omega arith) (omega arith) (omega arith) (omega arith)
      ((60_000 ∷ 50_000 ∷ []) ∷ (200_000 ∷ []) ∷ []) (genesis config)
      (omega arith, (omega arith, tt)) refl fee-genesis
