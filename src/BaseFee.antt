-- ===== src/BaseFee.antt =====
-- The base fee per byte (apps/blockchain/pallets/base_fee/src/lib.rs): a fee that the end of each
-- block moves towards what the bytes used in the block ask for.
-- `BaseFee` and the arithmetic are `u128`, the bytes of a block `u32`.
pub mod Bounds
pub mod Attack
pub mod Tests
use anarchy.Base.{
  ℕ, ◌+◌, ◌-◌, ◌*◌, ◌/◌, min, max, Option, none, some, List, [], ◌∷◌, not, leb, ◌==◌, if◌then◌else◌,
  sat_add, sat_mul, u32_max, u128_max,
}

pub record Config : Type 0 where
  pub gas_target_bytes_per_block : ℕ
  pub base_fee_min : ℕ
  pub base_fee_max : ℕ
  pub base_fee_init : ℕ

pub data Event : Type 0 where
  base_fee_updated : (old_fee new_fee gas_used : ℕ) → Event

pub record State : Type 0 where
  pub base_fee : ℕ
  pub gas_used_this_block : ℕ
  pub events : List Event

module _ (config : Config) where
  -- `GenesisConfig::build`.
  abbrev pub genesis : State
  genesis = record {
    base_fee = max config.base_fee_init config.base_fee_min;
    gas_used_this_block = 0;
    events = [];
  }

  unfoldable pub current_base_fee_value : State → ℕ
  current_base_fee_value s = max s.base_fee config.base_fee_min

  abbrev pub gas_target : ℕ
  gas_target = max config.gas_target_bytes_per_block 1

  -- The fee that the used bytes ask for, and its two clamps.
  unfoldable pub new_fee : (cur used : ℕ) → ℕ
  new_fee cur used =
      if leb gas_target used
      then sat_add u128_max cur (sat_mul u128_max cur (used - gas_target) / (gas_target * 8))
      else cur - sat_mul u128_max cur (gas_target - used) / (gas_target * 8)

  unfoldable pub clamp_fee : (cur fee : ℕ) → ℕ
  clamp_fee cur fee =
      min (max (max (min fee (sat_add u128_max cur (cur / 8))) (cur - cur / 8)) config.base_fee_min)
        config.base_fee_max

  unfoldable pub on_finalize : State → State
  on_finalize s =
      let used = s.gas_used_this_block in
      let cur = current_base_fee_value s in
      let final_fee = clamp_fee cur (new_fee cur used) in
      let taken = record s { gas_used_this_block = 0 } in
      if not (final_fee == cur)
      then record taken {
        base_fee = final_fee;
        events = base_fee_updated cur final_fee used ∷ s.events;
      }
      else taken

-- `record_gas`.
unfoldable pub record_gas_internal : ℕ → State → State
record_gas_internal bytes s = record s {
  gas_used_this_block = sat_add u32_max s.gas_used_this_block bytes;
}

-- A block: the bytes that its extrinsics record, then its end.
unfoldable pub block : Config → List ℕ → State → State
block config [] s = on_finalize config s
block config (bytes ∷ rest) s = block config rest (record_gas_internal bytes s)

unfoldable pub blocks : Config → List (List ℕ) → State → State
blocks config [] s = s
blocks config (b ∷ bs) s = blocks config bs (block config b s)
