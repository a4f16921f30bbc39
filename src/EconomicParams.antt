-- ===== src/EconomicParams.antt =====
-- The economic parameters that governance may change
-- (apps/blockchain/pallets/economic_params/src/lib.rs). A `Permill` is its number of parts in a
-- million; the origin of governance is a test on the caller.
pub mod Shares
mod Tests
use anarchy.Base.{ℕ, ◌+◌, Bool, Option, none, some, List, [], ◌∷◌, leb}
use anarchy.Base.Dispatch.{Result, ok, err, ◌>>=◌, ◌>>◌, ensure, commit}

pub record Config : Type 0 where
  pub governance_origin : ℕ → Bool
  pub default_post_storage_share : ℕ
  pub default_post_reaction_share : ℕ
  pub default_dm_storage_share : ℕ
  pub default_dm_stealth_share : ℕ
  pub default_miner_share : ℕ
  pub default_storage_share : ℕ
  pub default_reaction_share : ℕ
  pub default_reactor_lock_min : ℕ
  pub default_bond_per_gb : ℕ
  pub default_slash_rate_per_fail_ppm : ℕ
  pub default_base_fee_min : ℕ
  pub default_base_fee_max : ℕ

pub data ParameterKey : Type 0 where
  post_storage_share post_reaction_share dm_storage_share dm_stealth_share : ParameterKey
  miner_share storage_share reaction_share reactor_lock_min bond_per_gb : ParameterKey
  slash_rate_per_fail_ppm base_fee_min base_fee_max : ParameterKey

pub data Event : Type 0 where
  parameter_updated : ParameterKey → (old_value : Option ℕ) → (new_value : ℕ) → Event

pub data Error : Type 0 where
  bad_origin invalid_permill shares_sum_exceeds_hundred inverted_base_fee_range : Error
  slash_rate_above_100_percent : Error

-- The values that governance has set; `none` stands for the default.
pub record State : Type 0 where
  pub post_storage : Option ℕ
  pub post_reaction : Option ℕ
  pub dm_storage : Option ℕ
  pub dm_stealth : Option ℕ
  pub miner : Option ℕ
  pub storage : Option ℕ
  pub reaction : Option ℕ
  pub lock_min : Option ℕ
  pub per_gb : Option ℕ
  pub slash_rate : Option ℕ
  pub fee_min : Option ℕ
  pub fee_max : Option ℕ
  pub events : List Event

-- `unwrap_or_else`
abbrev pub or_default : ℕ → Option ℕ → ℕ
or_default d none = d
or_default d (some v) = v

abbrev pub permill_parts : ℕ
permill_parts = 1_000_000

-- `ensure_permill_bounded`, with the error that its callers map it to.
abbrev pub ensure_permill_bounded : ℕ → Result Error (Unit {0})
ensure_permill_bounded p = ensure (leb p permill_parts) invalid_permill

abbrev pub emit : ParameterKey → Option ℕ → ℕ → State → State
emit key old new s = record s { events = parameter_updated key old new ∷ s.events }

module _ (config : Config) where
  abbrev pub effective_post_storage_share : State → ℕ
  effective_post_storage_share s = or_default config.default_post_storage_share s.post_storage

  abbrev pub effective_post_reaction_share : State → ℕ
  effective_post_reaction_share s = or_default config.default_post_reaction_share s.post_reaction

  abbrev pub effective_dm_storage_share : State → ℕ
  effective_dm_storage_share s = or_default config.default_dm_storage_share s.dm_storage

  abbrev pub effective_dm_stealth_share : State → ℕ
  effective_dm_stealth_share s = or_default config.default_dm_stealth_share s.dm_stealth

  abbrev pub effective_miner_share : State → ℕ
  effective_miner_share s = or_default config.default_miner_share s.miner

  abbrev pub effective_storage_share : State → ℕ
  effective_storage_share s = or_default config.default_storage_share s.storage

  abbrev pub effective_reaction_share : State → ℕ
  effective_reaction_share s = or_default config.default_reaction_share s.reaction

  abbrev pub effective_reactor_lock_min : State → ℕ
  effective_reactor_lock_min s = or_default config.default_reactor_lock_min s.lock_min

  abbrev pub effective_bond_per_gb : State → ℕ
  effective_bond_per_gb s = or_default config.default_bond_per_gb s.per_gb

  abbrev pub effective_slash_rate_per_fail_ppm : State → ℕ
  effective_slash_rate_per_fail_ppm s =
      or_default config.default_slash_rate_per_fail_ppm s.slash_rate

  abbrev pub effective_base_fee_min : State → ℕ
  effective_base_fee_min s = or_default config.default_base_fee_min s.fee_min

  abbrev pub effective_base_fee_max : State → ℕ
  effective_base_fee_max s = or_default config.default_base_fee_max s.fee_max

  unfoldable pub set_post_storage_share : (origin new : ℕ) → State → Result Error State
  set_post_storage_share origin new s = do
    ensure (config.governance_origin origin) bad_origin
    ensure_permill_bounded new
    ensure (leb (new + effective_post_reaction_share s) permill_parts) shares_sum_exceeds_hundred
    ok (emit post_storage_share s.post_storage new (record s { post_storage = some new }))

  unfoldable pub set_post_reaction_share : (origin new : ℕ) → State → Result Error State
  set_post_reaction_share origin new s = do
    ensure (config.governance_origin origin) bad_origin
    ensure_permill_bounded new
    ensure (leb (new + effective_post_storage_share s) permill_parts) shares_sum_exceeds_hundred
    ok (emit post_reaction_share s.post_reaction new (record s { post_reaction = some new }))

  unfoldable pub set_dm_storage_share : (origin new : ℕ) → State → Result Error State
  set_dm_storage_share origin new s = do
    ensure (config.governance_origin origin) bad_origin
    ensure_permill_bounded new
    ensure (leb (new + effective_dm_stealth_share s) permill_parts) shares_sum_exceeds_hundred
    ok (emit dm_storage_share s.dm_storage new (record s { dm_storage = some new }))

  unfoldable pub set_dm_stealth_share : (origin new : ℕ) → State → Result Error State
  set_dm_stealth_share origin new s = do
    ensure (config.governance_origin origin) bad_origin
    ensure_permill_bounded new
    ensure (leb (new + effective_dm_storage_share s) permill_parts) shares_sum_exceeds_hundred
    ok (emit dm_stealth_share s.dm_stealth new (record s { dm_stealth = some new }))

  -- The event has the share of the miner only.
  unfoldable pub set_block_reward_shares :
      (origin new_miner new_storage new_reaction : ℕ) → State → Result Error State
  set_block_reward_shares origin new_miner new_storage new_reaction s = do
    ensure (config.governance_origin origin) bad_origin
    ensure (leb (new_miner + new_storage + new_reaction) permill_parts) shares_sum_exceeds_hundred
    ok (
        emit miner_share none new_miner (record s {
          miner = some new_miner;
          storage = some new_storage;
          reaction = some new_reaction;
        }))

  unfoldable pub set_reactor_lock_min : (origin new : ℕ) → State → Result Error State
  set_reactor_lock_min origin new s = do
    ensure (config.governance_origin origin) bad_origin
    ok (emit reactor_lock_min s.lock_min new (record s { lock_min = some new }))

  unfoldable pub set_bond_per_gb : (origin new : ℕ) → State → Result Error State
  set_bond_per_gb origin new s = do
    ensure (config.governance_origin origin) bad_origin
    ok (emit bond_per_gb s.per_gb new (record s { per_gb = some new }))

  unfoldable pub set_slash_rate_per_fail_ppm : (origin new : ℕ) → State → Result Error State
  set_slash_rate_per_fail_ppm origin new s = do
    ensure (config.governance_origin origin) bad_origin
    ensure (leb new permill_parts) slash_rate_above_100_percent
    ok (emit slash_rate_per_fail_ppm s.slash_rate new (record s { slash_rate = some new }))

  unfoldable pub set_base_fee_range : (origin new_min new_max : ℕ) → State → Result Error State
  set_base_fee_range origin new_min new_max s = do
    ensure (config.governance_origin origin) bad_origin
    ensure (leb new_min new_max) inverted_base_fee_range
    ok (
        emit base_fee_min none new_min
          (record s { fee_min = some new_min; fee_max = some new_max }))

-- The calls, each with its caller first.
pub data Call : Type 0 where
  post_storage_call post_reaction_call dm_storage_call dm_stealth_call : (origin new : ℕ) → Call
  block_reward_call : (origin new_miner new_storage new_reaction : ℕ) → Call
  lock_min_call bond_per_gb_call slash_rate_call : (origin new : ℕ) → Call
  base_fee_call : (origin new_min new_max : ℕ) → Call

unfoldable pub dispatch : Config → Call → State → Result Error State
dispatch config (post_storage_call o v) s = set_post_storage_share config o v s
dispatch config (post_reaction_call o v) s = set_post_reaction_share config o v s
dispatch config (dm_storage_call o v) s = set_dm_storage_share config o v s
dispatch config (dm_stealth_call o v) s = set_dm_stealth_share config o v s
dispatch config (block_reward_call o m t r) s = set_block_reward_shares config o m t r s
dispatch config (lock_min_call o v) s = set_reactor_lock_min config o v s
dispatch config (bond_per_gb_call o v) s = set_bond_per_gb config o v s
dispatch config (slash_rate_call o v) s = set_slash_rate_per_fail_ppm config o v s
dispatch config (base_fee_call o a b) s = set_base_fee_range config o a b s

unfoldable pub run : Config → List Call → State → State
unfolding dispatch
run config [] s = s
run config (c ∷ cs) s = run config cs (commit s (dispatch config c s))
