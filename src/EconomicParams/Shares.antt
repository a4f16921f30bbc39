-- ===== src/EconomicParams/Shares.antt =====
-- The bounds that the economic parameters keep, and who may change them.
use anarchy.Base.{ℕ, ◌+◌, ◌≡◌, ◌≤◌, refl, false, arith, List, [], ◌∷◌}
use anarchy.Base.Dispatch.{err, commit}
use anarchy.EconomicParams.{
  Config, State, Call, dispatch, run, permill_parts, effective_post_storage_share,
  effective_post_reaction_share, effective_dm_storage_share, effective_dm_stealth_share,
  effective_miner_share, effective_storage_share, effective_reaction_share,
  effective_slash_rate_per_fail_ppm, effective_base_fee_min, effective_base_fee_max,
  set_post_storage_share, set_post_reaction_share, set_dm_storage_share, set_dm_stealth_share,
  set_block_reward_shares, set_reactor_lock_min, set_bond_per_gb, set_slash_rate_per_fail_ppm,
  set_base_fee_range, post_storage_call, post_reaction_call, dm_storage_call, dm_stealth_call,
  block_reward_call, lock_min_call, bond_per_gb_call, slash_rate_call, base_fee_call, bad_origin,
}

-- No group of shares gives out more than the whole, a slash takes at most the whole, and the range
-- of the base fee is not empty.
pub record IsBounded (config : Config) (s : State) : Type 0 where
  pub post_shares :
      effective_post_storage_share config s + effective_post_reaction_share config s ≤ permill_parts
  pub dm_shares :
      effective_dm_storage_share config s + effective_dm_stealth_share config s ≤ permill_parts
  pub reward_shares :
      effective_miner_share config s
        + effective_storage_share config s
        + effective_reaction_share config s
      ≤ permill_parts
  pub slash_rate : effective_slash_rate_per_fail_ppm config s ≤ permill_parts
  pub fee_range : effective_base_fee_min config s ≤ effective_base_fee_max config s

-- Who calls.
abbrev pub origin_of : Call → ℕ
origin_of (post_storage_call o v) = o
origin_of (post_reaction_call o v) = o
origin_of (dm_storage_call o v) = o
origin_of (dm_stealth_call o v) = o
origin_of (block_reward_call o m t r) = o
origin_of (lock_min_call o v) = o
origin_of (bond_per_gb_call o v) = o
origin_of (slash_rate_call o v) = o
origin_of (base_fee_call o a b) = o

module _ (config : Config) where
  step-IsBounded :
      (c : Call) (s : State)
      → IsBounded config s
      → IsBounded config (commit s (dispatch config c s))
  unfolding dispatch set_post_storage_share set_post_reaction_share set_dm_storage_share
      set_dm_stealth_share set_block_reward_shares set_reactor_lock_min set_bond_per_gb
      set_slash_rate_per_fail_ppm set_base_fee_range
  step-IsBounded (post_storage_call o v) s b = ground arith
  step-IsBounded (post_reaction_call o v) s b = ground arith
  step-IsBounded (dm_storage_call o v) s b = ground arith
  step-IsBounded (dm_stealth_call o v) s b = ground arith
  step-IsBounded (block_reward_call o m t r) s b = ground arith
  step-IsBounded (lock_min_call o v) s b = ground arith
  step-IsBounded (bond_per_gb_call o v) s b = ground arith
  step-IsBounded (slash_rate_call o v) s b = ground arith
  step-IsBounded (base_fee_call o a c) s b = ground arith

  -- Along any sequence of calls: the shares of a post, of a message and of the block reward sum to at
  -- most the whole, the rate of a slash is at most the whole, and the least base fee is at most
  -- the greatest.
  pub run-IsBounded :
      (cs : List Call) (s : State) → IsBounded config s → IsBounded config (run config cs s)
  unfolding run
  run-IsBounded [] s b = b
  run-IsBounded (c ∷ cs) s b =
      run-IsBounded cs (commit s (dispatch config c s)) (step-IsBounded c s b)

  -- A call that does not come from governance is refused.
  pub dispatch_refuses :
      (c : Call) (s : State)
      → config.governance_origin (origin_of c) ≡ false
      → dispatch config c s ≡ err bad_origin
  unfolding dispatch set_post_storage_share set_post_reaction_share set_dm_storage_share
      set_dm_stealth_share set_block_reward_shares set_reactor_lock_min set_bond_per_gb
      set_slash_rate_per_fail_ppm set_base_fee_range
  dispatch_refuses (post_storage_call o v) s h = rw h refl
  dispatch_refuses (post_reaction_call o v) s h = rw h refl
  dispatch_refuses (dm_storage_call o v) s h = rw h refl
  dispatch_refuses (dm_stealth_call o v) s h = rw h refl
  dispatch_refuses (block_reward_call o m t r) s h = rw h refl
  dispatch_refuses (lock_min_call o v) s h = rw h refl
  dispatch_refuses (bond_per_gb_call o v) s h = rw h refl
  dispatch_refuses (slash_rate_call o v) s h = rw h refl
  dispatch_refuses (base_fee_call o a b) s h = rw h refl
