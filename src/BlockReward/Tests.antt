-- ===== src/BlockReward/Tests.antt =====
-- The theorems on the block reward with the constants of the runtime.
use anarchy.Base.{◌+◌, ◌*◌, ◌/◌, ◌≤◌, refl, some, []}
use anarchy.BlockReward.{Config, State, current_reward, on_finalize, minted}
use anarchy.BlockReward.Shares.{on_finalize_mints}

abbrev config : Config
config = record {
  initial_reward = 5_000_000_000_000;
  tail_emission = 500_000_000_000;
  halving_period = 4_204_800;
  max_halvings = 64;
  miner_share_permill = 500_000;
  storage_share_permill = 300_000;
  reaction_share_permill = 200_000;
  mul_floor = λ parts x. parts * x / 1_000_000;
}

abbrev start : State
start = record { deposits = []; events = [] }

on_finalize_mints_example :
    minted (on_finalize config 7 (some 3) start).deposits
    ≤ minted start.deposits + current_reward config 7
on_finalize_mints_example = on_finalize_mints config (λ p x. refl) 7 (some 3) start
