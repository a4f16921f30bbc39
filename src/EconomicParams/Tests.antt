-- ===== src/EconomicParams/Tests.antt =====
-- The theorems on the economic parameters with the defaults of the runtime, and account 0 as governance.
use anarchy.Base.{◌≡◌, refl, arith, none, List, [], ◌∷◌, ◌==◌}
use anarchy.EconomicParams.{
  Config, State, Call, run, post_storage_call, post_reaction_call, base_fee_call,
  effective_post_reaction_share, set_post_storage_share, set_post_reaction_share,
  set_base_fee_range,
}
use anarchy.EconomicParams.Shares.{IsBounded, run-IsBounded}

abbrev config : Config
config = record {
  governance_origin = λ who. who == 0;
  default_post_storage_share = 500_000;
  default_post_reaction_share = 200_000;
  default_dm_storage_share = 500_000;
  default_dm_stealth_share = 200_000;
  default_miner_share = 700_000;
  default_storage_share = 200_000;
  default_reaction_share = 100_000;
  default_reactor_lock_min = 100_000_000_000;
  default_bond_per_gb = 1_000;
  default_slash_rate_per_fail_ppm = 50_000;
  default_base_fee_min = 100;
  default_base_fee_max = 100_000;
}

abbrev start : State
start = record {
  post_storage = none;
  post_reaction = none;
  dm_storage = none;
  dm_stealth = none;
  miner = none;
  storage = none;
  reaction = none;
  lock_min = none;
  per_gb = none;
  slash_rate = none;
  fee_min = none;
  fee_max = none;
  events = [];
}

abbrev calls : List Call
calls =
    post_storage_call 0 900_000
    ∷ post_storage_call 0 100_000
    ∷ post_reaction_call 0 850_000
    ∷ post_reaction_call 7 0
    ∷ base_fee_call 0 9 8
    ∷ []

-- The first call is refused, since the shares would exceed the whole; the fourth, since account 7 is
-- not governance.
reaction_share : effective_post_reaction_share config (run config calls start) ≡ 850_000
unfolding run set_post_storage_share set_post_reaction_share set_base_fee_range
reaction_share = refl

start-IsBounded : IsBounded config start
start-IsBounded = record {
  post_shares = omega arith;
  dm_shares = omega arith;
  reward_shares = omega arith;
  slash_rate = omega arith;
  fee_range = omega arith;
}

run-IsBounded_example : IsBounded config (run config calls start)
run-IsBounded_example = run-IsBounded config calls start start-IsBounded
