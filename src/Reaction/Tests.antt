-- ===== src/Reaction/Tests.antt =====
-- The theorems on reactions at a small chain: post 1 by account 9, a hash of zero bytes, and the
-- constants of the runtime where they matter.
use anarchy.Base.{
  ℕ, ◌+◌, ◌*◌, ◌≡◌, ◌≤◌, ◌<◌, ◌⊎◌, refl, none, some, List, [], ◌∷◌, arith, is_some, true,
  if◌then◌else◌, ◌==◌, update, u32_max, sat_add,
}
use anarchy.Base.Dispatch.{ok, err, commit}
use anarchy.Base.Balances.{Balances, currency}
use anarchy.Rewards.{root, sqrt_ppm, scaled_sqrt}
use anarchy.Reaction.Types.{Config, State, ReactionType, like, bad, Error}
use anarchy.Reaction.{react, lock_for_rewards, new_difficulty, on_finalize}
use anarchy.Reaction.Accepted.{IsAcceptable, Reacts, react-Reacts}
use anarchy.Reaction.Once.{IsCounted, run-IsCounted}
use anarchy.Reaction.Budget.{IsWithinCap, paid_in_block, run-IsWithinCap}
use anarchy.Reaction.Difficulty.{target_total, divisor, new_difficulty_bounds}
use anarchy.Reaction.Run.{Call, run, dispatch, react_call, lock_call, end_block}

abbrev pub config : Config Balances
config = record {
  reaction_reward = 1_000_000_000;
  min_difficulty = 8;
  max_difficulty = 32;
  challenge_validity = 100;
  target_reaction_rate = 10;
  adjustment_window = 10;
  adjustment_divisor = 4;
  gamma_max_ppm = 10_000;
  reactor_decay_k = 100;
  per_block_payout_cap_ppm = 17;
  reactor_lock_min = 100;
  reactor_lock_duration = 2880;
  get_post_author = λ post w. if post == 1 then some 9 else none;
  total_issuance = λ w. 1_000_000_000;
  mint_into = λ who amount w. some (record w { free = update who (w.free who + amount) w.free });
  block_hash = λ block w. 1 ∷ [];
  encode = λ who. who ∷ [];
  blake2_256 = λ bytes. 0 ∷ 0 ∷ [];
}

abbrev on_reaction : ℕ → ReactionType → Balances → Balances
on_reaction post kind w = w

abbrev pub start : State Balances
start = record {
  reactions = λ post. [];
  reaction_stats = λ post. record { likes = 0; bads = 0 };
  user_reaction_count = λ who. 0;
  reaction_reward_pool = 1_000_000_000;
  reactor_cumulative_count = λ who. 0;
  current_difficulty = 8;
  reaction_history = λ block. 3;
  total_reactions = 0;
  reactor_locks = [];
  per_block_payout_accumulator = 0;
  reactor_locks_count = 0;
  block_number = 20;
  world = record { free = λ a. 5000; held = λ a. 7 };
  events = [];
}

abbrev calls : List (Call Balances)
calls = lock_call 4 100 ∷ react_call 4 1 like 15 77 3 ∷ react_call 4 1 bad 15 77 3 ∷ end_block ∷ []

abbrev reacted : State Balances
reacted = commit start (react config on_reaction 4 1 like 15 77 3 start)

reacts : react config on_reaction 4 1 like 15 77 3 start ≡ ok reacted
unfolding react
reacts = refl

abbrev locked : State Balances
locked = commit start (lock_for_rewards config currency 4 100 start)

locks : lock_for_rewards config currency 4 100 start ≡ ok locked
unfolding lock_for_rewards
locks = refl

-- A locked account's Like pays the whole budget of the block, 17 parts per million of the pool.
like_pays :
    (run config currency on_reaction
      (lock_call 4 100 ∷ react_call 4 1 like 15 77 3 ∷ [])
      start).reaction_reward_pool
    ≡ 999_983_000
unfolding run dispatch react lock_for_rewards root sqrt_ppm scaled_sqrt
like_pays = refl

start-IsCounted : IsCounted start
start-IsCounted = record { unique = λ p. tt; likes = λ p. refl; bads = λ p. refl }

start-IsWithinCap : IsWithinCap config on_reaction currency 0 start
start-IsWithinCap = record { accounted = refl; capped = omega arith; pool_fits = omega arith }

react-Reacts_example :
    ((e : Error) × (react config on_reaction 4 1 like 15 77 3 start ≡ err e)
      × ¬ (IsAcceptable config on_reaction 4 1 15 77 start))
    ⊎ ((t : State Balances) × (react config on_reaction 4 1 like 15 77 3 start ≡ ok t)
        × IsAcceptable config on_reaction 4 1 15 77 start
        × Reacts config on_reaction 4 1 like 77 3 start t)
react-Reacts_example = react-Reacts config on_reaction 4 1 like 15 77 3 start

run-IsCounted_example : IsCounted (run config currency on_reaction calls start)
run-IsCounted_example = run-IsCounted config on_reaction currency calls start start-IsCounted

run-IsWithinCap_example :
    IsWithinCap config on_reaction currency
      (paid_in_block config on_reaction currency calls start 0)
      (run config currency on_reaction calls start)
run-IsWithinCap_example =
    run-IsWithinCap config on_reaction currency (omega arith) calls start 0 start-IsWithinCap

posted :
    is_some
      (config.get_post_author 1 (run config currency on_reaction (end_block ∷ []) reacted).world)
    ≡ true
posted = refl

early :
    (run config currency on_reaction (end_block ∷ []) locked).block_number < sat_add u32_max 20 2880
unfolding run dispatch on_finalize lock_for_rewards
early = omega arith

new_difficulty_bounds_example :
    (8 ≤ new_difficulty config 20 150)
    × (new_difficulty config 20 150 ≤ 32)
    × (150 ≤ 180
        → 180 < target_total config + 256 * divisor config
        → target_total config < 150 + 256 * divisor config
        → new_difficulty config 20 150 ≤ new_difficulty config 20 180)
    × (new_difficulty config 20 (target_total config + 256 * divisor config)
        ≡ new_difficulty config 20 (target_total config))
new_difficulty_bounds_example = new_difficulty_bounds config 20 150 180 (omega arith)
