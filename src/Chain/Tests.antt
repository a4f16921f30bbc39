-- ===== src/Chain/Tests.antt =====
-- The theorems on the pallets together, at a small chain.
use anarchy.Base.{
  arith, ℕ, ◌+◌, ◌*◌, ◌/◌, ◌≡◌, refl, true, none, some, List, [], ◌∷◌, contains, none-some,
}
use anarchy.Base.Balances.{Balances}
use anarchy.Base.Dispatch.{ok, err}
use anarchy.BaseFee
use anarchy.BaseFee.Tests.{config as fee_config}
use anarchy.Popularity
use anarchy.Post.{Draft, create_post}
use anarchy.Post.Types.{Config as PostConfig, State as PostState, Error as PostError}
use anarchy.Reaction.Tests.{config as reaction_config, start as reaction_start}
use anarchy.Storage.Nodes.{register_fragment, register_fragment_at}
use anarchy.Storage.Release.{do_deposit_to_reward_pool}
use anarchy.Storage.Run.{declare_holding_call}
use anarchy.Storage.Tests.{env, start as storage_start}
use anarchy.Storage.Types.{State as StorageState}
use anarchy.Chain.{
  Pillars, Chain, Setup, Call, run, post_config, create_call, storage_call, reaction_counted,
  popularity_pass, next_block,
}
use anarchy.Chain.Served.{IsServed, run-IsServed}
use anarchy.Chain.Front.{register_fragment_blocks, with_state}

abbrev post_constants : PostConfig (Pillars ℕ ℕ Balances)
post_constants = record {
  max_content_length = 1_073_741_824;
  post_base_cost = 25_000;
  post_byte_cost = 8;
  storage_share_permill = 500_000;
  reaction_share_permill = 200_000;
  mul_floor = λ parts x. parts * x / 1_000_000;
  current_base_fee = λ w. 0;
  record_gas = λ bytes w. w;
  burn_from = λ who amount w. none;
  do_deposit_to_reward_pool = λ amount w. w;
  do_deposit_to_reaction_pool = λ amount w. w;
  do_register_fragment = λ id size creator at w. none;
  on_post_created = λ id w. w;
}

abbrev popularity_constants : Popularity.Config (PostState (Pillars ℕ ℕ Balances))
popularity_constants = record {
  initial_score = 100_000;
  like_weight = 100;
  dislike_weight = 50;
  decay_rate = 999_950;
  low_popularity_threshold = 1_000;
  hysteresis_margin = 500;
  grace_period = 100_800;
  max_posts_scanned_per_block = 8;
  max_deletions_per_block = 4;
  max_deletion_scan_reads = 16;
  max_decay_steps = 1_000_000;
  next_post_id = λ p. 0;
  delete_post = λ id p. (p, none);
  release_fragment = λ root p. p;
  iterate = λ cursor entries. entries;
}

abbrev setup : Setup ℕ ℕ Balances
setup = record {
  env = env;
  fees = fee_config;
  reactions = reaction_config;
  post_constants = post_constants;
  popularity_constants = popularity_constants;
  burn_from = λ who amount tokens. some tokens;
}

abbrev start : Chain ℕ ℕ Balances
start = record {
  block_number = 5;
  world = record {
    next_post_id = 0;
    posts = λ id. none;
    content_refs = λ id. none;
    merkle_root_to_post_id = λ root. none;
    user_posts = λ who. [];
    block_number = 5;
    world = record {
      storage = storage_start;
      reaction = reaction_start;
      base_fee = BaseFee.genesis fee_config;
    };
    events = [];
  };
  events = [];
  post_scores = λ id. none;
  deletion_queue = [];
  scan_cursor = 0;
  deletion_cursor = none;
}

abbrev draft : Draft
draft = record {
  merkle_root = 77;
  k = 2;
  n = 3;
  total_size = 100;
  ciphertext_len = 116;
  shard_size = 58;
  compressed = true;
  parent_id = none;
}

start-IsServed : IsServed start.world
unfolding contains
start-IsServed = record {
  indexed = record {
    below = λ id h. refl;
    rooted = λ id root h. absurd (none-some h);
    points = λ root id h. absurd (none-some h);
    contents = λ id. refl;
    listed = λ a id. refl;
  };
  stored = λ id root h. absurd (none-some h);
}

abbrev calls : List (Call setup)
calls =
    create_call 4 draft
    ∷ storage_call (declare_holding_call 3 77) refl
    ∷ reaction_counted 0 Popularity.like
    ∷ popularity_pass
    ∷ next_block
    ∷ []

-- The storage pool gets half of the cost of the post.
pool_filled :
    (run setup (create_call 4 draft ∷ []) start).world.world.storage.reward_pool_balance
    ≡ storage_start.reward_pool_balance + 12_900
unfolding run create_post register_fragment_at do_deposit_to_reward_pool Popularity.on_post_created
pool_filled = refl

run-IsServed_example : IsServed (run setup calls start).world
run-IsServed_example = run-IsServed setup calls start start-IsServed

-- Account 9 registers the fragment of the post that account 4 tries to make in vain.
register_fragment_blocks_example :
    (taken : StorageState ℕ ℕ) × (register_fragment env 9 77 1 storage_start ≡ ok taken)
    × (taken.tokens ≡ storage_start.tokens)
    × (taken.bonds ≡ storage_start.bonds)
    × ((e : PostError) × (create_post
            (post_config setup)
            4
            draft
            (run setup calls (with_state setup taken start)).world
          ≡ err e))
register_fragment_blocks_example =
    register_fragment_blocks setup 9 77 1 start start-IsServed refl (omega arith) (omega arith) refl
      calls 4 draft refl
