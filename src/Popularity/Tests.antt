-- ===== src/Popularity/Tests.antt =====
-- The theorems on popularity at a pallet with two posts, one of which is marked.
use anarchy.Base.{
  ℕ, ◌+◌, ◌≤◌, ◌≡◌, refl, arith, true, none, some, [], ◌∷◌, min, u32_max, lookup, update,
}
use anarchy.Popularity.{
  count_reaction, collect, Config, State, PostPopularity, like, on_reaction, on_finalize,
  run_deletion_pass, candidates, on_post_created,
}
use anarchy.Popularity.Queue.{
  IsQueued, Steps, created, reacted, finalized, done, after, Steps-IsQueued,
}
use anarchy.Popularity.Grace.{has_entry, run_deletion_pass-grace}

-- The other pallets are the number of posts; a deletion succeeds.
abbrev config : Config ℕ
config = record {
  initial_score = 100_000;
  like_weight = 100;
  dislike_weight = 50;
  decay_rate = 999_950;
  low_popularity_threshold = 1_000;
  hysteresis_margin = 100;
  grace_period = 10;
  max_posts_scanned_per_block = 8;
  max_deletions_per_block = 4;
  max_deletion_scan_reads = 16;
  max_decay_steps = 1_000_000;
  next_post_id = λ posts. posts;
  delete_post = λ id posts. (posts, some id);
  release_fragment = λ root posts. posts;
  iterate = λ cursor entries. entries;
}

abbrev low : PostPopularity
low = record {
  stored_score = 7;
  last_touched = 20;
  like_count = 0;
  dislike_count = 3;
  marked_for_deletion_at = some 20;
}

abbrev start : State ℕ
start = record {
  block_number = 35;
  world = 2;
  events = [];
  post_scores = update 1 (some low) (λ id. none);
  deletion_queue = (1, 30) ∷ [];
  scan_cursor = 0;
  deletion_cursor = none;
}

start-IsQueued : IsQueued config start
start-IsQueued = record { unique = (refl, tt); marked = λ id at e. ground arith }

abbrev busy : State ℕ
busy = on_reaction config 0 like (on_post_created config 0 start)

path : Steps config start (on_finalize config 35 busy)
unfolding on_post_created on_reaction count_reaction
path = after (after (after done (created 0 refl)) (reacted 0 like)) finalized

Steps-IsQueued_example : IsQueued config (on_finalize config 35 busy)
Steps-IsQueued_example = Steps-IsQueued config path start-IsQueued

iterates :
    (x at : ℕ)
    → has_entry x at (config.iterate start.deletion_cursor start.deletion_queue) ≡ true
    → lookup x start.deletion_queue ≡ some at
iterates x at e = ground arith

deletes : (run_deletion_pass config 35 start).post_scores 1 ≡ none
unfolding run_deletion_pass candidates collect
deletes = refl

run_deletion_pass-grace_example :
    (marked : ℕ) × (low.marked_for_deletion_at ≡ some marked)
    × (min (marked + config.grace_period) u32_max ≤ 35)
run_deletion_pass-grace_example =
    run_deletion_pass-grace config 35 1 low start start-IsQueued iterates refl deletes
