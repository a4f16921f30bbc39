-- ===== src/Post/Tests.antt =====
-- The theorems on posts at a chain whose other pallets are one amount of money.
use anarchy.Base.{
  ℕ, ◌+◌, ◌-◌, ◌*◌, ◌/◌, ◌≡◌, ◌≤◌, ◌⊎◌, refl, arith, true, none, some, [], ◌∷◌, if◌then◌else◌, ltb,
  contains, none-some, some_same, sym,
}
use anarchy.Base.Dispatch.{ok, err, commit}
use anarchy.Post.Types.{Config, State, Error}
use anarchy.Post.{Draft, create_post, delete_post}
use anarchy.Post.Created.{Reason, Creates, create_post-Creates}
use anarchy.Post.Run.{run, create_call, delete_by_popularity, next_block}
use anarchy.Post.Index.{IsIndexed, run-IsIndexed}
use anarchy.Post.Undo.{create_post-delete_post}
use anarchy.Post.Funds.{IsAccounted, create_post-wealth}

abbrev config : Config ℕ
config = record {
  max_content_length = 1_073_741_824;
  post_base_cost = 25_000;
  post_byte_cost = 8;
  storage_share_permill = 500_000;
  reaction_share_permill = 200_000;
  mul_floor = λ parts x. parts * x / 1_000_000;
  current_base_fee = λ money. 3;
  record_gas = λ bytes money. money;
  burn_from = λ who amount money. if ltb money amount then none else some (money - amount);
  do_deposit_to_reward_pool = λ amount money. money + amount;
  do_deposit_to_reaction_pool = λ amount money. money + amount;
  do_register_fragment = λ id size creator at money. some money;
  on_post_created = λ id money. money;
}

abbrev start : State ℕ
start = record {
  next_post_id = 0;
  posts = λ id. none;
  content_refs = λ id. none;
  merkle_root_to_post_id = λ root. none;
  user_posts = λ who. [];
  block_number = 5;
  world = 1_000_000;
  events = [];
}

abbrev draft : Draft
draft = record {
  merkle_root = 77;
  k = 2;
  n = 3;
  total_size = 100;
  ciphertext_len = 116;
  shard_size = 58;
  compressed = true;
  parent_id = none;
}

abbrev posted : State ℕ
posted = commit start (create_post config 4 draft start)

posts : create_post config 4 draft start ≡ ok posted
unfolding create_post
posts = refl

-- The cost is 25_000 + 100 * 8 + 100 * 3; half and a fifth of the first two come back to the pools.
cost : posted.world ≡ 1_000_000 - 26_100 + 12_900 + 5_160
unfolding create_post
cost = refl

start-IsIndexed : IsIndexed start
unfolding contains
start-IsIndexed = record {
  below = λ id h. refl;
  rooted = λ id root h. absurd (none-some h);
  points = λ root id h. absurd (none-some h);
  contents = λ id. refl;
  listed = λ a id. refl;
}

create_post-Creates_example :
    ((e : Error) × (create_post config 4 draft start ≡ err e) × Reason config 4 draft start e)
    ⊎ ((t : State ℕ) × (create_post config 4 draft start ≡ ok t) × Creates config 4 draft start t)
create_post-Creates_example = create_post-Creates config 4 draft start

run-IsIndexed_example : IsIndexed (
    run config
      (create_call 4 draft ∷ next_block ∷ create_call 5 draft ∷ delete_by_popularity 0 ∷ [])
      start)
run-IsIndexed_example =
    run-IsIndexed config
      (create_call 4 draft ∷ next_block ∷ create_call 5 draft ∷ delete_by_popularity 0 ∷ []) start
      start-IsIndexed

create_post-delete_post_example :
    (u : State ℕ) × (delete_post 0 posted ≡ ok (u, 77))
    × (u.next_post_id ≡ 1)
    × ((id : ℕ) → u.posts id ≡ start.posts id)
    × ((id : ℕ) → u.content_refs id ≡ start.content_refs id)
    × ((root : ℕ) → u.merkle_root_to_post_id root ≡ start.merkle_root_to_post_id root)
    × ((a : ℕ) → u.user_posts a ≡ start.user_posts a)
create_post-delete_post_example =
    create_post-delete_post config 4 draft start posted start-IsIndexed posts

config-IsAccounted : IsAccounted config (λ money. money)
config-IsAccounted = record {
  burn_from-wealth = λ who cost w w' h. ground arith;
  reward_pool-wealth = λ a w. omega arith;
  reaction_pool-wealth = λ a w. omega arith;
  record_gas-wealth = λ b w. refl;
  register-wealth = λ id size who at w w' h. sym (some_same h);
  on_post_created-wealth = λ id w. refl;
  mul_floor-floor = λ p x. grind arith;
}

create_post-wealth_example : posted.world + 300 ≤ 1_000_000
create_post-wealth_example =
    create_post-wealth config (λ money. money) config-IsAccounted 4 draft start posted (omega arith)
      (omega arith) posts
