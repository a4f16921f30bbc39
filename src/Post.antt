-- ===== src/Post.antt =====
-- The post pallet (apps/blockchain/pallets/post/src/lib.rs): the call `create_post`, and `next_post_id`
-- and `delete_post` for the popularity pallet.
pub mod Types
pub mod Created
pub mod Run
pub mod Index
pub mod Undo
pub mod Funds
mod Tests
use anarchy.Base.{
  ℕ, ◌+◌, ◌*◌, Bool, true, false, ◌&&◌, not, Option, none, some, List, [], ◌∷◌, ltb, leb, ◌==◌,
  if◌then◌else◌, min, sat_add, sat_mul, ◌%◌, ◌^◌, u32_max, u64_max, u128_max, update, is_some,
  length, try_push,
}
use anarchy.Base.Dispatch.{Result, ok, err, ◌>>=◌, ◌>>◌, ensure, ok_or}
use Types.{
  Config, Post, PostContent, Event, post_created, Error, content_too_long, too_many_posts,
  parent_post_not_found, insufficient_moral_balance, invalid_kn_parameters, duplicate_merkle_root,
  post_id_overflow, fragment_registration_failed, post_not_found, State,
}

abbrev pub max_user_posts : ℕ
max_user_posts = 1000

-- The arguments of `create_post`.
pub record Draft : Type 0 where
  pub merkle_root : ℕ
  pub k : ℕ
  pub n : ℕ
  pub total_size : ℕ
  pub ciphertext_len : ℕ
  pub shard_size : ℕ
  pub compressed : Bool
  pub parent_id : Option ℕ

module _ {World : Type 0} (config : Config World) where
  unfoldable pub parent_exists : Option ℕ → State World → Bool
  parent_exists none s = true
  parent_exists (some pid) s = is_some (s.posts pid)

  -- The base and the size, which the pools share; the balance is `u128`, so that no conversion fails.
  unfoldable pub distributable : (total_size : ℕ) → ℕ
  distributable total_size =
      sat_add u128_max config.post_base_cost (sat_mul u128_max total_size config.post_byte_cost)

  unfoldable pub total_cost : (total_size : ℕ) → World → ℕ
  unfolding distributable
  total_cost total_size world =
      sat_add u128_max (distributable total_size)
        (sat_mul u128_max total_size (config.current_base_fee world))

  -- The two deposits, and the bytes for the base fee, cast to `u32`.
  unfoldable pub distribute : (total_size : ℕ) → World → World
  unfolding distributable
  distribute total_size world =
      let shared = distributable total_size in
      config.record_gas (total_size % 2 ^ 32) (
        config.do_deposit_to_reaction_pool (config.mul_floor config.reaction_share_permill shared) (
          config.do_deposit_to_reward_pool (config.mul_floor config.storage_share_permill shared)
            world))

  -- The checks of `create_post` before it takes the cost.
  unfoldable pub check_draft : (who : ℕ) → Draft → State World → Result Error (Unit {0})
  unfolding parent_exists
  check_draft who d s = do
    ensure (ltb 0 d.k && leb d.k d.n && leb d.n 255) invalid_kn_parameters
    ensure (leb d.total_size config.max_content_length) content_too_long
    ensure (not (is_some (s.merkle_root_to_post_id d.merkle_root))) duplicate_merkle_root
    ensure (parent_exists d.parent_id s) parent_post_not_found
    ensure (not (leb max_user_posts (length (s.user_posts who)))) too_many_posts

  unfoldable pub create_post : (who : ℕ) → Draft → State World → Result Error (State World)
  unfolding check_draft total_cost distribute
  create_post who d s = do
    check_draft who d s
    burnt ←
        ok_or (config.burn_from who (total_cost d.total_size s.world) s.world)
          insufficient_moral_balance
    let post_id = s.next_post_id
    ensure (ltb post_id u64_max) post_id_overflow
    registered ←
        ok_or
          (config.do_register_fragment d.merkle_root (min d.total_size u32_max) who s.block_number
            (distribute d.total_size burnt))
          fragment_registration_failed
    listed ← ok_or (try_push max_user_posts post_id (s.user_posts who)) too_many_posts
    ok (record s {
      next_post_id = post_id + 1;
      posts =
          update post_id
            (some (record {
              author = who;
              content_hash = d.merkle_root;
              created_at = s.block_number;
              parent_id = d.parent_id;
            }))
            s.posts;
      content_refs =
          update post_id
            (some (record {
              root = d.merkle_root;
              k = d.k;
              n = d.n;
              size = d.total_size;
              ciphertext_len = d.ciphertext_len;
              shard_size = d.shard_size;
              compressed = d.compressed;
            }))
            s.content_refs;
      merkle_root_to_post_id = update d.merkle_root (some post_id) s.merkle_root_to_post_id;
      user_posts = update who listed s.user_posts;
      world = config.on_post_created post_id registered;
      events = post_created post_id who d.merkle_root ∷ s.events;
    })

-- `retain(|id| *id != post_id)`
unfoldable pub retain_others : (post_id : ℕ) → List ℕ → List ℕ
retain_others post_id [] = []
retain_others post_id (id ∷ rest) =
    let others = retain_others post_id rest in if id == post_id then others else id ∷ others

-- Returns the Merkle root of the deleted post, by which its content is released.
unfoldable pub delete_post :
    {World : Type 0} → (post_id : ℕ) → State World → Result Error (State World × ℕ)
unfolding retain_others
delete_post post_id s = do
  post ← ok_or (s.posts post_id) post_not_found
  ok (
    record s {
      posts = update post_id none s.posts;
      content_refs = update post_id none s.content_refs;
      merkle_root_to_post_id = update post.content_hash none s.merkle_root_to_post_id;
      user_posts =
          update post.author (retain_others post_id (s.user_posts post.author)) s.user_posts;
    },
    post.content_hash,
  )
