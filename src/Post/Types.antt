-- ===== src/Post/Types.antt =====
-- The constants, storage items, events and errors of the post pallet
-- (apps/blockchain/pallets/post/src/lib.rs), and what it calls of other pallets.
use anarchy.Base.{ℕ, Bool, Option, List}

-- The constants, and the operations of other pallets on `World`, which is their state: the token,
-- the storage, reaction, base fee and popularity pallets. A `Permill` is its number of parts in a
-- million, and its `mul_floor` is the runtime's.
pub record Config (World : Type 0) : Type 0 where
  pub max_content_length : ℕ
  pub post_base_cost : ℕ
  pub post_byte_cost : ℕ
  pub storage_share_permill : ℕ
  pub reaction_share_permill : ℕ
  pub mul_floor : ℕ → ℕ → ℕ
  pub current_base_fee : World → ℕ
  pub record_gas : (bytes : ℕ) → World → World
  -- `none` when the balance does not suffice.
  pub burn_from : (who amount : ℕ) → World → Option World
  pub do_deposit_to_reward_pool : (amount : ℕ) → World → World
  pub do_deposit_to_reaction_pool : (amount : ℕ) → World → World
  -- `none` when the storage pallet refuses the fragment.
  pub do_register_fragment : (fragment_id size creator created_at : ℕ) → World → Option World
  pub on_post_created : (post_id : ℕ) → World → World

pub record Post : Type 0 where
  pub author : ℕ
  pub content_hash : ℕ
  pub created_at : ℕ
  pub parent_id : Option ℕ

pub record PostContent : Type 0 where
  pub root : ℕ
  pub k : ℕ
  pub n : ℕ
  pub size : ℕ
  pub ciphertext_len : ℕ
  pub shard_size : ℕ
  pub compressed : Bool

pub data Event : Type 0 where
  post_created : (post_id author content_hash : ℕ) → Event

pub data Error : Type 0 where
  content_too_long too_many_posts parent_post_not_found insufficient_moral_balance : Error
  invalid_kn_parameters duplicate_merkle_root cost_calculation_overflow : Error
  post_id_overflow fragment_registration_failed post_not_found : Error

-- The storage items, with the block number and the state of the other pallets.
pub record State (World : Type 0) : Type 0 where
  pub next_post_id : ℕ
  pub posts : ℕ → Option Post
  pub content_refs : ℕ → Option PostContent
  pub merkle_root_to_post_id : ℕ → Option ℕ
  pub user_posts : ℕ → List ℕ
  pub block_number : ℕ
  pub world : World
  pub events : List Event
