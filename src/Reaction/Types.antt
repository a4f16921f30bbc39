-- ===== src/Reaction/Types.antt =====
-- The constants, storage items, events and errors of the reaction pallet
-- (apps/blockchain/pallets/reaction/src/lib.rs), and what it calls of other pallets.
use anarchy.Base.{ℕ, Option, List, Table}

-- The constants, and the operations of other pallets on `World`, which is their state: the post
-- pallet, the token, the block hashes of the system and the popularity pallet.
pub record Config (World : Type 0) : Type 0 where
  pub reaction_reward : ℕ
  pub min_difficulty : ℕ
  pub max_difficulty : ℕ
  pub challenge_validity : ℕ
  pub target_reaction_rate : ℕ
  pub adjustment_window : ℕ
  pub adjustment_divisor : ℕ
  pub gamma_max_ppm : ℕ
  pub reactor_decay_k : ℕ
  pub per_block_payout_cap_ppm : ℕ
  pub reactor_lock_min : ℕ
  pub reactor_lock_duration : ℕ
  pub get_post_author : ℕ → World → Option ℕ
  pub total_issuance : World → ℕ
  -- `none` when the token refuses the mint.
  pub mint_into : (who amount : ℕ) → World → Option World
  pub block_hash : ℕ → World → List ℕ
  pub encode : ℕ → List ℕ
  pub blake2_256 : List ℕ → List ℕ

pub data ReactionType : Type 0 where
  like bad : ReactionType

pub record Reaction : Type 0 where
  pub reactor : ℕ
  pub reaction_type : ReactionType
  pub pow_nonce : ℕ
  pub cpu_power : ℕ
  pub created_at : ℕ

pub record ReactionStats : Type 0 where
  pub likes : ℕ
  pub bads : ℕ

pub record ReactorLock : Type 0 where
  pub amount : ℕ
  pub unlock_at : ℕ

pub data Event : Type 0 where
  reaction_created : (post_id reactor : ℕ) → ReactionType → (reward_paid : ℕ) → Event
  reward_pool_deposit : (amount : ℕ) → Event
  difficulty_adjusted : (old_difficulty new_difficulty : ℕ) → Event
  reactor_lock_bonded : (who amount unlock_at : ℕ) → Event
  reactor_lock_released : (who amount : ℕ) → Event

pub data Error : Type 0 where
  already_reacted challenge_expired invalid_proof block_not_found post_not_found : Error
  insufficient_reactor_lock reactor_lock_already_held reactor_lock_still_active : Error
  reactor_lock_not_found insufficient_balance : Error

-- The storage items, with the block number and the state of the other pallets. The double map of
-- the reactions is a table by reactor for each post.
pub record State (World : Type 0) : Type 0 where
  pub reactions : ℕ → Table Reaction
  pub reaction_stats : ℕ → ReactionStats
  pub user_reaction_count : ℕ → ℕ
  pub reaction_reward_pool : ℕ
  pub reactor_cumulative_count : ℕ → ℕ
  pub current_difficulty : ℕ
  pub reaction_history : ℕ → ℕ
  pub total_reactions : ℕ
  pub reactor_locks : Table ReactorLock
  pub per_block_payout_accumulator : ℕ
  pub reactor_locks_count : ℕ
  pub block_number : ℕ
  pub world : World
  pub events : List Event
