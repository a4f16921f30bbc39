-- ===== src/BlockReward.antt =====
-- The block reward (apps/blockchain/pallets/block_reward/src/lib.rs): what the end of a block mints, and
-- its split between the author and the two pools.
-- The author of the block and `mul_floor` of a `Permill` are the runtime's: an `Option` and a
-- parameter. A mint and a deposit into a pool are recorded in the order they are made.
pub mod Shares
mod Tests
use anarchy.Base.{
  ℕ, ◌+◌, ◌/◌, ◌%◌, ◌^◌, max, Option, none, some, List, [], ◌∷◌, ◌++◌, Bool, ltb, leb, ◌==◌,
  if◌then◌else◌, sat_add, u64_max,
}

pub record Config : Type 0 where
  pub initial_reward : ℕ
  pub tail_emission : ℕ
  pub halving_period : ℕ
  pub max_halvings : ℕ
  pub miner_share_permill : ℕ
  pub storage_share_permill : ℕ
  pub reaction_share_permill : ℕ
  pub mul_floor : ℕ → ℕ → ℕ

pub data SkipReason : Type 0 where
  no_author zero_reward invalid_shares_config : SkipReason

pub data Event : Type 0 where
  block_reward_minted : (author amount : ℕ) → Event
  block_reward_split : (author miner storage reaction : ℕ) → Event
  block_reward_skipped : SkipReason → Event

-- `deposit_creating` of the currency, and `do_deposit` of the two sinks.
pub data Deposit : Type 0 where
  to_author : (author amount : ℕ) → Deposit
  to_storage_pool to_reaction_pool : (amount : ℕ) → Deposit

pub record State : Type 0 where
  pub deposits : List Deposit
  pub events : List Event

-- A step is done only on a condition.
abbrev pub when : Bool → Deposit → List Deposit → List Deposit
when b d ds = if b then d ∷ ds else ds

-- `x >> n` on `u128`, where a release build takes `n` modulo 128.
abbrev pub shift_right : ℕ → ℕ → ℕ
shift_right x n = x / 2 ^ (n % 128)

module _ (config : Config) where
  -- The number of halvings is cast to `u32`.
  unfoldable pub halvings : ℕ → ℕ
  halvings n = n / config.halving_period % 2 ^ 32

  unfoldable pub current_reward : ℕ → ℕ
  current_reward n =
      if config.halving_period == 0
      then max config.initial_reward config.tail_emission
      else let halved =
          if leb config.max_halvings (halvings n)
          then 0
          else shift_right config.initial_reward (halvings n) in
        max halved config.tail_emission

  abbrev pub share_sum : ℕ
  share_sum =
      sat_add u64_max (sat_add u64_max config.miner_share_permill config.storage_share_permill)
        config.reaction_share_permill

  -- The deposits and events of the three-way split.
  unfoldable pub split : (author total : ℕ) → State → State
  split author total s =
      let miner_share = config.mul_floor config.miner_share_permill total in
      let storage_share = config.mul_floor config.storage_share_permill total in
      let reaction_share = config.mul_floor config.reaction_share_permill total in
      record {
        deposits = when (ltb 0 reaction_share) (to_reaction_pool reaction_share) (
            when (ltb 0 storage_share) (to_storage_pool storage_share)
              (when (ltb 0 miner_share) (to_author author miner_share) s.deposits));
        events =
            block_reward_split author miner_share storage_share reaction_share
            ∷ block_reward_minted author miner_share
            ∷ s.events;
      }

  abbrev pub skip : SkipReason → State → State
  skip reason s = record s { events = block_reward_skipped reason ∷ s.events }

  unfoldable pub on_finalize : (n : ℕ) → Option ℕ → State → State
  on_finalize n none s = skip no_author s
  on_finalize n (some author) s =
      let total = current_reward n in
      if total == 0
      then skip zero_reward s
      else if ltb 1_000_000 share_sum
      then record {
        deposits = to_author author total ∷ s.deposits;
        events =
            block_reward_minted author total
            ∷ block_reward_skipped invalid_shares_config
            ∷ s.events;
      }
      else split author total s

-- What the deposits add up to.
abbrev pub amount_of : Deposit → ℕ
amount_of (to_author author amount) = amount
amount_of (to_storage_pool amount) = amount
amount_of (to_reaction_pool amount) = amount

abbrev pub minted : List Deposit → ℕ
minted [] = 0
minted (d ∷ ds) = amount_of d + minted ds
