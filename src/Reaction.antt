-- ===== src/Reaction.antt =====
-- The reaction pallet (apps/blockchain/pallets/reaction/src/lib.rs): the calls `react`,
-- `lock_for_rewards` and `unlock_reactor`, the reward formula, the hook at the end of a block and the
-- interface for other pallets.
-- A reactor is its account number; the caller of a call comes first.
pub mod Types
pub mod Run
pub mod Settle
pub mod Accepted
pub mod Once
pub mod Capped
pub mod Budget
pub mod Locks
pub mod Formula
pub mod Difficulty
pub mod Tests
use anarchy.Base.{
  ℕ, zero, suc, ◌+◌, ◌-◌, ◌*◌, ◌/◌, ◌%◌, Bool, true, false, ◌&&◌, not, Option, none, some, List, [],
  ◌∷◌, ltb, leb, ◌==◌, if◌then◌else◌, min, max, sat_add, sat_mul, u8_max, u32_max, u64_max,
  u128_max, update, lookup, insert, erase, is_some,
}
use anarchy.Base.Dispatch.{Result, ok, err, ◌>>=◌, ◌>>◌, ensure, ok_or}
use anarchy.Base.Reservable.{Currency}
use anarchy.Rewards.{root, one_million}
use anarchy.ProofOfWork.{compute_challenge, verify_proof}
use Types.{
  Config, ReactionType, like, bad, Reaction, ReactionStats, ReactorLock, Event, reaction_created,
  reward_pool_deposit, difficulty_adjusted, reactor_lock_bonded, reactor_lock_released, Error,
  already_reacted, challenge_expired, invalid_proof, block_not_found, post_not_found,
  insufficient_reactor_lock, reactor_lock_already_held, reactor_lock_still_active,
  reactor_lock_not_found, insufficient_balance, State,
}

-- The hash of a block that is not known is `Default::default()`, zero bytes only.
unfoldable pub is_default : List ℕ → Bool
is_default [] = true
is_default (byte ∷ rest) = byte == 0 && is_default rest

unfoldable pub count_stats : ReactionType → ReactionStats → ReactionStats
count_stats like stats = record stats { likes = sat_add u32_max stats.likes 1 }
count_stats bad stats = record stats { bads = sat_add u32_max stats.bads 1 }

module _ {World : Type 0} (config : Config World) where
  -- The share of the pool in all tokens, in parts per million and at most its limit.
  unfoldable pub gamma_ppm : (pool_balance total_issuance : ℕ) → ℕ
  gamma_ppm pool_balance total_issuance =
      if total_issuance == 0
      then config.gamma_max_ppm
      else min (sat_mul u128_max pool_balance one_million / max total_issuance 1)
          config.gamma_max_ppm

  unfoldable pub decay_ppm : (reactor_count : ℕ) → ℕ
  decay_ppm reactor_count =
      let k = config.reactor_decay_k in
      if k == 0
      then one_million
      else root (sat_mul u128_max k one_million / max (k + reactor_count) 1)

  unfoldable pub compute_reward : (pool_balance total_issuance reactor_count : ℕ) → ℕ
  unfolding gamma_ppm decay_ppm
  compute_reward pool_balance total_issuance reactor_count =
      if config.gamma_max_ppm == 0
      then min config.reaction_reward pool_balance
      else let r1 =
          sat_mul u128_max config.reaction_reward (gamma_ppm pool_balance total_issuance)
          / one_million in
        sat_mul u128_max r1 (decay_ppm reactor_count) / one_million

  -- The writes of `react` up to the total of reactions.
  unfoldable pub record_reaction :
      (reactor post_id : ℕ) → ReactionType → (nonce cpu_power : ℕ) → State World → State World
  unfolding count_stats
  record_reaction who post_id kind nonce cpu s = record s {
    reactions =
        update post_id
          (insert who
            (record {
              reactor = who;
              reaction_type = kind;
              pow_nonce = nonce;
              cpu_power = cpu;
              created_at = s.block_number;
            })
            (s.reactions post_id))
          s.reactions;
    reaction_stats = update post_id (count_stats kind (s.reaction_stats post_id)) s.reaction_stats;
    user_reaction_count =
        update who (sat_add u32_max (s.user_reaction_count who) 1) s.user_reaction_count;
    reaction_history =
        update s.block_number (sat_add u32_max (s.reaction_history s.block_number) 1)
          s.reaction_history;
    total_reactions = sat_add u64_max s.total_reactions 1;
  }

  -- An expired lock is as good as any: `unlock_at` is not read.
  unfoldable pub lock_ok : ℕ → State World → Bool
  lock_ok who s = if config.reactor_lock_min == 0 then true else elim (lookup who s.reactor_locks) [
    | none ↦ false
    | some lock ↦ leb config.reactor_lock_min lock.amount
  ]

  unfoldable pub max_per_block : (pool_balance : ℕ) → ℕ
  max_per_block pool_balance =
      if config.per_block_payout_cap_ppm == 0
      then u128_max
      else sat_mul u128_max pool_balance config.per_block_payout_cap_ppm / one_million

  -- The payment of a computed reward, cut to what the block may still pay and to the pool. It
  -- returns the amount paid: nothing when the token refuses the mint.
  unfoldable pub pay_reward : (author computed_reward : ℕ) → State World → State World × ℕ
  unfolding max_per_block
  pay_reward author computed_reward s =
      let remaining_budget =
        max_per_block s.reaction_reward_pool - s.per_block_payout_accumulator in
      let granted = min (min computed_reward remaining_budget) s.reaction_reward_pool in
      if ltb 0 granted
      then elim (config.mint_into author granted s.world) [
        | none ↦ (s, 0)
        | some minted ↦ (
          record s {
            world = minted;
            reaction_reward_pool = s.reaction_reward_pool - granted;
            per_block_payout_accumulator = sat_add u128_max s.per_block_payout_accumulator granted;
          },
          granted,
        )
      ]
      else (s, 0)

  -- The branch of a Like whose post has an author.
  unfoldable pub reward_author : (author reactor : ℕ) → State World → State World × ℕ
  unfolding compute_reward lock_ok pay_reward
  reward_author author who s =
      let computed_reward =
        compute_reward s.reaction_reward_pool (config.total_issuance s.world)
          (s.reactor_cumulative_count who) in
      let paid =
        if ltb 0 computed_reward && lock_ok who s
        then pay_reward author computed_reward s
        else (s, 0) in
      (
        record paid.0 {
          reactor_cumulative_count =
              update who (sat_add u64_max (s.reactor_cumulative_count who) 1)
                s.reactor_cumulative_count;
        },
        paid.1,
      )

  -- A Like, by the author of its post; a Bad pays nothing.
  unfoldable pub settle_like : (author : Option ℕ) (reactor : ℕ) → State World → State World × ℕ
  unfolding reward_author
  settle_like none who s = (s, 0)
  settle_like (some author) who s = reward_author author who s

  unfoldable pub settle_reaction :
      (reactor post_id : ℕ) → ReactionType → State World → State World × ℕ
  unfolding settle_like
  settle_reaction who post_id bad s = (s, 0)
  settle_reaction who post_id like s = settle_like (config.get_post_author post_id s.world) who s

  -- The proof of work of `react`, for the hash of the block that it names.
  unfoldable pub proves_work : (reactor nonce : ℕ) → List ℕ → State World → Bool
  unfolding compute_challenge verify_proof
  proves_work who nonce block_hash s =
      verify_proof config.blake2_256
        (compute_challenge config.blake2_256 block_hash (config.encode who)) nonce
        (max s.current_difficulty config.min_difficulty)

  -- `on_reaction` is the one of the popularity pallet.
  module _ (on_reaction : ℕ → ReactionType → World → World) where
    unfoldable pub react :
        (reactor post_id : ℕ)
        → ReactionType
        → (block_number nonce cpu_power : ℕ) → State World
        → Result Error (State World)
    unfolding is_default record_reaction settle_reaction proves_work
    react who post_id kind block nonce cpu s = do
      ensure (is_some (config.get_post_author post_id s.world)) post_not_found
      ensure (not (is_some (lookup who (s.reactions post_id)))) already_reacted
      ensure (leb s.block_number (sat_add u32_max block config.challenge_validity))
          challenge_expired
      let hash = config.block_hash block s.world
      ensure (not (is_default hash)) block_not_found
      ensure (proves_work who nonce hash s) invalid_proof
      let settled = settle_reaction who post_id kind (record_reaction who post_id kind nonce cpu s)
      ok (record settled.0 {
        world = on_reaction post_id kind settled.0.world;
        events = reaction_created post_id who kind settled.1 ∷ settled.0.events;
      })

  module _ (currency : Currency World) where
    unfoldable pub lock_for_rewards : (who amount : ℕ) → State World → Result Error (State World)
    lock_for_rewards who locked s = do
      ensure (not (is_some (lookup who s.reactor_locks))) reactor_lock_already_held
      ensure (leb config.reactor_lock_min locked) insufficient_reactor_lock
      reserved ← ok_or (currency.reserve who locked s.world) insufficient_balance
      let until = sat_add u32_max s.block_number config.reactor_lock_duration
      ok (record s {
        world = reserved;
        reactor_locks = insert who (record { amount = locked; unlock_at = until }) s.reactor_locks;
        reactor_locks_count = sat_add u32_max s.reactor_locks_count 1;
        events = reactor_lock_bonded who locked until ∷ s.events;
      })

    unfoldable pub unlock_reactor : (who : ℕ) → State World → Result Error (State World)
    unlock_reactor who s = do
      lock ← ok_or (lookup who s.reactor_locks) reactor_lock_not_found
      ensure (leb lock.unlock_at s.block_number) reactor_lock_still_active
      ok (record s {
        world = currency.unreserve who lock.amount s.world;
        reactor_locks = erase who s.reactor_locks;
        reactor_locks_count = s.reactor_locks_count - 1;
        events = reactor_lock_released who lock.amount ∷ s.events;
      })

  -- The loop over the window: from `block` down to `window_start`, which it leaves out. The first
  -- argument is the number of rounds left; `adjust_difficulty` gives it their exact number.
  unfoldable pub count_window : (rounds block recent_count : ℕ) → State World → ℕ
  count_window zero block recent_count s = recent_count
  count_window (suc rounds) block recent_count s =
      count_window rounds (block - 1) (sat_add u32_max recent_count (s.reaction_history block)) s

  -- The new difficulty from the count of the window. Both quotients are cast to `u8`.
  unfoldable pub new_difficulty : (current recent_count : ℕ) → ℕ
  new_difficulty current recent_count =
      let target_total = sat_mul u32_max config.target_reaction_rate config.adjustment_window in
      let diff =
        if ltb target_total recent_count
        then (recent_count - target_total) / max config.adjustment_divisor 1
        else 0 in
      let decrease =
        if ltb recent_count target_total
        then (target_total - recent_count) / max config.adjustment_divisor 1
        else 0 in
      min (max (sat_add u8_max current (diff % 256) - decrease % 256) config.min_difficulty)
        config.max_difficulty

  unfoldable pub adjust_difficulty : State World → State World
  unfolding count_window new_difficulty
  adjust_difficulty s =
      let window_start = s.block_number - config.adjustment_window in
      let recent_count = count_window (s.block_number - window_start) s.block_number 0 s in
      let adjusted = new_difficulty s.current_difficulty recent_count in
      if adjusted == s.current_difficulty then s else record s {
        current_difficulty = adjusted;
        events = difficulty_adjusted s.current_difficulty adjusted ∷ s.events;
      }

  unfoldable pub do_deposit_to_reaction_pool : (amount : ℕ) → State World → State World
  do_deposit_to_reaction_pool deposit s = record s {
    reaction_reward_pool = sat_add u128_max s.reaction_reward_pool deposit;
    events = reward_pool_deposit deposit ∷ s.events;
  }

  abbrev pub get_reaction_counts : ℕ → State World → Option (ℕ × ℕ)
  get_reaction_counts post_id s =
      some ((s.reaction_stats post_id).likes, (s.reaction_stats post_id).bads)

  abbrev pub get_bad_count : ℕ → State World → ℕ
  get_bad_count post_id s = (s.reaction_stats post_id).bads

  -- The entry that is two windows old is removed. A window of 0 would be a division by zero: the
  -- window is positive wherever this is used.
  unfoldable pub on_finalize : (n : ℕ) → State World → State World
  unfolding adjust_difficulty
  on_finalize n s =
      let window = config.adjustment_window in
      let t = if n % window == 0 then adjust_difficulty s else s in
      let prune_window = sat_mul u32_max window 2 in
      record t {
        per_block_payout_accumulator = 0;
        reaction_history =
            if ltb prune_window n
            then update (n - prune_window) 0 t.reaction_history
            else t.reaction_history;
      }
