-- ===== src/Reaction/Settle.antt =====
-- What the payment of a reaction changes, and what a reaction that succeeds has checked.
use anarchy.Base.{
  ℕ, ◌+◌, ◌≡◌, ◌≤◌, ◌<◌, ◌⊎◌, inl, inr, refl, true, ◌&&◌, arith, ltb, min, Option, none, some,
  Option-cases, Bool-cases, u128_max, ◌-◌,
}
use anarchy.Reaction.Types.{Config, State, ReactionType, like, bad}
use anarchy.Reaction.{
  pay_reward, reward_author, settle_like, settle_reaction, max_per_block, compute_reward, lock_ok,
}

module _ {World : Type 0} (config : Config World) where
  max_per_block-le : (pool : ℕ) → max_per_block config pool ≤ u128_max
  unfolding max_per_block
  max_per_block-le pool = ground arith

  -- A payment of `paid` to the author of a post: what moves, and what stays.
  pub record Pays (author : Option ℕ) (s t : State World) (paid : ℕ) : Type 0 where
    pub pool : t.reaction_reward_pool + paid ≡ s.reaction_reward_pool
    pub accumulated : t.per_block_payout_accumulator ≡ s.per_block_payout_accumulator + paid
    pub within_budget :
        (paid ≡ 0) ⊎ (t.per_block_payout_accumulator ≤ max_per_block config s.reaction_reward_pool)
    pub minted :
        ((paid ≡ 0) × (t.world ≡ s.world))
        ⊎ ((who : ℕ) × (author ≡ some who) × (config.mint_into who paid s.world ≡ some t.world))
    pub same_reactions : t.reactions ≡ s.reactions
    pub same_stats : t.reaction_stats ≡ s.reaction_stats
    pub same_locks : t.reactor_locks ≡ s.reactor_locks
    pub same_locks_count : t.reactor_locks_count ≡ s.reactor_locks_count
    pub same_block : t.block_number ≡ s.block_number
    pub same_difficulty : t.current_difficulty ≡ s.current_difficulty

  nothing-Pays : (author : Option ℕ) (s : State World) → Pays author s s 0
  nothing-Pays author s = record {
    pool = omega arith;
    accumulated = omega arith;
    within_budget = inl refl;
    minted = inl (refl, refl);
    same_reactions = refl;
    same_stats = refl;
    same_locks = refl;
    same_locks_count = refl;
    same_block = refl;
    same_difficulty = refl;
  }

  pay_reward-Pays :
      (author reward : ℕ) (s : State World)
      → Pays
          (some author)
          s
          (pay_reward config author reward s).0
          (pay_reward config author reward s).1
  unfolding pay_reward
  pay_reward-Pays author reward s =
      let cap = max_per_block config s.reaction_reward_pool in
      let granted =
        min (min reward (cap - s.per_block_payout_accumulator)) s.reaction_reward_pool in
      elim (Bool-cases (ltb 0 granted)) [
        | inr none_left ↦ rw none_left (nothing-Pays (some author) s)
        | inl some_left ↦ elim (Option-cases (config.mint_into author granted s.world)) [
          | inl refused ↦ rw (some_left, refused) (nothing-Pays (some author) s)
          | inr (w, minted) ↦
              rw (some_left, minted)
                (record {
                  pool = omega arith;
                  accumulated = ground (arith, max_per_block-le s.reaction_reward_pool);
                  within_budget = inr (ground (arith, max_per_block-le s.reaction_reward_pool));
                  minted = inr (author, refl, minted);
                  same_reactions = refl;
                  same_stats = refl;
                  same_locks = refl;
                  same_locks_count = refl;
                  same_block = refl;
                  same_difficulty = refl;
                })
        ]
      ]

  -- What a payment needs: a Like by an account whose lock suffices, up to the computed reward.
  pub record IsEarned (kind : ReactionType) (who paid : ℕ) (s : State World) : Type 0 where
    pub liked : kind ≡ like
    pub locked : lock_ok config who s ≡ true
    pub within_reward :
        paid
        ≤ compute_reward config s.reaction_reward_pool
            (config.total_issuance s.world)
            (s.reactor_cumulative_count who)

  pay_reward-le :
      (author reward : ℕ) (s : State World) → (pay_reward config author reward s).1 ≤ reward
  unfolding pay_reward
  pay_reward-le author reward s =
      let cap = max_per_block config s.reaction_reward_pool in
      let granted =
        min (min reward (cap - s.per_block_payout_accumulator)) s.reaction_reward_pool in
      elim (Bool-cases (ltb 0 granted)) [
        | inr none_left ↦ rw none_left (omega arith)
        | inl some_left ↦ elim (Option-cases (config.mint_into author granted s.world)) [
          | inl refused ↦ rw (some_left, refused) (omega arith)
          | inr (w, minted) ↦ rw (some_left, minted) (omega arith)
        ]
      ]

  counted-Pays :
      (author : Option ℕ) (counts : ℕ → ℕ) (s t : State World) (paid : ℕ)
      → Pays author s t paid
      → Pays author s (record t { reactor_cumulative_count = counts }) paid
  counted-Pays author counts s t paid p = record {
    pool = p.pool;
    accumulated = p.accumulated;
    within_budget = p.within_budget;
    minted = p.minted;
    same_reactions = p.same_reactions;
    same_stats = p.same_stats;
    same_locks = p.same_locks;
    same_locks_count = p.same_locks_count;
    same_block = p.same_block;
    same_difficulty = p.same_difficulty;
  }

  reward_author-Pays :
      (author who : ℕ) (s : State World)
      → Pays
          (some author)
          s
          (reward_author config author who s).0
          (reward_author config author who s).1
        × (0 < (reward_author config author who s).1
            → IsEarned like who (reward_author config author who s).1 s)
  unfolding reward_author
  reward_author-Pays author who s =
      let reward =
        compute_reward config s.reaction_reward_pool (config.total_issuance s.world)
          (s.reactor_cumulative_count who) in
      elim (Bool-cases (ltb 0 reward && lock_ok config who s)) [
        | inr idle ↦
            rw idle (counted-Pays _ _ s s 0 (nothing-Pays (some author) s), λ h. elim h [ ])
        | inl pays ↦ rw pays (
          counted-Pays _ _ s _ _ (pay_reward-Pays author reward s),
          λ h. record {
            liked = refl;
            locked = ground (arith, pays);
            within_reward = pay_reward-le author reward s;
          },
        )
      ]

  settle_like-Pays :
      (author : Option ℕ) (who : ℕ) (s : State World)
      → Pays author s (settle_like config author who s).0 (settle_like config author who s).1
        × (0 < (settle_like config author who s).1
            → IsEarned like who (settle_like config author who s).1 s)
  unfolding settle_like
  settle_like-Pays none who s = (nothing-Pays none s, λ h. elim h [ ])
  settle_like-Pays (some author) who s = reward_author-Pays author who s

  pub settle_reaction-Pays :
      (who post_id : ℕ) (kind : ReactionType) (s : State World)
      → Pays
          (config.get_post_author post_id s.world)
          s
          (settle_reaction config who post_id kind s).0
          (settle_reaction config who post_id kind s).1
        × (0 < (settle_reaction config who post_id kind s).1
            → IsEarned kind who (settle_reaction config who post_id kind s).1 s)
  unfolding settle_reaction
  settle_reaction-Pays who post_id bad s = (nothing-Pays _ s, λ h. elim h [ ])
  settle_reaction-Pays who post_id like s =
      settle_like-Pays (config.get_post_author post_id s.world) who s
