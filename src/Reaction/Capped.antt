-- ===== src/Reaction/Capped.antt =====
-- The accumulator of a block stays within the cap.
use anarchy.Base.{
  ℕ, ◌+◌, ◌*◌, ◌/◌, ◌≡◌, ◌≤◌, ◌<◌, inl, inr, refl, arith, min, Option, u128_max, div_mono,
}
use anarchy.Base.Dispatch.{commit}
use anarchy.Base.Reservable.{Currency}
use anarchy.Rewards.{one_million}
use anarchy.Reaction.Types.{Config, State, ReactionType}
use anarchy.Reaction.{
  record_reaction, react, lock_for_rewards, unlock_reactor, do_deposit_to_reaction_pool,
  on_finalize, adjust_difficulty, max_per_block,
}
use anarchy.Reaction.Settle.{Pays}
use anarchy.Reaction.Accepted.{react-Reacts}
use anarchy.Reaction.Run.{
  Call, dispatch, step, react_call, lock_call, unlock_call, deposit_to_pool, others_act, end_block,
}

-- The cap of a larger amount is at least the saturated cap of a smaller one.
cap_mono :
    (pool whole ppm : ℕ)
    → pool ≤ whole
    → min (pool * ppm) u128_max / one_million ≤ whole * ppm / one_million
cap_mono pool whole ppm h =
    div_mono (min (pool * ppm) u128_max) (whole * ppm) one_million (grind arith)

scaled_mono : (a b ppm : ℕ) → a ≤ b → a * ppm / one_million ≤ b * ppm / one_million
scaled_mono a b ppm h = div_mono (a * ppm) (b * ppm) one_million (grind arith)

module _ {World : Type 0} (config : Config World) where
  -- The accumulator of the block is within the cap of the pool as it was before its payments (with
  -- the deposits since).
  pub record IsCapped (s : State World) : Type 0 where
    pub capped :
        s.per_block_payout_accumulator
        ≤ (s.reaction_reward_pool + s.per_block_payout_accumulator)
          * config.per_block_payout_cap_ppm
          / one_million
    pub pool_fits : s.reaction_reward_pool ≤ u128_max

  Pays-IsCapped :
      (author : Option ℕ) (s t : State World) (paid : ℕ)
      → 0 < config.per_block_payout_cap_ppm
      → Pays config author s t paid
      → IsCapped s
      → IsCapped t
  unfolding max_per_block
  Pays-IsCapped author s t paid positive p w = record {
    capped = ground (
      arith,
      p.pool,
      p.accumulated,
      p.within_budget,
      w.capped,
      cap_mono s.reaction_reward_pool (t.reaction_reward_pool + t.per_block_payout_accumulator)
          config.per_block_payout_cap_ppm,
    );
    pool_fits = omega (arith, p.pool, w.pool_fits);
  }

  same_funds :
      (s t : State World)
      → t.reaction_reward_pool ≡ s.reaction_reward_pool
      → t.per_block_payout_accumulator ≡ s.per_block_payout_accumulator
      → IsCapped s
      → IsCapped t
  same_funds s t pool paid w = record {
    capped = rw (pool, paid) w.capped;
    pool_fits = rw pool w.pool_fits;
  }

  deposit-IsCapped :
      (amount : ℕ) (s : State World)
      → IsCapped s
      → IsCapped (do_deposit_to_reaction_pool config amount s)
  unfolding do_deposit_to_reaction_pool
  deposit-IsCapped amount s w = record {
    capped = omega (
      arith,
      w.capped,
      w.pool_fits,
      scaled_mono (s.reaction_reward_pool + s.per_block_payout_accumulator)
          (min (s.reaction_reward_pool + amount) u128_max + s.per_block_payout_accumulator)
          config.per_block_payout_cap_ppm (omega (arith, w.pool_fits)),
    );
    pool_fits = omega arith;
  }

  end-IsCapped : (s : State World) → IsCapped s → IsCapped (on_finalize config s.block_number s)
  unfolding on_finalize adjust_difficulty
  end-IsCapped s w = record { capped = omega arith; pool_fits = ground (arith, w.pool_fits) }

  module _ (on_reaction : ℕ → ReactionType → World → World)
      (positive : 0 < config.per_block_payout_cap_ppm) where
    react-IsCapped :
        (who post_id : ℕ) (kind : ReactionType) (block nonce cpu : ℕ) (s : State World)
        → IsCapped s
        → IsCapped (commit s (react config on_reaction who post_id kind block nonce cpu s))
    unfolding record_reaction
    react-IsCapped who post_id kind block nonce cpu s w =
        elim (react-Reacts config on_reaction who post_id kind block nonce cpu s) [
          | inl (e, refused, _) ↦ rw refused w
          | inr (t, accepted, a, r) ↦
              let recorded = record_reaction config who post_id kind nonce cpu s in
              let paid =
                Pays-IsCapped _ recorded r.settled r.paid positive r.pays
                  (same_funds s recorded refl refl w) in
              rw accepted (same_funds r.settled t (rw r.result refl) (rw r.result refl) paid)
        ]

    module _ (currency : Currency World) where
      pub step-IsCapped :
          (c : Call World) (s : State World)
          → IsCapped s
          → IsCapped (step config currency on_reaction c s)
      unfolding dispatch lock_for_rewards unlock_reactor
      step-IsCapped (react_call who post kind block nonce cpu) s w =
          react-IsCapped who post kind block nonce cpu s w
      step-IsCapped (lock_call who locked) s w = same_funds s _ (ground arith) (ground arith) w
      step-IsCapped (unlock_call who) s w = same_funds s _ (ground arith) (ground arith) w
      step-IsCapped (deposit_to_pool deposit) s w = deposit-IsCapped deposit s w
      step-IsCapped (others_act world) s w = same_funds s _ refl refl w
      step-IsCapped end_block s w =
          same_funds (on_finalize config s.block_number s) _ refl refl (end-IsCapped s w)
