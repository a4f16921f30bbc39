-- ===== src/Reaction/Budget.antt =====
-- What the reaction pool pays out in a block.
use anarchy.Base.{
  ℕ, ◌+◌, ◌-◌, ap, ◌∙◌, [], ◌∷◌, ◌*◌, ◌/◌, ◌≡◌, ◌≤◌, ◌<◌, inl, inr, arith, List, u128_max,
}
use anarchy.Base.Dispatch.{commit}
use anarchy.Base.Reservable.{Currency}
use anarchy.Rewards.{one_million}
use anarchy.Reaction.Types.{Config, State, ReactionType}
use anarchy.Reaction.{
  record_reaction, react, lock_for_rewards, unlock_reactor, do_deposit_to_reaction_pool,
  on_finalize, adjust_difficulty,
}
use anarchy.Reaction.Accepted.{react-Reacts}
use anarchy.Reaction.Run.{
  Call, dispatch, step, run, react_call, lock_call, unlock_call, deposit_to_pool, others_act,
  end_block,
}
use anarchy.Reaction.Capped.{IsCapped, step-IsCapped}

module _ {World : Type 0} (config : Config World) (on_reaction : ℕ → ReactionType → World → World)
    (currency : Currency World) where
  -- What has left the pool in this block, after a call: the end of the block starts anew.
  unfoldable pub next_paid : Call World → State World → (paid : ℕ) → ℕ
  next_paid end_block s paid = 0
  next_paid c s paid =
      paid + (s.reaction_reward_pool - (step config currency on_reaction c s).reaction_reward_pool)

  unfoldable pub paid_in_block : List (Call World) → State World → (paid : ℕ) → ℕ
  unfolding next_paid
  paid_in_block [] s paid = paid
  paid_in_block (c ∷ cs) s paid =
      paid_in_block cs (step config currency on_reaction c s) (next_paid c s paid)

  react-accounted :
      (who post_id : ℕ) (kind : ReactionType) (block nonce cpu : ℕ) (s : State World)
      → let t = commit s (react config on_reaction who post_id kind block nonce cpu s) in
        t.per_block_payout_accumulator
        ≡ s.per_block_payout_accumulator + (s.reaction_reward_pool - t.reaction_reward_pool)
  unfolding record_reaction
  react-accounted who post_id kind block nonce cpu s =
      elim (react-Reacts config on_reaction who post_id kind block nonce cpu s) [
        | inl (e, refused, _) ↦ rw refused (omega arith)
        | inr (t, accepted, a, r) ↦
            rw (accepted, r.result) (omega (arith, r.pays.pool, r.pays.accumulated))
      ]

  step-accounted :
      (c : Call World) (s : State World)
      → s.reaction_reward_pool ≤ u128_max
      → (step config currency on_reaction c s).per_block_payout_accumulator
        ≡ next_paid c s s.per_block_payout_accumulator
  unfolding dispatch lock_for_rewards unlock_reactor do_deposit_to_reaction_pool on_finalize
      adjust_difficulty next_paid
  step-accounted (react_call who post kind block nonce cpu) s h =
      react-accounted who post kind block nonce cpu s
  step-accounted (lock_call who locked) s h = ground arith
  step-accounted (unlock_call who) s h = ground arith
  step-accounted (deposit_to_pool deposit) s h = omega (arith, h)
  step-accounted (others_act world) s h = omega arith
  step-accounted end_block s h = ground arith

  -- `paid` is what the accumulator counts, and is within the cap of the pool as it was before
  -- these payments (with the deposits since).
  pub record IsWithinCap (paid : ℕ) (s : State World) : Type 0 where
    pub accounted : s.per_block_payout_accumulator ≡ paid
    pub capped :
        paid ≤ (s.reaction_reward_pool + paid) * config.per_block_payout_cap_ppm / one_million
    pub pool_fits : s.reaction_reward_pool ≤ u128_max

  step-IsWithinCap :
      0 < config.per_block_payout_cap_ppm
      → (c : Call World) (s : State World) (paid : ℕ) → IsWithinCap paid s
      → IsWithinCap (next_paid c s paid) (step config currency on_reaction c s)
  step-IsWithinCap positive c s paid w =
      let old : IsCapped config s = record {
        capped = rw w.accounted w.capped;
        pool_fits = w.pool_fits;
      } in
      let new = step-IsCapped config on_reaction positive currency c s old in
      let e : (step config currency on_reaction c s).per_block_payout_accumulator
          ≡ next_paid c s paid =
        step-accounted c s w.pool_fits ∙ ap (next_paid c s) w.accounted in
      record { accounted = e; capped = rw e at new.capped; pool_fits = new.pool_fits }

  -- With a cap that is not 0, along any sequence of calls and ends of blocks: the accumulator is
  -- what has left the pool in the current block, and that is at most the share
  -- `PerBlockPayoutCapPpm` of what the pool would hold had nothing left it.
  pub run-IsWithinCap :
      0 < config.per_block_payout_cap_ppm
      → (cs : List (Call World)) (s : State World) (paid : ℕ) → IsWithinCap paid s
      → IsWithinCap (paid_in_block cs s paid) (run config currency on_reaction cs s)
  unfolding run paid_in_block
  run-IsWithinCap positive [] s paid w = w
  run-IsWithinCap positive (c ∷ cs) s paid w =
      run-IsWithinCap positive cs (step config currency on_reaction c s) (next_paid c s paid)
        (step-IsWithinCap positive c s paid w)
