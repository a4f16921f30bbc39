-- ===== src/Reaction/Run.antt =====
-- All that can happen to the reaction pallet (apps/blockchain/pallets/reaction/src/lib.rs): its
-- calls, a deposit by another pallet, a change of the other pallets' state, and the end of a block.
use anarchy.Base.{ℕ, suc, List, [], ◌∷◌}
use anarchy.Base.Dispatch.{Result, ok, commit}
use anarchy.Base.Reservable.{Currency}
use anarchy.Reaction.Types.{Config, State, ReactionType, Error}
use anarchy.Reaction.{
  react, lock_for_rewards, unlock_reactor, do_deposit_to_reaction_pool, on_finalize,
}

-- The first number of a call of an extrinsic is the account that signed it.
pub data Call (World : Type 0) : Type 0 where
  react_call :
      (reactor post_id : ℕ) → ReactionType → (block_number nonce cpu_power : ℕ) → Call World
  lock_call : (who amount : ℕ) → Call World
  unlock_call : (who : ℕ) → Call World
  deposit_to_pool : (amount : ℕ) → Call World
  others_act : World → Call World
  end_block : Call World

module _ {World : Type 0} (config : Config World) (currency : Currency World)
    (on_reaction : ℕ → ReactionType → World → World) where
  unfoldable pub dispatch : Call World → State World → Result Error (State World)
  dispatch (react_call who post kind block nonce cpu) s =
      react config on_reaction who post kind block nonce cpu s
  dispatch (lock_call who locked) s = lock_for_rewards config currency who locked s
  dispatch (unlock_call who) s = unlock_reactor config currency who s
  dispatch (deposit_to_pool deposit) s = ok (do_deposit_to_reaction_pool config deposit s)
  dispatch (others_act world) s = ok (record s { world = world })
  dispatch end_block s =
      let t = on_finalize config s.block_number s in
      ok (record t { block_number = suc t.block_number })

  abbrev pub step : Call World → State World → State World
  step c s = commit s (dispatch c s)

  unfoldable pub run : List (Call World) → State World → State World
  run [] s = s
  run (c ∷ cs) s = run cs (step c s)

  -- What every call keeps holds after any run.
  pub run_invariant {ℓ} :
      (P : State World → Type ℓ)
      → ((c : Call World) (s : State World) → P s → P (step c s))
      → (cs : List (Call World)) (s : State World) → P s
      → P (run cs s)
  unfolding run
  run_invariant P keep [] s h = h
  run_invariant P keep (c ∷ cs) s h = run_invariant P keep cs (step c s) (keep c s h)
