-- ===== src/Messaging/Run.antt =====
-- All that can happen to the messaging pallet (apps/blockchain/pallets/messaging/src/lib.rs): its calls,
-- a change of the other pallets' state, and the next block.
use anarchy.Base.{ℕ, suc, List, [], ◌∷◌}
use anarchy.Base.Dispatch.{Result, ok, commit}
use anarchy.Messaging.{
  Config, State, Error, DmMetaAddress, Message, publish_dm_key, revoke_dm_key, send_dm,
}

pub data Call (World : Type 0) : Type 0 where
  publish_call : (who : ℕ) → DmMetaAddress → Call World
  revoke_call : (who : ℕ) → Call World
  send_call : (who : ℕ) → Message → Call World
  others_act : World → Call World
  next_block : Call World

module _ {World : Type 0} (config : Config World) where
  unfoldable pub dispatch : Call World → State World → Result Error (State World)
  dispatch (publish_call who m) s = publish_dm_key config who m s
  dispatch (revoke_call who) s = revoke_dm_key config who s
  dispatch (send_call who m) s = send_dm config who m s
  dispatch (others_act world) s = ok (record s { world = world })
  dispatch next_block s = ok (record s { block_number = suc s.block_number })

  abbrev pub step : Call World → State World → State World
  step c s = commit s (dispatch c s)

  unfoldable pub run : List (Call World) → State World → State World
  run [] s = s
  run (c ∷ cs) s = run cs (step c s)

  -- What every call keeps holds after any run.
  pub run_invariant {ℓ} :
      (P : State World → Type ℓ)
      → ((c : Call World) (s : State World) → P s → P (step c s))
      → (cs : List (Call World)) (s : State World) → P s
      → P (run cs s)
  unfolding run
  run_invariant P keep [] s h = h
  run_invariant P keep (c ∷ cs) s h = run_invariant P keep cs (step c s) (keep c s h)
