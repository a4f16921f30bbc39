-- ===== src/Stealth/Run.antt =====
-- All that can happen to the stealth pallet (apps/blockchain/pallets/stealth/src/lib.rs): its calls, what
-- the messaging pallet asks of it, a change of the balances, and the next block.
use anarchy.Base.{ℕ, suc, List, [], ◌∷◌}
use anarchy.Base.Dispatch.{Result, ok, commit}
use anarchy.Stealth.{
  Config, State, Error, Claim, send_to_stealth, claim_stealth_reward, deposit_to_reward_pool,
  record_recipient_receive,
}

pub data Call (World : Type 0) : Type 0 where
  send_call : (sender stealth_address ephemeral_pubkey amount : ℕ) → Call World
  claim_call : (recipient : ℕ) → Claim → Call World
  deposit_by_messaging : (amount : ℕ) → Call World
  receive_by_messaging : (ephemeral_pubkey : ℕ) → Call World
  others_act : World → Call World
  next_block : Call World

module _ {World : Type 0} (config : Config World) where
  unfoldable pub dispatch : Call World → State World → Result Error (State World)
  dispatch (send_call sender address key amount) s =
      send_to_stealth config sender address key amount s
  dispatch (claim_call recipient c) s = claim_stealth_reward config recipient c s
  dispatch (deposit_by_messaging amount) s = ok (deposit_to_reward_pool amount s)
  dispatch (receive_by_messaging key) s = ok (record_recipient_receive key s)
  dispatch (others_act world) s = ok (record s { world = world })
  dispatch next_block s = ok (record s { block_number = suc s.block_number })

  abbrev pub step : Call World → State World → State World
  step c s = commit s (dispatch c s)

  unfoldable pub run : List (Call World) → State World → State World
  run [] s = s
  run (c ∷ cs) s = run cs (step c s)
