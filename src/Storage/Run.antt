-- ===== src/Storage/Run.antt =====
-- All that can happen to the storage pallet: its calls, the calls of other pallets through its
-- interface (apps/blockchain/pallets/storage/src/lib.rs), changes of the state of the stake pallet
-- and of the token by others, and the end of a block. A call that fails leaves the state alone.
use anarchy.Base.{ℕ, suc, List, [], ◌∷◌}
use anarchy.Base.Dispatch.{Result, ok, commit}
use anarchy.Storage.Types.{Env, State, Error, PeerId}
use anarchy.Storage.Nodes.{
  register_fragment, register_fragment_at, register_node, update_node, unregister_node,
}
use anarchy.Storage.Holdings.{declare_holding, revoke_holding}
use anarchy.Storage.Repair.{confirm_repair, evict_stale_holder}
use anarchy.Storage.Challenges.{issue_challenge, prove_holding_kzg, claim_reward, on_finalize}
use anarchy.Storage.Release.{
  do_register_kzg_fragment, do_deposit_to_reward_pool, do_release_fragment,
}

-- The first number of a call of an extrinsic is the account that signed it.
pub data Call (Bonds Tokens : Type 0) : Type 0 where
  register_fragment_call : (creator fragment_id size : ℕ) → Call Bonds Tokens
  register_node_call :
      (operator : ℕ) → PeerId → (capacity pow_nonce : ℕ) → List ℕ → Call Bonds Tokens
  update_node_call : (operator new_capacity : ℕ) → Call Bonds Tokens
  unregister_node_call : (operator : ℕ) → Call Bonds Tokens
  declare_holding_call : (operator fragment_id : ℕ) → Call Bonds Tokens
  revoke_holding_call : (operator fragment_id : ℕ) → Call Bonds Tokens
  prove_holding_kzg_call :
      (prover content_hash share_index : ℕ) → (share_value proof : List ℕ) → Call Bonds Tokens
  issue_challenge_call : (issuer content_hash node_account challenge_index : ℕ) → Call Bonds Tokens
  claim_reward_call : (claimer : ℕ) → Call Bonds Tokens
  confirm_repair_call :
      (new_holder content_hash share_index : ℕ)
      → (share_value kzg_proof : List ℕ) → Call Bonds Tokens
  evict_stale_holder_call : (content_hash : ℕ) → Call Bonds Tokens
  register_fragment_by_post : (created_at fragment_id size creator : ℕ) → Call Bonds Tokens
  register_kzg_fragment_by_post :
      (owner content_hash : ℕ)
      → List ℕ
      → (data_size fragment_count threshold : ℕ) → Call Bonds Tokens
  deposit_to_reward_pool : (amount : ℕ) → Call Bonds Tokens
  release_fragment : (content_hash : ℕ) → Call Bonds Tokens
  others_act : Bonds → Tokens → Call Bonds Tokens
  end_block : Call Bonds Tokens

module _ {Bonds Tokens : Type 0} (env : Env Bonds Tokens) where
  unfoldable pub dispatch :
      Call Bonds Tokens → State Bonds Tokens → Result Error (State Bonds Tokens)
  dispatch (register_fragment_call creator id size) s = register_fragment env creator id size s
  dispatch (register_node_call operator peer capacity nonce url) s =
      register_node env operator peer capacity nonce url s
  dispatch (update_node_call operator capacity) s = update_node env operator capacity s
  dispatch (unregister_node_call operator) s = unregister_node env operator s
  dispatch (declare_holding_call operator id) s = declare_holding env operator id s
  dispatch (revoke_holding_call operator id) s = revoke_holding operator id s
  dispatch (prove_holding_kzg_call prover hash index value proof) s =
      prove_holding_kzg env prover hash index value proof s
  dispatch (issue_challenge_call issuer hash node index) s =
      issue_challenge env issuer hash node index s
  dispatch (claim_reward_call claimer) s = claim_reward env claimer s
  dispatch (confirm_repair_call holder hash index value proof) s =
      confirm_repair env holder hash index value proof s
  dispatch (evict_stale_holder_call hash) s = evict_stale_holder hash s
  dispatch (register_fragment_by_post at id size creator) s =
      register_fragment_at env at id size creator s
  dispatch (register_kzg_fragment_by_post owner hash commitment size count threshold) s =
      do_register_kzg_fragment owner hash commitment size count threshold s
  dispatch (deposit_to_reward_pool amount) s = ok (do_deposit_to_reward_pool amount s)
  dispatch (release_fragment hash) s = ok (do_release_fragment hash s)
  dispatch (others_act bonds tokens) s = ok (record s { bonds = bonds; tokens = tokens })
  dispatch end_block s =
      let t = on_finalize env s in ok (record t { block_number = suc t.block_number })

  abbrev pub step : Call Bonds Tokens → State Bonds Tokens → State Bonds Tokens
  step c s = commit s (dispatch c s)

  unfoldable pub run : List (Call Bonds Tokens) → State Bonds Tokens → State Bonds Tokens
  run [] s = s
  run (c ∷ cs) s = run cs (step c s)

-- What every call keeps holds after any run.
pub run_invariant {ℓ} :
    {Bonds Tokens : Type 0} (env : Env Bonds Tokens) (P : State Bonds Tokens → Type ℓ)
    → ((c : Call Bonds Tokens) (s : State Bonds Tokens) → P s → P (step env c s))
    → (cs : List (Call Bonds Tokens)) (s : State Bonds Tokens) → P s
    → P (run env cs s)
unfolding run
run_invariant env P keep [] s h = h
run_invariant env P keep (c ∷ cs) s h = run_invariant env P keep cs (step env c s) (keep c s h)
