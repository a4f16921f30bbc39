-- ===== src/Storage/Challenges.antt =====
-- Challenges, proofs and rewards: the calls `issue_challenge`, `prove_holding_kzg` and
-- `claim_reward`, and the hook `on_finalize`, of apps/blockchain/pallets/storage/src/lib.rs.
use anarchy.Base.{
  ℕ, ◌-◌, ◌&&◌, not, Option, none, some, List, [], ◌∷◌, length, ltb, leb, ◌==◌, if◌then◌else◌,
  update, is_some, try_push, contains, sat_add, u32_max, u64_max, u128_max, min,
}
use anarchy.Base.Dispatch.{Result, ok, ◌>>=◌, ◌>>◌, ensure, ok_or, commit}
use anarchy.Rewards.{calculate_reward_v3}
use anarchy.Storage.Types.{
  update₂, Challenge, ProofRecord, Error, Env, State, emit, holding_proved, challenge_issued,
  reward_claimed, forgetting_candidate_marked, score_recovered, challenge_expired,
  fragment_too_small, invalid_commitment_length, invalid_kzg_proof, not_challenged,
  challenge_already_issued, proof_already_submitted, invalid_challenge_index,
  kzg_fragment_not_found, not_holder, no_pending_reward, insufficient_reward_pool,
  reward_mint_failed, not_holder_of_fragment, challenge_limit_exceeded, issuer_not_registered_node,
  insufficient_accrued_rewards,
}
use anarchy.Storage.Repair.{do_slash_node}

abbrev pub challenge_period : ℕ
challenge_period = 100

abbrev pub max_challenges_per_deadline : ℕ
max_challenges_per_deadline = 1000

-- `unwrap_or`
abbrev pub or_default : Option ℕ → ℕ → ℕ
or_default none d = d
or_default (some a) d = a

-- A record after a proof, and after an expired challenge.
abbrev pub proved : ℕ → ProofRecord → ProofRecord
proved now r = record r {
  last_proved_at = now;
  success_count = sat_add u32_max r.success_count 1;
  failure_count = 0;
}

abbrev pub failed : ProofRecord → ProofRecord
failed r = record r { failure_count = sat_add u32_max r.failure_count 1 }

module _ {Bonds Tokens : Type 0} (env : Env Bonds Tokens) where
  unfoldable pub issue_challenge :
      (issuer content_hash node_account challenge_index : ℕ)
      → State Bonds Tokens
      → Result Error (State Bonds Tokens)
  issue_challenge issuer content_hash node_account challenge_index s = do
    ensure (is_some (s.operator_nodes issuer)) issuer_not_registered_node
    let current_block = s.block_number
    let current_count = s.challenge_count_per_block current_block issuer
    ensure (ltb current_count env.max_challenges_per_block) challenge_limit_exceeded
    fragment ← ok_or (s.kzg_fragments content_hash) kzg_fragment_not_found
    ensure (contains node_account fragment.holders) not_holder_of_fragment
    ensure (leb 1 challenge_index && leb challenge_index fragment.fragment_count)
        invalid_challenge_index
    ensure (not (is_some (s.pending_challenges content_hash challenge_index)))
        challenge_already_issued
    let deadline = sat_add u32_max current_block challenge_period
    let challenge : Challenge = record {
      content_hash = content_hash;
      share_index = challenge_index;
      challenged_node = node_account;
      issued_at = current_block;
      deadline = deadline;
    }
    due ←
        ok_or
          (try_push max_challenges_per_deadline (content_hash, challenge_index)
            (s.challenges_by_deadline deadline))
          challenge_limit_exceeded
    ok (
        emit (challenge_issued content_hash challenge_index node_account deadline) (record s {
          pending_challenges =
              update₂ content_hash challenge_index (some challenge) s.pending_challenges;
          challenges_by_deadline = update deadline due s.challenges_by_deadline;
          challenge_count_per_block =
              update₂ current_block issuer (sat_add u32_max current_count 1)
                s.challenge_count_per_block;
        }))

  -- The reward of a proof: the score (1000 where none is cached), the pool and the bonds.
  unfoldable pub proof_reward : (prover content_hash data_size : ℕ) → State Bonds Tokens → ℕ
  proof_reward prover content_hash data_size s =
      calculate_reward_v3 data_size env.base_reward_per_byte
        (or_default (s.score_cache content_hash) 1000) env.score_threshold s.reward_pool_balance
        env.storage_pool_target (env.stake_provider.bond_amount prover s.bonds)
        (env.stake_provider.total_bond s.bonds)

  -- The two branches on the reward: accumulate it and perhaps leave the forgetting candidates, or
  -- become one.
  unfoldable pub settle_reward :
      (prover content_hash reward : ℕ) → State Bonds Tokens → State Bonds Tokens
  settle_reward prover content_hash reward s =
      let score = or_default (s.score_cache content_hash) 1000 in
      let recovery_threshold = sat_add u64_max env.score_threshold env.score_hysteresis_margin in
      let marked = is_some (s.forgetting_candidates content_hash) in
      let paid : State Bonds Tokens = record s {
        pending_rewards =
            update prover (sat_add u128_max (s.pending_rewards prover) reward) s.pending_rewards;
      } in
      if ltb 0 reward
      then (if marked && leb recovery_threshold score
          then emit (score_recovered content_hash) (record paid {
            forgetting_candidates = update content_hash none paid.forgetting_candidates;
          })
          else paid)
      else (if marked
          then s
          else emit (forgetting_candidate_marked content_hash s.block_number) (record s {
            forgetting_candidates =
                update content_hash (some s.block_number) s.forgetting_candidates;
          }))

  -- The writes of a proof that has been accepted.
  unfoldable pub accept_proof :
      (prover content_hash share_index data_size : ℕ) → State Bonds Tokens → State Bonds Tokens
  unfolding proof_reward settle_reward
  accept_proof prover content_hash share_index data_size s =
      let reward = proof_reward prover content_hash data_size s in
      let recorded : State Bonds Tokens = record s {
        proof_records =
            update₂ content_hash prover
              (proved s.block_number (s.proof_records content_hash prover)) s.proof_records;
      } in
      let settled = settle_reward prover content_hash reward recorded in
      emit (holding_proved content_hash prover share_index) (record settled {
        pending_challenges = update₂ content_hash share_index none settled.pending_challenges;
      })

  unfoldable pub prove_holding_kzg :
      (prover content_hash share_index : ℕ)
      → (share_value proof : List ℕ) → State Bonds Tokens
      → Result Error (State Bonds Tokens)
  unfolding accept_proof
  prove_holding_kzg prover content_hash share_index share_value proof s = do
    challenge ← ok_or (s.pending_challenges content_hash share_index) not_challenged
    ensure (challenge.challenged_node == prover) not_challenged
    let existing = s.proof_records content_hash prover
    ensure (not (existing.last_proved_at == s.block_number)) proof_already_submitted
    ensure (length share_value == 32) fragment_too_small
    ensure (length proof == 48) invalid_commitment_length
    fragment ← ok_or (s.kzg_fragments content_hash) kzg_fragment_not_found
    ensure (contains prover fragment.holders) not_holder
    ensure (leb 1 share_index && leb share_index fragment.fragment_count) invalid_challenge_index
    ensure (length fragment.commitment == 48) invalid_commitment_length
    is_valid ←
        ok_or (env.verify_kzg_proof fragment.commitment share_index share_value proof)
          invalid_kzg_proof
    ensure is_valid invalid_kzg_proof
    ok (accept_proof prover content_hash share_index fragment.data_size s)

  unfoldable pub claim_reward : ℕ → State Bonds Tokens → Result Error (State Bonds Tokens)
  claim_reward claimer s = do
    let total_reward = s.pending_rewards claimer
    ensure (ltb 0 total_reward) no_pending_reward
    ensure (leb env.min_withdrawal_amount total_reward) insufficient_accrued_rewards
    let payout = min total_reward s.reward_pool_balance
    ensure (ltb 0 payout) insufficient_reward_pool
    tokens ← ok_or (env.mint_into claimer payout s.tokens) reward_mint_failed
    ok (
        emit (reward_claimed claimer payout) (record s {
          tokens = tokens;
          reward_pool_balance = s.reward_pool_balance - payout;
          pending_rewards =
              update claimer
                (if ltb payout total_reward then s.pending_rewards claimer - payout else 0)
                s.pending_rewards;
        }))

  -- The body of the loop of `on_finalize`, for a challenge that is pending.
  unfoldable pub expire_challenge :
      (content_hash share_index : ℕ) → Challenge → State Bonds Tokens → State Bonds Tokens
  expire_challenge content_hash share_index challenge s =
      let node = challenge.challenged_node in
      let r = failed (s.proof_records content_hash node) in
      let s' : State Bonds Tokens =
        emit (challenge_expired content_hash share_index node) (record s {
          pending_challenges = update₂ content_hash share_index none s.pending_challenges;
          proof_records = update₂ content_hash node r s.proof_records;
        }) in
      if leb 3 r.failure_count && not r.slashed
      then commit s' (do_slash_node env node content_hash s')
      else s'

  unfoldable pub expire_one : ℕ × ℕ → State Bonds Tokens → State Bonds Tokens
  unfolding expire_challenge
  expire_one (content_hash, share_index) s = elim (s.pending_challenges content_hash share_index) [
    | none ↦ s
    | some challenge ↦ expire_challenge content_hash share_index challenge s
  ]

  unfoldable pub expire_all : List (ℕ × ℕ) → State Bonds Tokens → State Bonds Tokens
  unfolding expire_one
  expire_all [] s = s
  expire_all (entry ∷ rest) s = expire_all rest (expire_one entry s)

  -- The counters of the block and its deadline entries are removed before the loop.
  abbrev pub clear_block : State Bonds Tokens → State Bonds Tokens
  clear_block s =
      let block = s.block_number in
      record s {
        registration_count_per_block = update block 0 s.registration_count_per_block;
        declare_holding_count_per_block = update block (λ p. 0) s.declare_holding_count_per_block;
        challenge_count_per_block = update block (λ a. 0) s.challenge_count_per_block;
        challenges_by_deadline = update block [] s.challenges_by_deadline;
      }

  -- The hook at the end of the block.
  unfoldable pub on_finalize : State Bonds Tokens → State Bonds Tokens
  unfolding expire_all
  on_finalize s = expire_all (s.challenges_by_deadline s.block_number) (clear_block s)
