-- ===== src/Storage/Payouts.antt =====
-- What proofs accrue and what claims pay.
use anarchy.Base.{
  ℕ, ◌+◌, ◌/◌, ◌<◌, ◌≤◌, ◌≡◌, ◌≢◌, none, some, arith, min, max, sat_mul, u128_max, Option-cases,
  inl, inr,
}
use anarchy.Base.Dispatch.{ok, err, Result-cases}
use native.Mathlib.Nat.{zero-mul}
use anarchy.Rewards.{root, one_million, calculate_reward_v3, pool_decay, bond_correction}
use anarchy.Storage.Types.{Env, State, Error}
use anarchy.Storage.Challenges.{claim_reward, accept_proof, settle_reward, proof_reward}

-- With an empty pool the decay leaves nothing, and there is nothing to correct.
pool_decay_empty : (target r : ℕ) → 0 < target → pool_decay 0 target r ≡ 0
unfolding pool_decay
pool_decay_empty target r h = grind arith

bond_correction_zero : (bond total : ℕ) → bond_correction bond total 0 ≡ 0
unfolding bond_correction
bond_correction_zero bond total =
    ground (arith, zero-mul (root (sat_mul u128_max bond one_million / max total 1)))

module _ {Bonds Tokens : Type 0} (env : Env Bonds Tokens) where
  -- What a claim has paid, and to whom.
  pub record Pays (a : ℕ) (s t : State Bonds Tokens) (payout : ℕ) : Type 0 where
    pub positive : 0 < payout
    pub minted : env.mint_into a payout s.tokens ≡ some t.tokens
    pub from_pool : t.reward_pool_balance + payout ≡ s.reward_pool_balance
    pub from_pending : t.pending_rewards a + payout ≡ s.pending_rewards a
    pub others : (x : ℕ) → x ≢ a → t.pending_rewards x ≡ s.pending_rewards x

  -- A claim that succeeds mints one positive amount, and takes just that from the pool and from the
  -- pending reward of the claimer; a remainder that the pool cannot pay stays pending.
  pub claim_reward-Pays :
      (a : ℕ) (s : State Bonds Tokens) {t : State Bonds Tokens}
      → claim_reward env a s ≡ ok t
      → Pays a s t (min (s.pending_rewards a) s.reward_pool_balance)
  unfolding claim_reward
  claim_reward-Pays a s h =
      elim (Option-cases
        (env.mint_into a (min (s.pending_rewards a) s.reward_pool_balance) s.tokens)) [
          | inl e ↦ absurd (ground arith)
          | inr (l, e) ↦ record {
            positive = ground arith;
            minted = ground arith;
            from_pool = ground arith;
            from_pending = ground arith;
            others = λ x ne. ground arith;
          }
        ]

  -- A claim succeeds when the pending reward reaches the minimum and is positive, the pool is not
  -- empty and the token can be minted.
  pub claim_reward_succeeds :
      (a : ℕ) (s : State Bonds Tokens) (l : Tokens)
      → 0 < s.pending_rewards a
      → env.min_withdrawal_amount ≤ s.pending_rewards a
      → 0 < s.reward_pool_balance
      → env.mint_into a (min (s.pending_rewards a) s.reward_pool_balance) s.tokens ≡ some l
      → (t : State Bonds Tokens) × (claim_reward env a s ≡ ok t)
  unfolding claim_reward
  claim_reward_succeeds a s l pending enough pool mint =
      elim (Result-cases (claim_reward env a s)) [
        | inr (t, e) ↦ (t, e)
        | inl (x, e) ↦ absurd (claim_reward_not_err x e)
      ]
    where
      claim_reward_not_err : (x : Error) → claim_reward env a s ≡ err x → ⊥
      claim_reward_not_err x e = ground arith

  proof_reward_empty :
      (a h size : ℕ) (s : State Bonds Tokens)
      → s.reward_pool_balance ≡ 0
      → 0 < env.storage_pool_target
      → proof_reward env a h size s ≡ 0
  unfolding proof_reward calculate_reward_v3
  proof_reward_empty a h size s empty target = ground (
    arith,
    empty,
    pool_decay_empty env.storage_pool_target (sat_mul u128_max env.base_reward_per_byte size),
    bond_correction_zero (env.stake_provider.bond_amount a s.bonds)
        (env.stake_provider.total_bond s.bonds),
  )

  -- With an empty pool and a positive target, an accepted proof pays nothing, and marks content
  -- that is not marked yet as a forgetting candidate whatever its score is.
  pub accept_proof_empty_pool :
      (a h i size : ℕ) (s : State Bonds Tokens)
      → s.reward_pool_balance ≡ 0
      → 0 < env.storage_pool_target
      → s.forgetting_candidates h ≡ none
      → let t = accept_proof env a h i size s in
        (t.forgetting_candidates h ≡ some s.block_number) × (t.pending_rewards ≡ s.pending_rewards)
  unfolding accept_proof settle_reward
  accept_proof_empty_pool a h i size s empty target fresh =
      ground (arith, proof_reward_empty a h size s empty target, fresh)
