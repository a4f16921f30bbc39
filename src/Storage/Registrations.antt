-- ===== src/Storage/Registrations.antt =====
-- The registration counters, and the difficulty of the proof of work that is read off them.
use anarchy.Base.{ℕ, zero, suc, ◌-◌, ◌<◌, ◌≤◌, ◌≡◌, ◌≢◌, refl, List, arith, min, u32_max}
use anarchy.Base.Dispatch.{ok, commit}
use anarchy.Storage.Types.{Env, State, PeerId, genesis}
use anarchy.Storage.Pow.{
  calculate_difficulty, max_difficulty, can_register_node, increment_registration_count,
}
use anarchy.Storage.Nodes.{
  register_fragment, register_node, update_node, unregister_node, recent_from,
  get_recent_registrations, current_pow_difficulty,
}
use anarchy.Storage.Holdings.{declare_holding, revoke_holding}
use anarchy.Storage.Challenges.{on_finalize, clear_block}
use anarchy.Storage.Release.{do_deposit_to_reward_pool, do_release_fragment}
use anarchy.Storage.Run.{
  Call, dispatch, step, run, run_invariant, register_fragment_call, register_node_call,
  update_node_call, unregister_node_call, declare_holding_call, revoke_holding_call,
  prove_holding_kzg_call, issue_challenge_call, claim_reward_call, confirm_repair_call,
  evict_stale_holder_call, register_fragment_by_post, register_kzg_fragment_by_post,
  deposit_to_reward_pool, release_fragment, others_act, end_block,
}
use anarchy.Storage.Frame.{
  Quiet, register_fragment-Quiet, issue_challenge-Quiet, claim_reward-Quiet, prove-Quiet,
  confirm_repair-Quiet, evict-Quiet, register_kzg-Quiet, expire_all-Quiet,
}

-- Only the current block has a counter, and it is within the limit.
pub record IsFresh {Bonds Tokens : Type 0} (env : Env Bonds Tokens) (s : State Bonds Tokens)
    : Type 0 where
  pub only_now : (n : ℕ) → n ≢ s.block_number → s.registration_count_per_block n ≡ 0
  pub limited : s.registration_count_per_block s.block_number ≤ env.max_registrations_per_block

sub_zero : (n : ℕ) → n - 0 ≡ n
sub_zero n = omega arith

module _ {Bonds Tokens : Type 0} (env : Env Bonds Tokens) where
  same_counts :
      (s t : State Bonds Tokens)
      → t.registration_count_per_block ≡ s.registration_count_per_block
      → t.block_number ≡ s.block_number
      → IsFresh env s
      → IsFresh env t
  same_counts s t counts block f = record {
    only_now = λ n h. rw counts (f.only_now n (rw block at h));
    limited = rw (counts, block) f.limited;
  }

  keep : (s t : State Bonds Tokens) → Quiet s t → IsFresh env s → IsFresh env t
  keep s t k f = same_counts s t k.counts k.block f

  register_node-IsFresh :
      (a : ℕ) (p : PeerId) (b c : ℕ) (u : List ℕ) (s : State Bonds Tokens)
      → IsFresh env s
      → IsFresh env (commit s (register_node env a p b c u s))
  unfolding register_node can_register_node increment_registration_count
  register_node-IsFresh a p b c u s f = record {
    only_now = λ n h. ground (arith, f.only_now n);
    limited = ground (arith, f.limited);
  }

  update_node-counts :
      (a b : ℕ) (s : State Bonds Tokens)
      → let t = commit s (update_node env a b s) in
        (t.registration_count_per_block ≡ s.registration_count_per_block)
        × (t.block_number ≡ s.block_number)
  unfolding update_node
  update_node-counts a b s = ground arith

  unregister_node-counts :
      (a : ℕ) (s : State Bonds Tokens)
      → let t = commit s (unregister_node env a s) in
        (t.registration_count_per_block ≡ s.registration_count_per_block)
        × (t.block_number ≡ s.block_number)
  unfolding unregister_node
  unregister_node-counts a s = ground arith

  declare_holding-counts :
      (a b : ℕ) (s : State Bonds Tokens)
      → let t = commit s (declare_holding env a b s) in
        (t.registration_count_per_block ≡ s.registration_count_per_block)
        × (t.block_number ≡ s.block_number)
  unfolding declare_holding
  declare_holding-counts a b s = ground arith

  revoke_holding-counts :
      (a b : ℕ) (s : State Bonds Tokens)
      → let t = commit s (revoke_holding a b s) in
        (t.registration_count_per_block ≡ s.registration_count_per_block)
        × (t.block_number ≡ s.block_number)
  unfolding revoke_holding
  revoke_holding-counts a b s = ground arith

  release-counts :
      (a : ℕ) (s : State Bonds Tokens)
      → let t = do_release_fragment a s in
        (t.registration_count_per_block ≡ s.registration_count_per_block)
        × (t.block_number ≡ s.block_number)
  unfolding do_release_fragment
  release-counts a s = ground arith

  -- The block that ends has its counter removed, and the next one has none yet.
  end_block-IsFresh : (s : State Bonds Tokens) → IsFresh env s → IsFresh env (step env end_block s)
  unfolding dispatch on_finalize
  end_block-IsFresh s f =
      let q = expire_all-Quiet env (s.challenges_by_deadline s.block_number) (clear_block env s) in
      record {
        only_now = λ n h. rw (q.counts) (ground (arith, f.only_now n));
        limited = rw (q.counts, q.block) (ground (arith, f.only_now (suc s.block_number)));
      }

  step-IsFresh :
      (c : Call Bonds Tokens) (s : State Bonds Tokens) → IsFresh env s → IsFresh env (step env c s)
  unfolding dispatch register_fragment do_deposit_to_reward_pool
  step-IsFresh (register_fragment_call a b c) s f =
      keep s _ (register_fragment-Quiet env s.block_number b c a s) f
  step-IsFresh (register_node_call a p b c u) s f = register_node-IsFresh a p b c u s f
  step-IsFresh (update_node_call a b) s f =
      let e = update_node-counts a b s in same_counts s _ e.0 e.1 f
  step-IsFresh (unregister_node_call a) s f =
      let e = unregister_node-counts a s in same_counts s _ e.0 e.1 f
  step-IsFresh (declare_holding_call a b) s f =
      let e = declare_holding-counts a b s in same_counts s _ e.0 e.1 f
  step-IsFresh (revoke_holding_call a b) s f =
      let e = revoke_holding-counts a b s in same_counts s _ e.0 e.1 f
  step-IsFresh (prove_holding_kzg_call a c i u v) s f = keep s _ (prove-Quiet env a c i u v s) f
  step-IsFresh (issue_challenge_call a c n i) s f = keep s _ (issue_challenge-Quiet env a c n i s) f
  step-IsFresh (claim_reward_call a) s f = keep s _ (claim_reward-Quiet env a s) f
  step-IsFresh (confirm_repair_call a c i u v) s f =
      keep s _ (confirm_repair-Quiet env a c i u v s) f
  step-IsFresh (evict_stale_holder_call c) s f = keep s _ (evict-Quiet env c s) f
  step-IsFresh (register_fragment_by_post a b c d) s f =
      keep s _ (register_fragment-Quiet env a b c d s) f
  step-IsFresh (register_kzg_fragment_by_post o c u d n k) s f =
      keep s _ (register_kzg-Quiet env o c u d n k s) f
  step-IsFresh (deposit_to_reward_pool a) s f = same_counts s _ refl refl f
  step-IsFresh (release_fragment c) s f = let e = release-counts c s in same_counts s _ e.0 e.1 f
  step-IsFresh (others_act x y) s f = same_counts s _ refl refl f
  step-IsFresh end_block s f = end_block-IsFresh s f

  run-IsFresh :
      (bonds : Bonds) (tokens : Tokens) (pool : ℕ) (cs : List (Call Bonds Tokens))
      → IsFresh env (run env cs (genesis bonds tokens pool))
  run-IsFresh bonds tokens pool cs =
      run_invariant env (IsFresh env) step-IsFresh cs (genesis bonds tokens pool)
        (record { only_now = λ n h. refl; limited = omega arith })

  -- From the second round on the loop over the past blocks adds nothing.
  recent_from_past :
      (s : State Bonds Tokens)
      → IsFresh env s
      → (left i count : ℕ) → count ≤ u32_max
      → recent_from s.registration_count_per_block s.block_number left (suc i) count ≡ count
  unfolding recent_from
  recent_from_past s f zero i count h = refl
  recent_from_past s f (suc left) i count h =
      ground (arith, f.only_now (s.block_number - suc i), recent_from_past s f left (suc i) count h)

  recent_from_now :
      (s : State Bonds Tokens)
      → IsFresh env s
      → env.max_registrations_per_block ≤ u32_max
      → (left : ℕ)
      → recent_from s.registration_count_per_block s.block_number (suc left) 0 0
        ≡ s.registration_count_per_block s.block_number
  unfolding recent_from
  recent_from_now s f bound left = ground (
    arith,
    recent_from_past s f left 0 (s.registration_count_per_block s.block_number),
    f.limited,
    sub_zero s.block_number,
  )

  recent_is_now :
      (s : State Bonds Tokens)
      → IsFresh env s
      → env.max_registrations_per_block ≤ u32_max
      → 0 < env.pow_observation_period
      → get_recent_registrations env s ≡ s.registration_count_per_block s.block_number
  unfolding get_recent_registrations
  recent_is_now s f bound period =
      let e : env.pow_observation_period ≡ suc (env.pow_observation_period - 1) = omega arith in
      rw e (recent_from_now s f bound (env.pow_observation_period - 1))

  registered_below_limit :
      (a : ℕ) (p : PeerId) (b c : ℕ) (u : List ℕ) (s : State Bonds Tokens) {t : State Bonds Tokens}
      → register_node env a p b c u s ≡ ok t
      → s.registration_count_per_block s.block_number < env.max_registrations_per_block
  unfolding register_node can_register_node
  registered_below_limit a p b c u s h = ground arith

  -- After any run from genesis the registrations of the observation period are those of the current
  -- block alone, and there are at most as many of them as the limit of a block.
  pub run_recent_registrations :
      (bonds : Bonds) (tokens : Tokens) (pool : ℕ) (cs : List (Call Bonds Tokens))
      → env.max_registrations_per_block ≤ u32_max
      → 0 < env.pow_observation_period
      → let s = run env cs (genesis bonds tokens pool) in
        (get_recent_registrations env s ≡ s.registration_count_per_block s.block_number)
        × (get_recent_registrations env s ≤ env.max_registrations_per_block)
  run_recent_registrations bonds tokens pool cs bound period =
      let s = run env cs (genesis bonds tokens pool) in
      let f = run-IsFresh bonds tokens pool cs in
      let e = recent_is_now s f bound period in (e, rw e f.limited)

  -- With a limit of at most 5 registrations to a block, as in the runtime, and a positive
  -- observation period, every registration that succeeds after a run from genesis was checked
  -- against the base difficulty (at most 24).
  pub run_base_difficulty :
      (bonds : Bonds) (tokens : Tokens) (pool : ℕ) (cs : List (Call Bonds Tokens)) (operator : ℕ)
      (peer : PeerId) (capacity nonce : ℕ) (url : List ℕ) {t : State Bonds Tokens}
      → env.max_registrations_per_block ≤ 5
      → 0 < env.pow_observation_period
      → register_node env operator peer capacity nonce url (run env cs (genesis bonds tokens pool))
        ≡ ok t
      → current_pow_difficulty env (run env cs (genesis bonds tokens pool))
        ≡ min env.base_pow_difficulty max_difficulty
  unfolding current_pow_difficulty calculate_difficulty
  run_base_difficulty bonds tokens pool cs operator peer capacity nonce url limit period h =
      let s = run env cs (genesis bonds tokens pool) in
      let e = recent_is_now s (run-IsFresh bonds tokens pool cs) (omega arith) period in
      rw e (omega (arith, registered_below_limit operator peer capacity nonce url s h))
