-- ===== src/Storage/Holders.antt =====
-- No call of the storage pallet ever gives a KZG fragment its first holder, and what follows from
-- it for challenges, proofs, repair and rewards.
use anarchy.Base.{ℕ, ◌≡◌, refl, Option, none, some, List, [], ◌∷◌, arith, contains}
use anarchy.Base.Dispatch.{commit}
use anarchy.Storage.Types.{Env, State, KzgFragment, PeerId, genesis}
use anarchy.Storage.Nodes.{
  register_fragment, register_fragment_at, register_node, update_node, unregister_node,
}
use anarchy.Storage.Holdings.{declare_holding, revoke_holding}
use anarchy.Storage.Repair.{confirm_repair, evict_stale_holder}
use anarchy.Storage.Challenges.{
  issue_challenge, prove_holding_kzg, claim_reward, on_finalize, expire_all, expire_one,
  clear_block,
}
use anarchy.Storage.Release.{
  do_register_kzg_fragment, do_deposit_to_reward_pool, do_release_fragment,
}
use anarchy.Storage.Run.{
  Call, dispatch, step, run, run_invariant, register_fragment_call, register_node_call,
  update_node_call, unregister_node_call, declare_holding_call, revoke_holding_call,
  prove_holding_kzg_call, issue_challenge_call, claim_reward_call, confirm_repair_call,
  evict_stale_holder_call, register_fragment_by_post, register_kzg_fragment_by_post,
  deposit_to_reward_pool, release_fragment, others_act, end_block,
}

abbrev pub holders_of : Option KzgFragment → List ℕ
holders_of none = []
holders_of (some f) = f.holders

-- No fragment has a holder or has left the default state, no challenge is pending, and no account
-- has a reward to claim.
pub record IsBare {Bonds Tokens : Type 0} (s : State Bonds Tokens) : Type 0 where
  pub no_holders : (h : ℕ) → holders_of (s.kzg_fragments h) ≡ []
  pub no_states : (h : ℕ) → s.fragment_states h ≡ none
  pub no_challenges : (h i : ℕ) → s.pending_challenges h i ≡ none
  pub no_rewards : (a : ℕ) → s.pending_rewards a ≡ 0

module _ {Bonds Tokens : Type 0} where
  -- The four maps of `IsBare` are the same in both states.
  record Keeps (s t : State Bonds Tokens) : Type 0 where
    fragments : t.kzg_fragments ≡ s.kzg_fragments
    states : t.fragment_states ≡ s.fragment_states
    challenges : t.pending_challenges ≡ s.pending_challenges
    rewards : t.pending_rewards ≡ s.pending_rewards

  keep : (s t : State Bonds Tokens) → Keeps s t → IsBare s → IsBare t
  keep s t k b = record {
    no_holders = λ h. rw (k.fragments) (b.no_holders h);
    no_states = λ h. rw (k.states) (b.no_states h);
    no_challenges = λ h i. rw (k.challenges) (b.no_challenges h i);
    no_rewards = λ a. rw (k.rewards) (b.no_rewards a);
  }

  -- With no pending challenge the loop of `on_finalize` has nothing to do.
  expire_all_idle :
      (env : Env Bonds Tokens) (es : List (ℕ × ℕ)) (s : State Bonds Tokens)
      → ((h i : ℕ) → s.pending_challenges h i ≡ none)
      → expire_all env es s ≡ s
  unfolding expire_all
  expire_all_idle env [] s none_pending = refl
  expire_all_idle env ((h, i) ∷ es) s none_pending =
      rw (none_pending h i, expire_one) (expire_all_idle env es s none_pending)

  register_kzg-IsBare :
      (o h : ℕ) (c : List ℕ) (d n k : ℕ) (s : State Bonds Tokens)
      → IsBare s
      → IsBare (commit s (do_register_kzg_fragment o h c d n k s))
  unfolding do_register_kzg_fragment
  register_kzg-IsBare o h c d n k s b = record {
    no_holders = λ x. ground (arith, b.no_holders x);
    no_states = λ x. ground (arith, b.no_states x);
    no_challenges = λ x i. ground (arith, b.no_challenges x i);
    no_rewards = λ a. ground (arith, b.no_rewards a);
  }

  release-IsBare : (h : ℕ) (s : State Bonds Tokens) → IsBare s → IsBare (do_release_fragment h s)
  unfolding do_release_fragment
  release-IsBare h s b = record {
    no_holders = λ x. ground (arith, b.no_holders x);
    no_states = λ x. ground (arith, b.no_states x);
    no_challenges = λ x i. ground (arith, b.no_challenges x i);
    no_rewards = λ a. ground (arith, b.no_rewards a);
  }

module _ {Bonds Tokens : Type 0} (env : Env Bonds Tokens) where
  on_finalize-IsBare : (s : State Bonds Tokens) → IsBare s → IsBare (on_finalize env s)
  unfolding on_finalize
  on_finalize-IsBare s b =
      rw
        (expire_all_idle env (s.challenges_by_deadline s.block_number) (clear_block env s)
          b.no_challenges)
        (record {
          no_holders = b.no_holders;
          no_states = b.no_states;
          no_challenges = b.no_challenges;
          no_rewards = b.no_rewards;
        })

  -- The five calls that need a holder or a reward are refused.
  challenge_refused :
      (a h n i : ℕ) (s : State Bonds Tokens)
      → IsBare s
      → commit s (issue_challenge env a h n i s) ≡ s
  unfolding issue_challenge contains
  challenge_refused a h n i s b = ground (arith, b.no_holders h)

  proof_refused :
      (a h i : ℕ) (u v : List ℕ) (s : State Bonds Tokens)
      → IsBare s
      → commit s (prove_holding_kzg env a h i u v s) ≡ s
  unfolding prove_holding_kzg
  proof_refused a h i u v s b = ground (arith, b.no_challenges h i)

  claim_refused : (a : ℕ) (s : State Bonds Tokens) → IsBare s → commit s (claim_reward env a s) ≡ s
  unfolding claim_reward
  claim_refused a s b = ground (arith, b.no_rewards a)

  repair_refused :
      (a h i : ℕ) (u v : List ℕ) (s : State Bonds Tokens)
      → IsBare s
      → commit s (confirm_repair env a h i u v s) ≡ s
  unfolding confirm_repair
  repair_refused a h i u v s b = ground (arith, b.no_states h)

  eviction_refused :
      (h : ℕ) (s : State Bonds Tokens) → IsBare s → commit s (evict_stale_holder h s) ≡ s
  unfolding evict_stale_holder
  eviction_refused h s b = ground (arith, b.no_holders h)

  -- The other calls touch none of the four maps.
  register_fragment-Keeps :
      (a b c d : ℕ) (s : State Bonds Tokens)
      → Keeps s (commit s (register_fragment_at env a b c d s))
  unfolding register_fragment_at
  register_fragment-Keeps a b c d s = ground arith

  register_node-Keeps :
      (a : ℕ) (p : PeerId) (b c : ℕ) (u : List ℕ) (s : State Bonds Tokens)
      → Keeps s (commit s (register_node env a p b c u s))
  unfolding register_node
  register_node-Keeps a p b c u s = ground arith

  update_node-Keeps :
      (a b : ℕ) (s : State Bonds Tokens) → Keeps s (commit s (update_node env a b s))
  unfolding update_node
  update_node-Keeps a b s = ground arith

  unregister_node-Keeps :
      (a : ℕ) (s : State Bonds Tokens) → Keeps s (commit s (unregister_node env a s))
  unfolding unregister_node
  unregister_node-Keeps a s = ground arith

  declare_holding-Keeps :
      (a b : ℕ) (s : State Bonds Tokens) → Keeps s (commit s (declare_holding env a b s))
  unfolding declare_holding
  declare_holding-Keeps a b s = ground arith

  revoke_holding-Keeps :
      (a b : ℕ) (s : State Bonds Tokens) → Keeps s (commit s (revoke_holding a b s))
  unfolding revoke_holding
  revoke_holding-Keeps a b s = ground arith

  step-IsBare : (c : Call Bonds Tokens) (s : State Bonds Tokens) → IsBare s → IsBare (step env c s)
  unfolding dispatch register_fragment do_deposit_to_reward_pool
  step-IsBare (register_fragment_call a b c) s h =
      keep s _ (register_fragment-Keeps s.block_number b c a s) h
  step-IsBare (register_node_call a p b c u) s h = keep s _ (register_node-Keeps a p b c u s) h
  step-IsBare (update_node_call a b) s h = keep s _ (update_node-Keeps a b s) h
  step-IsBare (unregister_node_call a) s h = keep s _ (unregister_node-Keeps a s) h
  step-IsBare (declare_holding_call a b) s h = keep s _ (declare_holding-Keeps a b s) h
  step-IsBare (revoke_holding_call a b) s h = keep s _ (revoke_holding-Keeps a b s) h
  step-IsBare (prove_holding_kzg_call a c i u v) s h = rw (proof_refused a c i u v s h) h
  step-IsBare (issue_challenge_call a c n i) s h = rw (challenge_refused a c n i s h) h
  step-IsBare (claim_reward_call a) s h = rw (claim_refused a s h) h
  step-IsBare (confirm_repair_call a c i u v) s h = rw (repair_refused a c i u v s h) h
  step-IsBare (evict_stale_holder_call c) s h = rw (eviction_refused c s h) h
  step-IsBare (register_fragment_by_post a b c d) s h =
      keep s _ (register_fragment-Keeps a b c d s) h
  step-IsBare (register_kzg_fragment_by_post o c u d n k) s h = register_kzg-IsBare o c u d n k s h
  step-IsBare (deposit_to_reward_pool a) s h = record {
    no_holders = h.no_holders;
    no_states = h.no_states;
    no_challenges = h.no_challenges;
    no_rewards = h.no_rewards;
  }
  step-IsBare (release_fragment c) s h = release-IsBare c s h
  step-IsBare (others_act x y) s h = record {
    no_holders = h.no_holders;
    no_states = h.no_states;
    no_challenges = h.no_challenges;
    no_rewards = h.no_rewards;
  }
  step-IsBare end_block s h =
      let f = on_finalize-IsBare s h in
      record {
        no_holders = f.no_holders;
        no_states = f.no_states;
        no_challenges = f.no_challenges;
        no_rewards = f.no_rewards;
      }

  -- After any sequence of calls and blocks from genesis: no KZG fragment has a holder, no challenge
  -- is pending and no reward can be claimed, since no call records the first holder of a fragment.
  pub run-IsBare :
      (bonds : Bonds) (tokens : Tokens) (pool : ℕ) (cs : List (Call Bonds Tokens))
      → IsBare (run env cs (genesis bonds tokens pool))
  run-IsBare bonds tokens pool cs =
      run_invariant env IsBare step-IsBare cs (genesis bonds tokens pool) (record {
        no_holders = λ h. refl;
        no_states = λ h. refl;
        no_challenges = λ h i. refl;
        no_rewards = λ a. refl;
      })

  -- After any sequence of calls and blocks from genesis a call to challenge, to prove, to claim,
  -- to repair or to evict changes nothing.
  pub run_refuses :
      (bonds : Bonds) (tokens : Tokens) (pool : ℕ) (cs : List (Call Bonds Tokens)) (a h n i : ℕ)
      (u v : List ℕ)
      → let s = run env cs (genesis bonds tokens pool) in
        (step env (issue_challenge_call a h n i) s ≡ s)
        × (step env (prove_holding_kzg_call a h i u v) s ≡ s)
        × (step env (claim_reward_call a) s ≡ s)
        × (step env (confirm_repair_call a h i u v) s ≡ s)
        × (step env (evict_stale_holder_call h) s ≡ s)
  unfolding dispatch
  run_refuses bonds tokens pool cs a h n i u v =
      let s = run env cs (genesis bonds tokens pool) in
      let b = run-IsBare bonds tokens pool cs in
      (
        challenge_refused a h n i s b,
        proof_refused a h i u v s b,
        claim_refused a s b,
        repair_refused a h i u v s b,
        eviction_refused h s b,
      )
