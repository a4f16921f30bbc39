-- ===== src/Storage/Lasting.antt =====
-- Fragments stay registered: only `do_register_fragment_internal` and `do_release_fragment` of
-- apps/blockchain/pallets/storage/src/lib.rs write them.
use anarchy.Base.{
  ℕ, ◌≡◌, ◌∙◌, refl, Bool, true, false, List, [], ◌∷◌, arith, Option-cases, inl, inr, is_some,
}
use anarchy.Base.Dispatch.{commit}
use anarchy.Storage.Types.{Env, State, Challenge}
use anarchy.Storage.Nodes.{
  register_fragment_at, register_fragment, register_node, update_node, unregister_node,
}
use anarchy.Storage.Holdings.{declare_holding, revoke_holding}
use anarchy.Storage.Repair.{confirm_repair, evict_stale_holder, do_slash_node}
use anarchy.Storage.Challenges.{
  issue_challenge, prove_holding_kzg, claim_reward, expire_all, expire_one, expire_challenge,
  on_finalize, clear_block,
}
use anarchy.Storage.Release.{do_register_kzg_fragment, do_deposit_to_reward_pool}
use anarchy.Storage.Run.{
  Call, dispatch, step, register_fragment_call, register_node_call, update_node_call,
  unregister_node_call, declare_holding_call, revoke_holding_call, prove_holding_kzg_call,
  issue_challenge_call, claim_reward_call, confirm_repair_call, evict_stale_holder_call,
  register_fragment_by_post, register_kzg_fragment_by_post, deposit_to_reward_pool,
  release_fragment, others_act, end_block,
}

-- Every call but the release of a content.
abbrev pub is_release : {Bonds Tokens : Type 0} → Call Bonds Tokens → Bool
is_release (release_fragment c) = true
is_release c = false

module _ {Bonds Tokens : Type 0} (env : Env Bonds Tokens) where
  register_fragment-kept :
      (a b c d h : ℕ) (s : State Bonds Tokens)
      → is_some (s.fragments h) ≡ true
      → is_some ((commit s (register_fragment_at env a b c d s)).fragments h) ≡ true
  unfolding register_fragment_at
  register_fragment-kept a b c d h s r = ground arith

  -- The fragments are the same in both states.
  Same : (s t : State Bonds Tokens) → Type 0
  Same s t = t.fragments ≡ s.fragments

  expire_challenge-Same :
      (h i : ℕ) (c : Challenge) (s : State Bonds Tokens) → Same s (expire_challenge env h i c s)
  unfolding expire_challenge do_slash_node Same
  expire_challenge-Same h i c s = ground arith

  expire_one-Same : (e : ℕ × ℕ) (s : State Bonds Tokens) → Same s (expire_one env e s)
  unfolding expire_one Same
  expire_one-Same (h, i) s = elim (Option-cases (s.pending_challenges h i)) [
    | inl e ↦ rw (e, expire_one) refl
    | inr (c, e) ↦ rw (e, expire_one) (expire_challenge-Same h i c s)
  ]

  expire_all-Same : (es : List (ℕ × ℕ)) (s : State Bonds Tokens) → Same s (expire_all env es s)
  unfolding expire_all Same
  expire_all-Same [] s = refl
  expire_all-Same (e ∷ es) s = expire_all-Same es (expire_one env e s) ∙ expire_one-Same e s

  -- A fragment that is registered stays so in every call but its release.
  pub step_keeps_fragment :
      (c : Call Bonds Tokens) (h : ℕ) (s : State Bonds Tokens)
      → is_release c ≡ false
      → is_some (s.fragments h) ≡ true
      → is_some ((step env c s).fragments h) ≡ true
  unfolding dispatch register_fragment do_deposit_to_reward_pool register_node update_node
      unregister_node declare_holding revoke_holding prove_holding_kzg issue_challenge claim_reward
      confirm_repair evict_stale_holder do_register_kzg_fragment on_finalize Same
  step_keeps_fragment (register_fragment_call a b c) h s n r =
      register_fragment-kept s.block_number b c a h s r
  step_keeps_fragment (register_node_call a p b c u) h s n r = ground arith
  step_keeps_fragment (update_node_call a b) h s n r = ground arith
  step_keeps_fragment (unregister_node_call a) h s n r = ground arith
  step_keeps_fragment (declare_holding_call a b) h s n r = ground arith
  step_keeps_fragment (revoke_holding_call a b) h s n r = ground arith
  step_keeps_fragment (prove_holding_kzg_call a c i u v) h s n r = ground arith
  step_keeps_fragment (issue_challenge_call a c m i) h s n r = ground arith
  step_keeps_fragment (claim_reward_call a) h s n r = ground arith
  step_keeps_fragment (confirm_repair_call a c i u v) h s n r = ground arith
  step_keeps_fragment (evict_stale_holder_call c) h s n r = ground arith
  step_keeps_fragment (register_fragment_by_post a b c d) h s n r =
      register_fragment-kept a b c d h s r
  step_keeps_fragment (register_kzg_fragment_by_post o c u d m k) h s n r = ground arith
  step_keeps_fragment (deposit_to_reward_pool a) h s n r = r
  step_keeps_fragment (release_fragment c) h s n r = absurd (ground arith)
  step_keeps_fragment (others_act x y) h s n r = r
  step_keeps_fragment end_block h s n r =
      rw (expire_all-Same (s.challenges_by_deadline s.block_number) (clear_block env s)) r
