-- ===== src/Storage/Stale.antt =====
-- The index of deadlines keeps the entry of a challenge that has been met, and the entry then ends
-- the next challenge of the same share.
use anarchy.Base.{
  ℕ, ◌+◌, ◌≤◌, ◌≡◌, refl, true, none, some, List, [], ◌∷◌, ◌++◌, arith, update, min, sat_add,
  u32_max, Option-cases, Bool-cases, inl, inr, ◌∙◌, ◌==◌, zero, suc,
}
use anarchy.Base.Dispatch.{ok, commit, Result-cases}
use anarchy.Storage.Types.{Env, State, Challenge}
use anarchy.Storage.Nodes.{
  register_fragment_at, register_fragment, register_node, update_node, unregister_node,
}
use anarchy.Storage.Holdings.{declare_holding, revoke_holding}
use anarchy.Storage.Repair.{confirm_repair, evict_stale_holder, do_slash_node}
use anarchy.Storage.Challenges.{
  issue_challenge, prove_holding_kzg, claim_reward, expire_all, expire_one, expire_challenge,
  on_finalize, clear_block, challenge_period,
}
use anarchy.Storage.Release.{
  do_register_kzg_fragment, do_deposit_to_reward_pool, do_release_fragment,
}
use anarchy.Storage.Run.{
  Call, dispatch, step, run, run_invariant, register_fragment_call, register_node_call,
  update_node_call, unregister_node_call, declare_holding_call, revoke_holding_call,
  prove_holding_kzg_call, issue_challenge_call, claim_reward_call, confirm_repair_call,
  evict_stale_holder_call, register_fragment_by_post, register_kzg_fragment_by_post,
  deposit_to_reward_pool, release_fragment, others_act, end_block,
}
use anarchy.Storage.Deadlines.{is_due, on_finalize-pending}

is_due-append : (h i : ℕ) (es : List (ℕ × ℕ)) → is_due h i (es ++ (h, i) ∷ []) ≡ true
is_due-append h i [] = ground arith
is_due-append h i (e ∷ es) = ground (arith, is_due-append h i es)

is_due_mono :
    (h i g j : ℕ) (es : List (ℕ × ℕ)) → is_due h i es ≡ true → is_due h i (es ++ (g, j) ∷ []) ≡ true
is_due_mono h i g j [] e = cc
is_due_mono h i g j (x ∷ es) e = ground (arith, is_due_mono h i g j es)

module _ {Bonds Tokens : Type 0} (env : Env Bonds Tokens) where
  -- What a challenge that is issued has written.
  issue_challenge-inverse :
      (a h n i : ℕ) (s : State Bonds Tokens) {t : State Bonds Tokens}
      → issue_challenge env a h n i s ≡ ok t
      → (c : Challenge) × (t.pending_challenges h i ≡ some c)
        × (c.deadline ≡ min (s.block_number + challenge_period) u32_max)
        × (t.block_number ≡ s.block_number)
        × (t.challenges_by_deadline
            ≡ update c.deadline
                (s.challenges_by_deadline c.deadline ++ (h, i) ∷ [])
                s.challenges_by_deadline)
  unfolding issue_challenge
  issue_challenge-inverse a h n i s e =
      let c : Challenge = record {
        content_hash = h;
        share_index = i;
        challenged_node = n;
        issued_at = s.block_number;
        deadline = sat_add u32_max s.block_number challenge_period;
      } in
      (c, ground arith, refl, ground arith, ground arith)

  -- The deadline `d` is past, or the index lists the share for it.
  IsListed : (d h i : ℕ) → State Bonds Tokens → Type 0
  IsListed d h i s = s.block_number ≤ d → is_due h i (s.challenges_by_deadline d) ≡ true

  -- The index of deadlines and the block are the same in both states.
  SameIndex : (s t : State Bonds Tokens) → Type 0
  SameIndex s t =
      (t.challenges_by_deadline ≡ s.challenges_by_deadline) × (t.block_number ≡ s.block_number)

  expire_challenge-SameIndex :
      (h i : ℕ) (c : Challenge) (s : State Bonds Tokens)
      → SameIndex s (expire_challenge env h i c s)
  unfolding expire_challenge do_slash_node SameIndex
  expire_challenge-SameIndex h i c s = (ground arith, ground arith)

  expire_one-SameIndex : (e : ℕ × ℕ) (s : State Bonds Tokens) → SameIndex s (expire_one env e s)
  unfolding expire_one SameIndex
  expire_one-SameIndex (h, i) s = elim (Option-cases (s.pending_challenges h i)) [
    | inl e ↦ rw (e, expire_one) (refl, refl)
    | inr (c, e) ↦ rw (e, expire_one) (expire_challenge-SameIndex h i c s)
  ]

  expire_all-SameIndex :
      (es : List (ℕ × ℕ)) (s : State Bonds Tokens) → SameIndex s (expire_all env es s)
  unfolding expire_all SameIndex
  expire_all-SameIndex [] s = (refl, refl)
  expire_all-SameIndex (e ∷ es) s =
      let one = expire_one-SameIndex e s in
      let rest = expire_all-SameIndex es (expire_one env e s) in (rest.0 ∙ one.0, rest.1 ∙ one.1)

  issue-IsListed :
      (d h i a g n j : ℕ) (s : State Bonds Tokens)
      → IsListed d h i s
      → IsListed d h i (commit s (issue_challenge env a g n j s))
  unfolding IsListed
  issue-IsListed d h i a g n j s r k = elim (Result-cases (issue_challenge env a g n j s)) [
    | inl (e, refused) ↦ rw refused (r (rw refused at k))
    | inr (t, accepted) ↦
        let (c, pending, deadline, block, index) = issue_challenge-inverse a g n j s accepted in
        let due : is_due h i (s.challenges_by_deadline d) ≡ true =
          r (omega (arith, block, rw accepted at k)) in
        let more = is_due_mono h i g j (s.challenges_by_deadline d) due in
        rw (accepted, index)
          (elim (Bool-cases (c.deadline == d)) [
            | inl e ↦ ground (arith, e, more)
            | inr e ↦ rw e due
          ])
  ]

  step-IsListed :
      (d h i : ℕ) (c : Call Bonds Tokens) (s : State Bonds Tokens)
      → IsListed d h i s
      → IsListed d h i (step env c s)
  unfolding dispatch register_fragment register_fragment_at do_deposit_to_reward_pool register_node
      update_node unregister_node declare_holding revoke_holding prove_holding_kzg claim_reward
      confirm_repair evict_stale_holder do_register_kzg_fragment do_release_fragment on_finalize
      IsListed SameIndex
  step-IsListed d h i (register_fragment_call a b c) s r k = ground arith
  step-IsListed d h i (register_node_call a p b c u) s r k = ground arith
  step-IsListed d h i (update_node_call a b) s r k = ground arith
  step-IsListed d h i (unregister_node_call a) s r k = ground arith
  step-IsListed d h i (declare_holding_call a b) s r k = ground arith
  step-IsListed d h i (revoke_holding_call a b) s r k = ground arith
  step-IsListed d h i (prove_holding_kzg_call a c j u v) s r k = ground arith
  step-IsListed d h i (issue_challenge_call a g n j) s r k = issue-IsListed d h i a g n j s r k
  step-IsListed d h i (claim_reward_call a) s r k = ground arith
  step-IsListed d h i (confirm_repair_call a c j u v) s r k = ground arith
  step-IsListed d h i (evict_stale_holder_call c) s r k = ground arith
  step-IsListed d h i (register_fragment_by_post a b c e) s r k = ground arith
  step-IsListed d h i (register_kzg_fragment_by_post o c u e m n) s r k = ground arith
  step-IsListed d h i (deposit_to_reward_pool a) s r k = r k
  step-IsListed d h i (release_fragment c) s r k = ground arith
  step-IsListed d h i (others_act x y) s r k = r k
  step-IsListed d h i end_block s r k =
      let same =
        expire_all-SameIndex (s.challenges_by_deadline s.block_number) (clear_block env s) in
      let due = r (omega (arith, k, same.1)) in rw (same.0) (ground (arith, due, k, same.1))

  -- A number of blocks in which nothing else happens.
  unfoldable pub blocks : ℕ → List (Call Bonds Tokens)
  blocks zero = []
  blocks (suc n) = end_block ∷ blocks n

  pub blocks-number :
      (n : ℕ) (s : State Bonds Tokens) → (run env (blocks n) s).block_number ≡ s.block_number + n
  unfolding blocks run dispatch on_finalize SameIndex
  blocks-number zero s = omega arith
  blocks-number (suc n) s =
      let same =
        expire_all-SameIndex (s.challenges_by_deadline s.block_number) (clear_block env s) in
      omega (arith, same.1, blocks-number n (step env end_block s))

  -- A challenge that is issued has a deadline, which must fit into u32. Whatever calls and blocks follow
  -- until that block, the end of the block leaves no challenge of the same share pending: also one
  -- that was issued after the first had been met by a proof, and whose own deadline is still to come.
  pub stale_deadline_expires :
      (a h n i : ℕ) (s t : State Bonds Tokens) (cs : List (Call Bonds Tokens))
      → issue_challenge env a h n i s ≡ ok t
      → s.block_number + challenge_period ≤ u32_max
      → (run env cs t).block_number ≡ s.block_number + challenge_period
      → (step env end_block (run env cs t)).pending_challenges h i ≡ none
  unfolding dispatch IsListed
  stale_deadline_expires a h n i s t cs issued fits reached =
      let (c, pending, deadline, block, index) = issue_challenge-inverse a h n i s issued in
      let d = s.block_number + challenge_period in
      let first : c.deadline ≡ d = omega (arith, deadline, fits) in
      let listed : IsListed d h i t =
        λ k. rw index (ground (arith, first, is_due-append h i (s.challenges_by_deadline d))) in
      let u = run env cs t in
      let due =
        run_invariant env (IsListed d h i) (step-IsListed d h i) cs t listed
          (omega (arith, reached)) in
      on_finalize-pending env h i u ∙ rw (reached, due) refl
