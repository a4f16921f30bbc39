-- ===== src/Storage/Registry.antt =====
-- The two registers of nodes, by peer and by operator, mirror one another.
use anarchy.Base.{
  ℕ, ◌<◌, ◌≤◌, ◌≡◌, refl, Option, none, some, List, [], arith, update, Option-cases, inl, inr,
}
use anarchy.Base.Dispatch.{ok, commit}
use anarchy.Storage.Types.{
  Env, State, PeerId, genesis, StorageNodeInfo, peer_eq_iff, emit, node_updated, update_peer,
  node_unregistered,
}
use anarchy.Storage.Nodes.{register_fragment, register_node, update_node, unregister_node, add_node}
use anarchy.Storage.Holdings.{declare_holding, revoke_holding}
use anarchy.Storage.Challenges.{on_finalize, clear_block}
use anarchy.Storage.Release.{do_deposit_to_reward_pool, do_release_fragment}
use anarchy.Storage.Run.{
  Call, dispatch, step, run, run_invariant, register_fragment_call, register_node_call,
  update_node_call, unregister_node_call, declare_holding_call, revoke_holding_call,
  prove_holding_kzg_call, issue_challenge_call, claim_reward_call, confirm_repair_call,
  evict_stale_holder_call, register_fragment_by_post, register_kzg_fragment_by_post,
  deposit_to_reward_pool, release_fragment, others_act, end_block,
}
use anarchy.Storage.Frame.{
  Quiet, register_fragment-Quiet, issue_challenge-Quiet, claim_reward-Quiet, prove-Quiet,
  confirm_repair-Quiet, evict-Quiet, register_kzg-Quiet, expire_all-Quiet,
}

abbrev pub operator_of : Option StorageNodeInfo → Option ℕ
operator_of none = none
operator_of (some info) = some info.operator

abbrev pub capacity_of : Option StorageNodeInfo → ℕ
capacity_of none = 0
capacity_of (some info) = info.capacity

-- The operator of a node is registered with that node, and the node of an operator is registered
-- with that operator.
pub record IsMirrored {Bonds Tokens : Type 0} (s : State Bonds Tokens) : Type 0 where
  pub node_of :
      (a : ℕ) (p : PeerId) → s.operator_nodes a ≡ some p → operator_of (s.storage_nodes p) ≡ some a
  pub operator_at :
      (a : ℕ) (p : PeerId) → operator_of (s.storage_nodes p) ≡ some a → s.operator_nodes a ≡ some p

module _ {Bonds Tokens : Type 0} (env : Env Bonds Tokens) where
  same_nodes :
      (s t : State Bonds Tokens)
      → t.storage_nodes ≡ s.storage_nodes
      → t.operator_nodes ≡ s.operator_nodes
      → IsMirrored s
      → IsMirrored t
  same_nodes s t nodes operators m = record {
    node_of = λ a p. rw (nodes, operators) (m.node_of a p);
    operator_at = λ a p. rw (nodes, operators) (m.operator_at a p);
  }

  keep : (s t : State Bonds Tokens) → Quiet s t → IsMirrored s → IsMirrored t
  keep s t k m = same_nodes s t k.nodes k.operators m

  register_node-IsMirrored :
      (a : ℕ) (p : PeerId) (b c : ℕ) (u : List ℕ) (s : State Bonds Tokens)
      → IsMirrored s
      → IsMirrored (commit s (register_node env a p b c u s))
  unfolding register_node
  register_node-IsMirrored a p b c u s m = record {
    node_of = λ x q. ground (arith, m.node_of x q, m.node_of x p, peer_eq_iff p q);
    operator_at = λ x q. ground (arith, m.operator_at x q, m.operator_at a q, peer_eq_iff p q);
  }

  update_unknown :
      (a b : ℕ) (s : State Bonds Tokens)
      → s.operator_nodes a ≡ none
      → commit s (update_node env a b s) ≡ s
  unfolding update_node
  update_unknown a b s e = ground arith

  update_node-IsMirrored :
      (a b : ℕ) (s : State Bonds Tokens)
      → IsMirrored s
      → IsMirrored (commit s (update_node env a b s))
  unfolding update_node
  update_node-IsMirrored a b s m = elim (Option-cases (s.operator_nodes a)) [
    | inl e ↦ rw (update_unknown a b s e) m
    | inr (p, e) ↦ record {
      node_of = λ x q. ground (arith, m.node_of x q, peer_eq_iff p q, e);
      operator_at = λ x q. ground (arith, m.operator_at x q, peer_eq_iff p q, e);
    }
  ]

  unregister_node-IsMirrored :
      (a : ℕ) (s : State Bonds Tokens)
      → IsMirrored s
      → IsMirrored (commit s (unregister_node env a s))
  unfolding unregister_node
  unregister_node-IsMirrored a s m = elim (Option-cases (s.operator_nodes a)) [
    | inl e ↦ rw e m
    | inr (p, e) ↦ record {
      node_of = λ x q. ground (arith, m.node_of x q, m.node_of a p, peer_eq_iff p q, e);
      operator_at = λ x q. ground (arith, m.operator_at x q, peer_eq_iff p q, e);
    }
  ]

  declare_holding-nodes :
      (a b : ℕ) (s : State Bonds Tokens)
      → let t = commit s (declare_holding env a b s) in
        (t.storage_nodes ≡ s.storage_nodes) × (t.operator_nodes ≡ s.operator_nodes)
  unfolding declare_holding
  declare_holding-nodes a b s = ground arith

  revoke_holding-nodes :
      (a b : ℕ) (s : State Bonds Tokens)
      → let t = commit s (revoke_holding a b s) in
        (t.storage_nodes ≡ s.storage_nodes) × (t.operator_nodes ≡ s.operator_nodes)
  unfolding revoke_holding
  revoke_holding-nodes a b s = ground arith

  release-nodes :
      (a : ℕ) (s : State Bonds Tokens)
      → let t = do_release_fragment a s in
        (t.storage_nodes ≡ s.storage_nodes) × (t.operator_nodes ≡ s.operator_nodes)
  unfolding do_release_fragment
  release-nodes a s = ground arith

  end_block-IsMirrored : (s : State Bonds Tokens) → IsMirrored s → IsMirrored (step env end_block s)
  unfolding dispatch on_finalize
  end_block-IsMirrored s m =
      let q = expire_all-Quiet env (s.challenges_by_deadline s.block_number) (clear_block env s) in
      same_nodes s _ q.nodes q.operators m

  step-IsMirrored :
      (c : Call Bonds Tokens) (s : State Bonds Tokens) → IsMirrored s → IsMirrored (step env c s)
  unfolding dispatch register_fragment do_deposit_to_reward_pool
  step-IsMirrored (register_fragment_call a b c) s m =
      keep s _ (register_fragment-Quiet env s.block_number b c a s) m
  step-IsMirrored (register_node_call a p b c u) s m = register_node-IsMirrored a p b c u s m
  step-IsMirrored (update_node_call a b) s m = update_node-IsMirrored a b s m
  step-IsMirrored (unregister_node_call a) s m = unregister_node-IsMirrored a s m
  step-IsMirrored (declare_holding_call a b) s m =
      let e = declare_holding-nodes a b s in same_nodes s _ e.0 e.1 m
  step-IsMirrored (revoke_holding_call a b) s m =
      let e = revoke_holding-nodes a b s in same_nodes s _ e.0 e.1 m
  step-IsMirrored (prove_holding_kzg_call a c i u v) s m = keep s _ (prove-Quiet env a c i u v s) m
  step-IsMirrored (issue_challenge_call a c n i) s m =
      keep s _ (issue_challenge-Quiet env a c n i s) m
  step-IsMirrored (claim_reward_call a) s m = keep s _ (claim_reward-Quiet env a s) m
  step-IsMirrored (confirm_repair_call a c i u v) s m =
      keep s _ (confirm_repair-Quiet env a c i u v s) m
  step-IsMirrored (evict_stale_holder_call c) s m = keep s _ (evict-Quiet env c s) m
  step-IsMirrored (register_fragment_by_post a b c d) s m =
      keep s _ (register_fragment-Quiet env a b c d s) m
  step-IsMirrored (register_kzg_fragment_by_post o c u d n k) s m =
      keep s _ (register_kzg-Quiet env o c u d n k s) m
  step-IsMirrored (deposit_to_reward_pool a) s m = same_nodes s _ refl refl m
  step-IsMirrored (release_fragment c) s m = let e = release-nodes c s in same_nodes s _ e.0 e.1 m
  step-IsMirrored (others_act x y) s m = same_nodes s _ refl refl m
  step-IsMirrored end_block s m = end_block-IsMirrored s m

  -- After any sequence of calls and blocks from genesis, an operator is registered with a node
  -- exactly when the node is registered with that operator.
  pub run-IsMirrored :
      (bonds : Bonds) (tokens : Tokens) (pool : ℕ) (cs : List (Call Bonds Tokens))
      → IsMirrored (run env cs (genesis bonds tokens pool))
  run-IsMirrored bonds tokens pool cs =
      run_invariant env IsMirrored step-IsMirrored cs (genesis bonds tokens pool)
        (record { node_of = λ a p e. cc; operator_at = λ a p e. cc })

  -- What a successful registration has checked and written.
  register_node-inverse :
      (a : ℕ) (p : PeerId) (b c : ℕ) (u : List ℕ) (s : State Bonds Tokens) {t : State Bonds Tokens}
      → register_node env a p b c u s ≡ ok t
      → (env.min_node_capacity ≤ b)
        × (s.storage_nodes p ≡ none)
        × (s.operator_nodes a ≡ none)
        × (t ≡ add_node env a p b c u s)
  unfolding register_node
  register_node-inverse a p b c u s h = ground arith

  -- A registration demands the minimal capacity; once registered, the operator can set any positive
  -- capacity, also one below the minimum.
  pub update_node_below_minimum :
      (a : ℕ) (p : PeerId) (b c : ℕ) (u : List ℕ) (s : State Bonds Tokens) {t : State Bonds Tokens}
      (less : ℕ)
      → register_node env a p b c u s ≡ ok t
      → 0 < less
      → (env.min_node_capacity ≤ b)
        × ((after : State Bonds Tokens) × (update_node env a less t ≡ ok after)
            × (capacity_of (after.storage_nodes p) ≡ less))
  unfolding update_node add_node
  update_node_below_minimum a p b c u s less h positive =
      let (enough, free, fresh, e) = register_node-inverse a p b c u s h in
      let r = add_node env a p b c u s in
      let info : StorageNodeInfo = record {
        operator = a;
        capacity = less;
        registered_at = s.block_number;
        pow_nonce = c;
        http_url = u;
      } in
      let after : State Bonds Tokens =
        emit (node_updated p less)
          (record r { storage_nodes = update_peer p (some info) r.storage_nodes }) in
      (enough, (after, rw e (ground (arith, peer_eq_iff p p)), ground (arith, peer_eq_iff p p)))

  -- A registration followed by an unregistration, with no holding in between, leaves both registers
  -- as they were at every key.
  pub register_node-unregister_node :
      (a : ℕ) (p : PeerId) (b c : ℕ) (u : List ℕ) (s : State Bonds Tokens) {t : State Bonds Tokens}
      → register_node env a p b c u s ≡ ok t
      → s.node_holdings p ≡ []
      → (after : State Bonds Tokens) × (unregister_node env a t ≡ ok after)
        × ((q : PeerId) → after.storage_nodes q ≡ s.storage_nodes q)
        × ((x : ℕ) → after.operator_nodes x ≡ s.operator_nodes x)
  unfolding unregister_node add_node
  register_node-unregister_node a p b c u s h idle =
      let (enough, free, fresh, e) = register_node-inverse a p b c u s h in
      let r = add_node env a p b c u s in
      let after : State Bonds Tokens = emit (node_unregistered p a) (record r {
        storage_nodes = update_peer p none r.storage_nodes;
        operator_nodes = update a none r.operator_nodes;
      }) in
      (after, rw e (ground arith), λ q. ground (arith, peer_eq_iff p q), λ x. ground arith)
