-- ===== src/Storage/Agreement.antt =====
-- The holders of a fragment and the holdings of a node agree: `FragmentHolders` and
-- `NodeHoldings` are two views of one relation.
use anarchy.Base.{
  ℕ, ◌≤◌, ◌≡◌, refl, Bool, true, some, List, arith, ◌==◌, if◌then◌else◌, update, Option-cases, inl,
  inr,
}
use anarchy.Base.Dispatch.{ok, commit, Result-cases}
use anarchy.Storage.Types.{
  Env, State, Error, too_many_holders, too_many_fragments, PeerId, genesis, peer_eq_iff, peer_eq,
  update_peer,
}
use anarchy.Storage.Nodes.{register_fragment, register_node, update_node, unregister_node}
use anarchy.Storage.Holdings.{declare_holding, revoke_holding}
use anarchy.Storage.Challenges.{on_finalize, clear_block}
use anarchy.Storage.Release.{do_deposit_to_reward_pool, do_release_fragment}
use anarchy.Storage.Run.{
  Call, dispatch, step, run, run_invariant, register_fragment_call, register_node_call,
  update_node_call, unregister_node_call, declare_holding_call, revoke_holding_call,
  prove_holding_kzg_call, issue_challenge_call, claim_reward_call, confirm_repair_call,
  evict_stale_holder_call, register_fragment_by_post, register_kzg_fragment_by_post,
  deposit_to_reward_pool, release_fragment, others_act, end_block,
}
use anarchy.Storage.Frame.{
  Quiet, register_fragment-Quiet, issue_challenge-Quiet, claim_reward-Quiet, prove-Quiet,
  confirm_repair-Quiet, evict-Quiet, register_kzg-Quiet, expire_all-Quiet,
}
use anarchy.Storage.Holdings.{push_unless, has_peer, position, swap_remove}
use anarchy.Storage.Occurrences.{
  count, is_peer, is_fragment, one_if, has_peer-count, contains-count, count-append,
  count-swap_remove, count-prune_holdings,
}
use anarchy.Base.{contains}

-- A peer stands among the holders of a fragment as often as the fragment among its holdings, and
-- at most once.
pub record IsAgreed {Bonds Tokens : Type 0} (s : State Bonds Tokens) : Type 0 where
  pub agree :
      (f : ℕ) (p : PeerId)
      → count (is_peer p) (s.fragment_holders f) ≡ count (is_fragment f) (s.node_holdings p)
  pub once : (f : ℕ) (p : PeerId) → count (is_peer p) (s.fragment_holders f) ≤ 1

-- An appended entry is counted at its own key, and the checks of a bound do not matter.
push_peer-count :
    (p q : PeerId) (bound : ℕ) (xs ys : List PeerId) (e : Error) {b : Bool}
    → push_unless (has_peer p xs) bound p xs e ≡ ok (ys, b)
    → count (is_peer q) xs ≤ 1
    → count (is_peer q) ys ≡ (if peer_eq p q then 1 else count (is_peer q) xs)
unfolding push_unless
push_peer-count p q bound xs ys e h once =
    ground (arith, has_peer-count p xs, count-append (is_peer q) xs p, peer_eq_iff p q)

push_fragment-count :
    (f g : ℕ) (bound : ℕ) (xs ys : List ℕ) (e : Error) {b : Bool}
    → push_unless (contains f xs) bound f xs e ≡ ok (ys, b)
    → count (is_fragment g) xs ≤ 1
    → count (is_fragment g) ys ≡ (if f == g then 1 else count (is_fragment g) xs)
unfolding push_unless
push_fragment-count f g bound xs ys e h once =
    ground (arith, contains-count f xs, count-append (is_fragment g) xs f)

module _ {Bonds Tokens : Type 0} (env : Env Bonds Tokens) where
  same_holdings :
      (s t : State Bonds Tokens)
      → t.fragment_holders ≡ s.fragment_holders
      → t.node_holdings ≡ s.node_holdings
      → IsAgreed s
      → IsAgreed t
  same_holdings s t holders holdings g = record {
    agree = λ f p. rw (holders, holdings) (g.agree f p);
    once = λ f p. rw holders (g.once f p);
  }

  keep : (s t : State Bonds Tokens) → Quiet s t → IsAgreed s → IsAgreed t
  keep s t k g = same_holdings s t k.holders k.holdings g

  -- What a successful declaration has pushed and written.
  declare_holding-inverse :
      (a f : ℕ) (s : State Bonds Tokens) {t : State Bonds Tokens}
      → declare_holding env a f s ≡ ok t
      → (p : PeerId) × (holders : List PeerId) × (first : Bool) × (held : List ℕ) × (second : Bool)
        × (push_unless
              (has_peer p (s.fragment_holders f))
              env.max_holders_per_fragment
              p
              (s.fragment_holders f)
              too_many_holders
            ≡ ok (holders, first))
        × (push_unless
              (contains f (s.node_holdings p))
              env.max_fragments_per_node
              f
              (s.node_holdings p)
              too_many_fragments
            ≡ ok (held, second))
        × (t.fragment_holders ≡ update f holders s.fragment_holders)
        × (t.node_holdings ≡ update_peer p held s.node_holdings)
  unfolding declare_holding
  declare_holding-inverse a f s h = elim (Option-cases (s.operator_nodes a)) [
    | inl e ↦ absurd (ground arith)
    | inr (p, e) ↦
        elim (Result-cases (
          push_unless (has_peer p (s.fragment_holders f)) env.max_holders_per_fragment p
            (s.fragment_holders f) too_many_holders)) [
              | inl (x, e1) ↦ absurd (ground arith)
              | inr ((holders, first), e1) ↦
                  elim (Result-cases (
                    push_unless (contains f (s.node_holdings p)) env.max_fragments_per_node f
                      (s.node_holdings p) too_many_fragments)) [
                        | inl (x, e2) ↦ absurd (ground arith)
                        | inr ((held, second), e2) ↦
                            (p, holders, first, held, second, e1, e2, ground arith, ground arith)
                      ]
            ]
  ]

  declare_holding-IsAgreed :
      (a f : ℕ) (s : State Bonds Tokens)
      → IsAgreed s
      → IsAgreed (commit s (declare_holding env a f s))
  declare_holding-IsAgreed a f s g = elim (Result-cases (declare_holding env a f s)) [
    | inl (x, e) ↦ rw e g
    | inr (t, e) ↦
        let (p, holders, first, held, second, e1, e2, e3, e4) = declare_holding-inverse a f s e in
        rw e (record {
          agree = λ h q.
              rw (e3, e4)
                (ground (
                  arith,
                  g.agree h q,
                  g.agree f q,
                  g.agree h p,
                  g.once f q,
                  g.once h p,
                  push_peer-count p q env.max_holders_per_fragment (s.fragment_holders f) holders
                      too_many_holders e1,
                  push_fragment-count f h env.max_fragments_per_node (s.node_holdings p) held
                      too_many_fragments e2,
                  peer_eq_iff p q,
                ));
          once = λ h q. rw e3 (
              ground (
                arith,
                g.once h q,
                g.once f q,
                push_peer-count p q env.max_holders_per_fragment (s.fragment_holders f) holders
                    too_many_holders e1,
              ));
        })
  ]

  revoke_holding-inverse :
      (a f : ℕ) (s : State Bonds Tokens) {t : State Bonds Tokens}
      → revoke_holding a f s ≡ ok t
      → (p : PeerId) × (i : ℕ) × (j : ℕ) × (position (is_peer p) (s.fragment_holders f) ≡ some i)
        × (position (is_fragment f) (s.node_holdings p) ≡ some j)
        × (t.fragment_holders ≡ update f (swap_remove i (s.fragment_holders f)) s.fragment_holders)
        × (t.node_holdings ≡ update_peer p (swap_remove j (s.node_holdings p)) s.node_holdings)
  unfolding revoke_holding
  revoke_holding-inverse a f s h = elim (Option-cases (s.operator_nodes a)) [
    | inl e ↦ absurd (ground arith)
    | inr (p, e) ↦ elim (Option-cases (position (is_peer p) (s.fragment_holders f))) [
      | inl e1 ↦ absurd (ground arith)
      | inr (i, e1) ↦ elim (Option-cases (position (is_fragment f) (s.node_holdings p))) [
        | inl e2 ↦ absurd (ground arith)
        | inr (j, e2) ↦ (p, i, j, e1, e2, ground arith, ground arith)
      ]
    ]
  ]

  found_peer : (p q x : PeerId) → is_peer p x ≡ true → one_if (is_peer q x) ≡ one_if (peer_eq p q)
  found_peer p q x e = ground (arith, peer_eq_iff x p)

  found_fragment : (f g x : ℕ) → is_fragment f x ≡ true → one_if (is_fragment g x) ≡ one_if (f == g)
  found_fragment f g x e = ground arith

  revoke_holding-IsAgreed :
      (a f : ℕ) (s : State Bonds Tokens) → IsAgreed s → IsAgreed (commit s (revoke_holding a f s))
  revoke_holding-IsAgreed a f s g = elim (Result-cases (revoke_holding a f s)) [
    | inl (x, e) ↦ rw e g
    | inr (t, e) ↦
        let (p, i, j, e1, e2, e3, e4) = revoke_holding-inverse a f s e in
        let peers = λ (q : PeerId).
          count-swap_remove (is_peer q) (is_peer p) (one_if (peer_eq p q)) (found_peer p q) i
            (s.fragment_holders f) e1 in
        let fragments = λ (h : ℕ).
          count-swap_remove (is_fragment h) (is_fragment f) (one_if (f == h)) (found_fragment f h) j
            (s.node_holdings p) e2 in
        rw e (record {
          agree = λ h q.
              rw (e3, e4)
                (ground (
                  arith,
                  g.agree h q,
                  g.agree f q,
                  g.agree h p,
                  peers q,
                  fragments h,
                  peer_eq_iff p q,
                ));
          once = λ h q. rw e3 (ground (arith, g.once h q, g.once f q, peers q));
        })
  ]

  release-IsAgreed :
      (f : ℕ) (s : State Bonds Tokens) → IsAgreed s → IsAgreed (do_release_fragment f s)
  unfolding do_release_fragment
  release-IsAgreed f s g = record {
    agree = λ h q.
        ground
          (arith, g.agree h q, count-prune_holdings f h (s.fragment_holders f) s.node_holdings q);
    once = λ h q. ground (arith, g.once h q);
  }

  register_node-holdings :
      (a : ℕ) (p : PeerId) (b c : ℕ) (u : List ℕ) (s : State Bonds Tokens)
      → let t = commit s (register_node env a p b c u s) in
        (t.fragment_holders ≡ s.fragment_holders) × (t.node_holdings ≡ s.node_holdings)
  unfolding register_node
  register_node-holdings a p b c u s = ground arith

  update_node-holdings :
      (a b : ℕ) (s : State Bonds Tokens)
      → let t = commit s (update_node env a b s) in
        (t.fragment_holders ≡ s.fragment_holders) × (t.node_holdings ≡ s.node_holdings)
  unfolding update_node
  update_node-holdings a b s = ground arith

  unregister_node-holdings :
      (a : ℕ) (s : State Bonds Tokens)
      → let t = commit s (unregister_node env a s) in
        (t.fragment_holders ≡ s.fragment_holders) × (t.node_holdings ≡ s.node_holdings)
  unfolding unregister_node
  unregister_node-holdings a s = ground arith

  end_block-IsAgreed : (s : State Bonds Tokens) → IsAgreed s → IsAgreed (step env end_block s)
  unfolding dispatch on_finalize
  end_block-IsAgreed s g =
      let q = expire_all-Quiet env (s.challenges_by_deadline s.block_number) (clear_block env s) in
      same_holdings s _ q.holders q.holdings g

  step-IsAgreed :
      (c : Call Bonds Tokens) (s : State Bonds Tokens) → IsAgreed s → IsAgreed (step env c s)
  unfolding dispatch register_fragment do_deposit_to_reward_pool
  step-IsAgreed (register_fragment_call a b c) s g =
      keep s _ (register_fragment-Quiet env s.block_number b c a s) g
  step-IsAgreed (register_node_call a p b c u) s g =
      let e = register_node-holdings a p b c u s in same_holdings s _ e.0 e.1 g
  step-IsAgreed (update_node_call a b) s g =
      let e = update_node-holdings a b s in same_holdings s _ e.0 e.1 g
  step-IsAgreed (unregister_node_call a) s g =
      let e = unregister_node-holdings a s in same_holdings s _ e.0 e.1 g
  step-IsAgreed (declare_holding_call a b) s g = declare_holding-IsAgreed a b s g
  step-IsAgreed (revoke_holding_call a b) s g = revoke_holding-IsAgreed a b s g
  step-IsAgreed (prove_holding_kzg_call a c i u v) s g = keep s _ (prove-Quiet env a c i u v s) g
  step-IsAgreed (issue_challenge_call a c n i) s g =
      keep s _ (issue_challenge-Quiet env a c n i s) g
  step-IsAgreed (claim_reward_call a) s g = keep s _ (claim_reward-Quiet env a s) g
  step-IsAgreed (confirm_repair_call a c i u v) s g =
      keep s _ (confirm_repair-Quiet env a c i u v s) g
  step-IsAgreed (evict_stale_holder_call c) s g = keep s _ (evict-Quiet env c s) g
  step-IsAgreed (register_fragment_by_post a b c d) s g =
      keep s _ (register_fragment-Quiet env a b c d s) g
  step-IsAgreed (register_kzg_fragment_by_post o c u d n k) s g =
      keep s _ (register_kzg-Quiet env o c u d n k s) g
  step-IsAgreed (deposit_to_reward_pool a) s g = same_holdings s _ refl refl g
  step-IsAgreed (release_fragment c) s g = release-IsAgreed c s g
  step-IsAgreed (others_act x y) s g = same_holdings s _ refl refl g
  step-IsAgreed end_block s g = end_block-IsAgreed s g

  -- After any sequence of calls and blocks from genesis, a fragment lists a node as its holder
  -- exactly as often as the node lists the fragment among its holdings, and at most once.
  pub run-IsAgreed :
      (bonds : Bonds) (tokens : Tokens) (pool : ℕ) (cs : List (Call Bonds Tokens))
      → IsAgreed (run env cs (genesis bonds tokens pool))
  run-IsAgreed bonds tokens pool cs =
      run_invariant env IsAgreed step-IsAgreed cs (genesis bonds tokens pool)
        (record { agree = λ f p. refl; once = λ f p. omega arith })
