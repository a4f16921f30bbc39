-- ===== src/Storage/Frame.antt =====
-- The calls that leave the registers alone: the nodes, their operators, the registration counters
-- and the holdings. They are stated once for the invariants of these.
use anarchy.Base.{ℕ, ◌≡◌, ◌∙◌, List, [], ◌∷◌, arith, Option-cases, inl, inr}
use anarchy.Base.Dispatch.{commit}
use anarchy.Storage.Types.{Env, State, Challenge}
use anarchy.Storage.Nodes.{register_fragment_at}
use anarchy.Storage.Repair.{confirm_repair, evict_stale_holder, do_slash_node}
use anarchy.Storage.Challenges.{
  issue_challenge, prove_holding_kzg, claim_reward, expire_all, expire_one, expire_challenge,
}
use anarchy.Storage.Release.{do_register_kzg_fragment}

module _ {Bonds Tokens : Type 0} where
  -- The registers are the same in both states.
  pub record Quiet (s t : State Bonds Tokens) : Type 0 where
    pub counts : t.registration_count_per_block ≡ s.registration_count_per_block
    pub block : t.block_number ≡ s.block_number
    pub nodes : t.storage_nodes ≡ s.storage_nodes
    pub operators : t.operator_nodes ≡ s.operator_nodes
    pub holders : t.fragment_holders ≡ s.fragment_holders
    pub holdings : t.node_holdings ≡ s.node_holdings

  Quiet-refl : (s : State Bonds Tokens) → Quiet s s
  Quiet-refl s = ground arith

  Quiet-trans : (s t u : State Bonds Tokens) → Quiet s t → Quiet t u → Quiet s u
  Quiet-trans s t u a b = record {
    counts = b.counts ∙ a.counts;
    block = b.block ∙ a.block;
    nodes = b.nodes ∙ a.nodes;
    operators = b.operators ∙ a.operators;
    holders = b.holders ∙ a.holders;
    holdings = b.holdings ∙ a.holdings;
  }

module _ {Bonds Tokens : Type 0} (env : Env Bonds Tokens) where
  pub register_fragment-Quiet :
      (a b c d : ℕ) (s : State Bonds Tokens)
      → Quiet s (commit s (register_fragment_at env a b c d s))
  unfolding register_fragment_at
  register_fragment-Quiet a b c d s = ground arith

  pub issue_challenge-Quiet :
      (a b c d : ℕ) (s : State Bonds Tokens) → Quiet s (commit s (issue_challenge env a b c d s))
  unfolding issue_challenge
  issue_challenge-Quiet a b c d s = ground arith

  pub claim_reward-Quiet :
      (a : ℕ) (s : State Bonds Tokens) → Quiet s (commit s (claim_reward env a s))
  unfolding claim_reward
  claim_reward-Quiet a s = ground arith

  pub prove-Quiet :
      (a b c : ℕ) (u v : List ℕ) (s : State Bonds Tokens)
      → Quiet s (commit s (prove_holding_kzg env a b c u v s))
  unfolding prove_holding_kzg
  prove-Quiet a b c u v s = ground arith

  pub confirm_repair-Quiet :
      (a b c : ℕ) (u v : List ℕ) (s : State Bonds Tokens)
      → Quiet s (commit s (confirm_repair env a b c u v s))
  unfolding confirm_repair
  confirm_repair-Quiet a b c u v s = ground arith

  pub evict-Quiet : (a : ℕ) (s : State Bonds Tokens) → Quiet s (commit s (evict_stale_holder a s))
  unfolding evict_stale_holder
  evict-Quiet a s = ground arith

  pub register_kzg-Quiet :
      (a b : ℕ) (c : List ℕ) (d n k : ℕ) (s : State Bonds Tokens)
      → Quiet s (commit s (do_register_kzg_fragment a b c d n k s))
  unfolding do_register_kzg_fragment
  register_kzg-Quiet a b c d n k s = ground arith

  expire_challenge-Quiet :
      (h i : ℕ) (c : Challenge) (s : State Bonds Tokens) → Quiet s (expire_challenge env h i c s)
  unfolding expire_challenge do_slash_node
  expire_challenge-Quiet h i c s = ground arith

  expire_one-Quiet : (e : ℕ × ℕ) (s : State Bonds Tokens) → Quiet s (expire_one env e s)
  unfolding expire_one
  expire_one-Quiet (h, i) s = elim (Option-cases (s.pending_challenges h i)) [
    | inl e ↦ rw (e, expire_one) (Quiet-refl s)
    | inr (c, e) ↦ rw (e, expire_one) (expire_challenge-Quiet h i c s)
  ]

  pub expire_all-Quiet :
      (es : List (ℕ × ℕ)) (s : State Bonds Tokens) → Quiet s (expire_all env es s)
  unfolding expire_all
  expire_all-Quiet [] s = Quiet-refl s
  expire_all-Quiet (e ∷ es) s =
      Quiet-trans s (expire_one env e s) _ (expire_one-Quiet e s)
        (expire_all-Quiet es (expire_one env e s))
