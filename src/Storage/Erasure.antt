-- ===== src/Storage/Erasure.antt =====
-- What `do_release_fragment` removes, and what it leaves behind.
use anarchy.Base.{ℕ, ◌≡◌, ◌≢◌, false, some, List, arith, contains}
use anarchy.Base.Dispatch.{ok}
use anarchy.Storage.Types.{Env, State, Challenge, PeerId, no_record}
use anarchy.Storage.Challenges.{prove_holding_kzg, expire_one}
use anarchy.Storage.Release.{do_release_fragment, existed, prune_holdings}
use anarchy.Storage.Occurrences.{count-prune_holdings, contains-count}
use anarchy.Storage.Agreement.{IsAgreed}

module _ {Bonds Tokens : Type 0} where
  -- After a release no storage item that `existed` reads knows the content, so that another release
  -- announces nothing, and, in a state where holders and holdings agree, no node holds it.
  pub do_release_fragment_forgets :
      (h : ℕ) (s : State Bonds Tokens)
      → IsAgreed s
      → (existed h (do_release_fragment h s) ≡ false)
        × ((p : PeerId) → contains h ((do_release_fragment h s).node_holdings p) ≡ false)
        × ((p : PeerId) (g : ℕ)
            → g ≢ h
            → contains g ((do_release_fragment h s).node_holdings p)
              ≡ contains g (s.node_holdings p))
  unfolding existed do_release_fragment
  do_release_fragment_forgets h s g = (
    ground arith,
    λ p. ground (
      arith,
      contains-count h (prune_holdings h (s.fragment_holders h) s.node_holdings p),
      count-prune_holdings h h (s.fragment_holders h) s.node_holdings p,
      g.agree h p,
    ),
    λ p x ne. ground (
      arith,
      contains-count x (prune_holdings h (s.fragment_holders h) s.node_holdings p),
      contains-count x (s.node_holdings p),
      count-prune_holdings h x (s.fragment_holders h) s.node_holdings p,
    ),
  )

module _ {Bonds Tokens : Type 0} (env : Env Bonds Tokens) where
  -- A challenge that is pending when its content is released stays pending, no proof can meet it any
  -- more, and at its deadline the challenged node gets a failure on a record that starts afresh.
  pub do_release_fragment_strands :
      (h i : ℕ) (c : Challenge) (s : State Bonds Tokens)
      → s.pending_challenges h i ≡ some c
      → let t = do_release_fragment h s in
        (t.pending_challenges h i ≡ some c)
        × ((prover : ℕ) (value proof : List ℕ) (u : State Bonds Tokens)
            → prove_holding_kzg env prover h i value proof t ≢ ok u)
        × ((expire_one env (h, i) t).proof_records h c.challenged_node
            ≡ record no_record { failure_count = 1 })
  unfolding do_release_fragment prove_holding_kzg expire_one
  do_release_fragment_strands h i c s e =
      (ground arith, λ prover value proof u q. ground arith, ground arith)
