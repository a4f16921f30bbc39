-- ===== src/Storage/Holdings.antt =====
-- The calls `declare_holding` and `revoke_holding` of apps/blockchain/pallets/storage/src/lib.rs,
-- which keep the holders of a fragment and the holdings of a node.
use anarchy.Base.{
  ℕ, zero, suc, Bool, true, false, ◌||◌, Option, none, some, List, [], ◌∷◌, ◌==◌, if◌then◌else◌,
  update, is_some, try_push, contains,
}
use mathlib.Core.Option
use anarchy.Base.Dispatch.{Result, ok, ◌>>=◌, ◌>>◌, ensure, ok_or}
use anarchy.Storage.Types.{
  PeerId, peer_eq, update_peer, Error, Env, State, emit, holding_declared, holding_revoked,
  fragment_not_found, node_not_registered, not_holding, too_many_holders, too_many_fragments,
  too_many_declarations_this_block,
}
use anarchy.Storage.Pow.{can_declare_holding, increment_declaration_count}

-- `iter().any(|h| h == &peer_id)`
unfoldable pub has_peer : PeerId → List PeerId → Bool
has_peer p [] = false
has_peer p (q ∷ qs) = peer_eq q p || has_peer p qs

-- `iter().position(…)`
unfoldable pub position {ℓ} : {A : Type ℓ} → (A → Bool) → List A → Option ℕ
position test [] = none
position test (x ∷ xs) =
    let rest = Option.map suc (position test xs) in if test x then some 0 else rest

unfoldable pub last_of {ℓ} : {A : Type ℓ} → A → List A → A
last_of x [] = x
last_of x (y ∷ ys) = last_of y ys

unfoldable pub all_but_last {ℓ} : {A : Type ℓ} → A → List A → List A
all_but_last x [] = []
all_but_last x (y ∷ ys) = x ∷ all_but_last y ys

-- `swap_remove(pos)`: the last entry takes the place of the removed one.
unfoldable pub swap_remove {ℓ} : {A : Type ℓ} → ℕ → List A → List A
unfolding last_of all_but_last
swap_remove i [] = []
swap_remove zero (x ∷ []) = []
swap_remove zero (x ∷ y ∷ ys) = last_of y ys ∷ all_but_last y ys
swap_remove (suc i) (x ∷ xs) = x ∷ swap_remove i xs

-- The closure of a `try_mutate` that appends unless the entry is there; the flag is `modified`.
unfoldable pub push_unless :
    {A : Type 0} → Bool → ℕ → A → List A → Error → Result Error (List A × Bool)
push_unless there bound x xs e =
    if there then ok (xs, false) else (do ys ← ok_or (try_push bound x xs) e; ok (ys, true))

module _ {Bonds Tokens : Type 0} (env : Env Bonds Tokens) where
  -- The writes of `declare_holding` after the two lists are known.
  unfoldable pub write_holding :
      PeerId → ℕ → List PeerId → List ℕ → Bool → State Bonds Tokens → State Bonds Tokens
  write_holding peer_id fragment_id holders held modified s =
      let s' : State Bonds Tokens = record s {
        fragment_holders = update fragment_id holders s.fragment_holders;
        node_holdings = update_peer peer_id held s.node_holdings;
      } in
      let current_count = s.declare_holding_count_per_block s.block_number peer_id in
      if modified
      then emit (holding_declared peer_id fragment_id) (record s' {
        declare_holding_count_per_block =
            update s.block_number
              (update_peer peer_id (increment_declaration_count current_count)
                (s.declare_holding_count_per_block s.block_number))
              s.declare_holding_count_per_block;
      })
      else s'

  unfoldable pub declare_holding :
      (operator fragment_id : ℕ) → State Bonds Tokens → Result Error (State Bonds Tokens)
  unfolding push_unless write_holding
  declare_holding operator fragment_id s = do
    peer_id ← ok_or (s.operator_nodes operator) node_not_registered
    let current_count = s.declare_holding_count_per_block s.block_number peer_id
    ensure (can_declare_holding current_count env.max_declarations_per_block_per_node)
        too_many_declarations_this_block
    ensure (is_some (s.fragments fragment_id)) fragment_not_found
    let holders = s.fragment_holders fragment_id
    let held = s.node_holdings peer_id
    (holders', first) ←
        push_unless (has_peer peer_id holders) env.max_holders_per_fragment peer_id holders
          too_many_holders
    (held', second) ←
        push_unless (contains fragment_id held) env.max_fragments_per_node fragment_id held
          too_many_fragments
    ok (write_holding peer_id fragment_id holders' held' (first || second) s)

unfoldable pub revoke_holding :
    {Bonds Tokens : Type 0}
    → (operator fragment_id : ℕ) → State Bonds Tokens
    → Result Error (State Bonds Tokens)
unfolding swap_remove
revoke_holding operator fragment_id s = do
  peer_id ← ok_or (s.operator_nodes operator) node_not_registered
  let holders = s.fragment_holders fragment_id
  i ← ok_or (position (λ h. peer_eq h peer_id) holders) not_holding
  let held = s.node_holdings peer_id
  j ← ok_or (position (λ f. f == fragment_id) held) not_holding
  ok (
      emit (holding_revoked peer_id fragment_id) (record s {
        fragment_holders = update fragment_id (swap_remove i holders) s.fragment_holders;
        node_holdings = update_peer peer_id (swap_remove j held) s.node_holdings;
      }))
