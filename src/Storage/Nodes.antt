-- ===== src/Storage/Nodes.antt =====
-- Fragments and nodes: the calls `register_fragment`, `register_node`, `update_node` and
-- `unregister_node` of apps/blockchain/pallets/storage/src/lib.rs, and what they check.
use anarchy.Base.{
  ℕ, zero, suc, ◌+◌, ◌-◌, Bool, not, none, some, List, length, ltb, leb, ◌==◌, if◌then◌else◌,
  sat_add, u32_max, update, is_some,
}
use anarchy.Base.Dispatch.{Result, ok, ◌>>=◌, ◌>>◌, ensure, ok_or}
use anarchy.Storage.Types.{
  PeerId, update_peer, FragmentMetadata, StorageNodeInfo, Error, Env, State, emit,
  fragment_registered, node_registered, node_updated, node_unregistered, fragment_already_exists,
  fragment_too_large, fragment_too_small, node_already_registered, operator_already_has_node,
  node_not_registered, invalid_capacity, node_has_holdings, invalid_pow,
  too_many_registrations_this_block, capacity_too_small, peer_id_too_short, peer_id_too_long,
  invalid_http_url, not_bonded,
}
use anarchy.Storage.Pow.{
  calculate_difficulty, verify_pow, is_valid, can_register_node, increment_registration_count,
}

-- `is_empty`
abbrev pub is_empty {ℓ} : {A : Type ℓ} → List A → Bool
is_empty xs = length xs == 0

-- The loop of `get_recent_registrations`: `left` rounds are left, and `i` is the round.
unfoldable pub recent_from : (ℕ → ℕ) → ℕ → ℕ → ℕ → ℕ → ℕ
recent_from counts now zero i count = count
recent_from counts now (suc left) i count =
    recent_from counts now left (i + 1)
      (if leb i now then sat_add u32_max count (counts (now - i)) else count)

module _ {Bonds Tokens : Type 0} (env : Env Bonds Tokens) where
  unfoldable pub register_fragment_at :
      (created_at fragment_id size creator : ℕ)
      → State Bonds Tokens
      → Result Error (State Bonds Tokens)
  register_fragment_at created_at fragment_id size creator s = do
    ensure (ltb 0 size) fragment_too_small
    ensure (leb size env.max_fragment_size) fragment_too_large
    ensure (not (is_some (s.fragments fragment_id))) fragment_already_exists
    let metadata : FragmentMetadata = record {
      size = size;
      creator = creator;
      created_at = created_at;
    }
    ok (
        emit (fragment_registered fragment_id creator size)
          (record s { fragments = update fragment_id (some metadata) s.fragments }))

  -- The call; the internal `do_register_fragment_internal` is the same with `created_at` given.
  unfoldable pub register_fragment :
      (creator fragment_id size : ℕ) → State Bonds Tokens → Result Error (State Bonds Tokens)
  unfolding register_fragment_at
  register_fragment creator fragment_id size s =
      register_fragment_at s.block_number fragment_id size creator s

  unfoldable pub validate_peer_id : PeerId → Result Error (Unit {0})
  validate_peer_id peer_id = do
    ensure (leb env.min_peer_id_len (length peer_id)) peer_id_too_short
    ensure (leb (length peer_id) env.max_peer_id_len) peer_id_too_long

  unfoldable pub validate_capacity : ℕ → Result Error (Unit {0})
  validate_capacity capacity = ensure (leb env.min_node_capacity capacity) capacity_too_small

  unfoldable pub get_recent_registrations : State Bonds Tokens → ℕ
  unfolding recent_from
  get_recent_registrations s =
      recent_from s.registration_count_per_block s.block_number env.pow_observation_period 0 0

  unfoldable pub current_pow_difficulty : State Bonds Tokens → ℕ
  unfolding get_recent_registrations
  current_pow_difficulty s =
      calculate_difficulty (get_recent_registrations s) env.base_pow_difficulty

  -- The writes of `register_node`.
  unfoldable pub add_node :
      (operator : ℕ)
      → PeerId
      → (capacity pow_nonce : ℕ) → List ℕ
      → State Bonds Tokens
      → State Bonds Tokens
  add_node operator peer_id capacity pow_nonce http_url s =
      let node_info : StorageNodeInfo = record {
        operator = operator;
        capacity = capacity;
        registered_at = s.block_number;
        pow_nonce = pow_nonce;
        http_url = http_url;
      } in
      let current_count = s.registration_count_per_block s.block_number in
      emit (node_registered peer_id operator capacity) (record s {
        storage_nodes = update_peer peer_id (some node_info) s.storage_nodes;
        operator_nodes = update operator (some peer_id) s.operator_nodes;
        registration_count_per_block =
            update s.block_number (increment_registration_count current_count)
              s.registration_count_per_block;
      })

  unfoldable pub register_node :
      (operator : ℕ)
      → PeerId
      → (capacity pow_nonce : ℕ) → List ℕ
      → State Bonds Tokens
      → Result Error (State Bonds Tokens)
  unfolding validate_peer_id validate_capacity add_node
  register_node operator peer_id capacity pow_nonce http_url s = do
    ensure (env.stake_provider.has_bond operator s.bonds) not_bonded
    let current_count = s.registration_count_per_block s.block_number
    ensure (can_register_node current_count env.max_registrations_per_block)
        too_many_registrations_this_block
    validate_peer_id peer_id
    validate_capacity capacity
    ensure (is_valid (verify_pow env.blake2_256 peer_id pow_nonce (current_pow_difficulty s)))
        invalid_pow
    ensure (not (is_some (s.storage_nodes peer_id))) node_already_registered
    ensure (not (is_some (s.operator_nodes operator))) operator_already_has_node
    ensure (not (is_empty http_url)) invalid_http_url
    ok (add_node operator peer_id capacity pow_nonce http_url s)

  unfoldable pub update_node :
      (operator new_capacity : ℕ) → State Bonds Tokens → Result Error (State Bonds Tokens)
  update_node operator new_capacity s = do
    ensure (ltb 0 new_capacity) invalid_capacity
    peer_id ← ok_or (s.operator_nodes operator) node_not_registered
    info ← ok_or (s.storage_nodes peer_id) node_not_registered
    let info' : StorageNodeInfo = record info { capacity = new_capacity }
    ok (
        emit (node_updated peer_id new_capacity)
          (record s { storage_nodes = update_peer peer_id (some info') s.storage_nodes }))

  unfoldable pub unregister_node : ℕ → State Bonds Tokens → Result Error (State Bonds Tokens)
  unregister_node operator s = do
    peer_id ← ok_or (s.operator_nodes operator) node_not_registered
    ensure (is_empty (s.node_holdings peer_id)) node_has_holdings
    ok (
        emit (node_unregistered peer_id operator) (record s {
          storage_nodes = update_peer peer_id none s.storage_nodes;
          operator_nodes = update operator none s.operator_nodes;
        }))
