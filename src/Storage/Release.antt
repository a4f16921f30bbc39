-- ===== src/Storage/Release.antt =====
-- The interface that other pallets call: `do_register_kzg_fragment`, `do_deposit_to_reward_pool`
-- and `do_release_fragment` of apps/blockchain/pallets/storage/src/lib.rs.
use anarchy.Base.{
  ℕ, Bool, ◌&&◌, ◌||◌, not, none, some, List, [], ◌∷◌, length, ltb, leb, ◌==◌, if◌then◌else◌,
  update, is_some, sat_add, u128_max,
}
use anarchy.Base.Dispatch.{Result, ok, ◌>>◌, ensure}
use anarchy.Storage.Types.{
  PeerId, update_peer, KzgFragment, no_record, Error, State, emit, kzg_fragment_registered,
  forgotten_by_policy, fragment_too_small, kzg_fragment_already_exists, invalid_commitment_length,
  invalid_kzg_threshold, fragment_count_too_small,
}
use anarchy.Storage.Nodes.{is_empty}
use anarchy.Storage.Repair.{without}

-- For every peer of the list, drop the fragment from its holdings.
unfoldable pub prune_holdings : ℕ → List PeerId → (PeerId → List ℕ) → PeerId → List ℕ
unfolding without
prune_holdings content_hash [] held = held
prune_holdings content_hash (p ∷ ps) held =
    prune_holdings content_hash ps (update_peer p (without content_hash (held p)) held)

module _ {Bonds Tokens : Type 0} where
  unfoldable pub do_register_kzg_fragment :
      (owner content_hash : ℕ)
      → List ℕ
      → (data_size fragment_count threshold : ℕ) → State Bonds Tokens
      → Result Error (State Bonds Tokens)
  do_register_kzg_fragment owner content_hash commitment data_size fragment_count threshold s = do
    ensure (length commitment == 48) invalid_commitment_length
    ensure (leb 2 fragment_count) fragment_count_too_small
    ensure (leb 1 threshold && leb threshold fragment_count) invalid_kzg_threshold
    ensure (ltb 0 data_size) fragment_too_small
    ensure (not (is_some (s.kzg_fragments content_hash))) kzg_fragment_already_exists
    let fragment : KzgFragment = record {
      owner = owner;
      commitment = commitment;
      data_size = data_size;
      fragment_count = fragment_count;
      threshold = threshold;
      created_at = s.block_number;
      holders = [];
    }
    ok (
        emit
          (kzg_fragment_registered content_hash owner commitment data_size fragment_count threshold)
          (record s { kzg_fragments = update content_hash (some fragment) s.kzg_fragments }))

  unfoldable pub do_deposit_to_reward_pool : ℕ → State Bonds Tokens → State Bonds Tokens
  do_deposit_to_reward_pool amount s = record s {
    reward_pool_balance = sat_add u128_max s.reward_pool_balance amount;
  }

  -- Whether any storage item knows the content: the flag `existed`.
  unfoldable pub existed : ℕ → State Bonds Tokens → Bool
  existed content_hash s =
      is_some (s.fragments content_hash)
      || is_some (s.kzg_fragments content_hash)
      || is_some (s.forgetting_candidates content_hash)
      || is_some (s.fragment_states content_hash)
      || not (is_empty (s.fragment_holders content_hash))
      || is_some (s.score_cache content_hash)

  unfoldable pub do_release_fragment : ℕ → State Bonds Tokens → State Bonds Tokens
  unfolding prune_holdings existed
  do_release_fragment content_hash s =
      let cleared : State Bonds Tokens = record s {
        fragments = update content_hash none s.fragments;
        kzg_fragments = update content_hash none s.kzg_fragments;
        proof_records = update content_hash (λ a. no_record) s.proof_records;
        forgetting_candidates = update content_hash none s.forgetting_candidates;
        fragment_states = update content_hash none s.fragment_states;
        fragment_holders = update content_hash [] s.fragment_holders;
        node_holdings =
            prune_holdings content_hash (s.fragment_holders content_hash) s.node_holdings;
        score_cache = update content_hash none s.score_cache;
      } in
      if existed content_hash s then emit (forgotten_by_policy content_hash) cleared else cleared
