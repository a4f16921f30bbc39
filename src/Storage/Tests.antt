-- ===== src/Storage/Tests.antt =====
-- Concrete constants and states of the storage pallet, for its tests.
mod Nodes
mod Repairs
mod Proofs
use anarchy.Base.{
  ℕ, zero, suc, ◌-◌, ◌*◌, ◌+◌, min, Option, none, some, List, [], ◌∷◌, true, if◌then◌else◌, ◌==◌,
  update,
}
use anarchy.Storage.Types.{
  Env, State, KzgFragment, PeerId, genesis, update₂, no_record, at_risk, peer_eq, StorageNodeInfo,
}
use anarchy.Storage.Run.{
  Call, register_node_call, declare_holding_call, register_fragment_call, end_block,
  register_kzg_fragment_by_post, issue_challenge_call,
}

abbrev pub bytes : ℕ → List ℕ
bytes zero = []
bytes (suc n) = 1 ∷ bytes n

-- Every account has the same bond, a quarter of the total; the issuance stands for the token.
abbrev pub env : Env ℕ ℕ
env = record {
  max_fragment_size = 1000;
  max_peer_id_len = 64;
  max_holders_per_fragment = 16;
  max_fragments_per_node = 100;
  min_peer_id_len = 1;
  max_registrations_per_block = 5;
  max_declarations_per_block_per_node = 10;
  min_node_capacity = 500;
  pow_observation_period = 10;
  base_pow_difficulty = 0;
  base_reward_per_byte = 5000;
  score_threshold = 100;
  score_hysteresis_margin = 20;
  max_challenges_per_block = 4;
  min_withdrawal_amount = 50;
  storage_pool_target = 1000;
  slash_rate_per_fail_ppm = 50_000;
  stake_provider = record {
    has_bond = λ who b. true;
    bond_amount = λ who b. b;
    total_bond = λ b. 4 * b;
    slash_bond = λ who asked b. (b - asked, min b asked);
  };
  mint_into = λ who amount issued. some (issued + amount);
  blake2_256 = λ message. 0 ∷ message;
  verify_kzg_proof = λ commitment index value proof. some true;
}

abbrev pub start : State ℕ ℕ
start = genesis 100 0 1000

abbrev pub peer : PeerId
peer = 1 ∷ 2 ∷ []

abbrev pub url : List ℕ
url = 104 ∷ []

-- A node joins, stores a fragment, and a KZG fragment is registered.
abbrev pub calls : List (Call ℕ ℕ)
calls =
    register_node_call 3 peer 600 0 url
    ∷ register_fragment_call 3 7 10
    ∷ declare_holding_call 3 7
    ∷ register_kzg_fragment_by_post 3 7 (bytes 48) 10 3 2
    ∷ issue_challenge_call 3 7 3 1
    ∷ end_block
    ∷ []

-- A fragment at risk: four holders of three fragments; account 10 has been slashed.
abbrev pub fragment : KzgFragment
fragment = record {
  owner = 3;
  commitment = bytes 48;
  data_size = 10;
  fragment_count = 3;
  threshold = 2;
  created_at = 0;
  holders = 10 ∷ 11 ∷ 12 ∷ 13 ∷ [];
}

abbrev pub held : State ℕ ℕ
held = record (genesis 100 0 1000) {
  block_number = 50;
  operator_nodes = λ a. some (a ∷ []);
  kzg_fragments = update 7 (some fragment) (λ h. none);
  fragment_states = update 7 (some (record { kind = at_risk; changed_at = 40 })) (λ h. none);
  proof_records =
      update₂ 7 10 (record no_record { slashed = true; share_index = 1 }) (λ h a. no_record);
  repair_reward_pools = update 7 40 (λ h. 0);
  pending_rewards = update 11 600 (λ a. 0);
}
