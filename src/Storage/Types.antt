-- ===== src/Storage/Types.antt =====
-- The state of the storage pallet: its storage items, errors and events
-- (apps/blockchain/pallets/storage/src/lib.rs).
-- Accounts, content hashes and block numbers are numbers; a peer id is its list of bytes.
-- A `ValueQuery` map is a total function, an `OptionQuery` map one into `Option`; `FragmentStates`
-- keeps the `Option`, since `do_release_fragment` asks whether its key is there.
use anarchy.Base.{
  ℕ, ◌≡◌, ◌↔◌, Bool, true, false, ◌&&◌, Option, none, List, [], ◌∷◌, arith, ◌==◌, if◌then◌else◌,
  update,
}
use anarchy.Stake.{BondInfo}

abbrev pub PeerId : Type 0
PeerId = List ℕ

abbrev pub peer_eq : PeerId → PeerId → Bool
peer_eq [] [] = true
peer_eq [] (y ∷ ys) = false
peer_eq (x ∷ xs) [] = false
peer_eq (x ∷ xs) (y ∷ ys) = x == y && peer_eq xs ys

pub peer_eq_iff : (p q : PeerId) → (peer_eq p q ≡ true) ↔ (p ≡ q)
peer_eq_iff [] [] = ground arith
peer_eq_iff [] (y ∷ ys) = ground arith
peer_eq_iff (x ∷ xs) [] = ground arith
peer_eq_iff (x ∷ xs) (y ∷ ys) = ground (arith, peer_eq_iff xs ys)

-- Writes to a map of peers, and to a map of pairs.
abbrev pub update_peer {ℓ} : {V : Type ℓ} → PeerId → V → (PeerId → V) → PeerId → V
update_peer p v m q = if peer_eq p q then v else m q

abbrev pub update₂ {ℓ} : {V : Type ℓ} → ℕ → ℕ → V → (ℕ → ℕ → V) → ℕ → ℕ → V
update₂ i j v m = update i (update j v (m i)) m

pub record FragmentMetadata : Type 0 where
  pub size : ℕ
  pub creator : ℕ
  pub created_at : ℕ

pub record StorageNodeInfo : Type 0 where
  pub operator : ℕ
  pub capacity : ℕ
  pub registered_at : ℕ
  pub pow_nonce : ℕ
  pub http_url : List ℕ

pub record KzgFragment : Type 0 where
  pub owner : ℕ
  pub commitment : List ℕ
  pub data_size : ℕ
  pub fragment_count : ℕ
  pub threshold : ℕ
  pub created_at : ℕ
  pub holders : List ℕ

pub record Challenge : Type 0 where
  pub content_hash : ℕ
  pub share_index : ℕ
  pub challenged_node : ℕ
  pub issued_at : ℕ
  pub deadline : ℕ

pub record ProofRecord : Type 0 where
  pub last_proved_at : ℕ
  pub success_count : ℕ
  pub failure_count : ℕ
  pub slashed : Bool
  pub share_index : ℕ

-- `#[derive(Default)]`
abbrev pub no_record : ProofRecord
no_record = record {
  last_proved_at = 0;
  success_count = 0;
  failure_count = 0;
  slashed = false;
  share_index = 0;
}

pub record EvictionCandidate : Type 0 where
  pub account_id : ℕ
  pub priority_score : ℕ
  pub share_index : ℕ
  pub is_slashed : Bool
  pub last_proved_at : ℕ

pub data FragmentStateKind : Type 0 where
  active at_risk repairing lost : FragmentStateKind

pub record FragmentState : Type 0 where
  pub kind : FragmentStateKind
  pub changed_at : ℕ

abbrev pub kind_eq : FragmentStateKind → FragmentStateKind → Bool
kind_eq active active = true
kind_eq at_risk at_risk = true
kind_eq repairing repairing = true
kind_eq lost lost = true
kind_eq _ _ = false

pub data Event : Type 0 where
  fragment_registered : (fragment_id creator size : ℕ) → Event
  node_registered : PeerId → (operator capacity : ℕ) → Event
  node_updated : PeerId → (new_capacity : ℕ) → Event
  node_unregistered : PeerId → (operator : ℕ) → Event
  holding_declared : PeerId → (fragment_id : ℕ) → Event
  holding_revoked : PeerId → (fragment_id : ℕ) → Event
  kzg_fragment_registered :
      (content_hash owner : ℕ) → List ℕ → (data_size fragment_count threshold : ℕ) → Event
  holding_proved : (content_hash holder share_index : ℕ) → Event
  challenge_issued : (content_hash share_index target_node deadline : ℕ) → Event
  reward_claimed : (holder amount : ℕ) → Event
  forgetting_candidate_marked : (content_hash marked_at : ℕ) → Event
  forgotten_by_policy : (content_hash : ℕ) → Event
  score_recovered : (content_hash : ℕ) → Event
  challenge_expired : (content_hash share_index challenged_node : ℕ) → Event
  fragment_at_risk : (content_hash holder_count : ℕ) → Event
  fragment_lost : (content_hash holder_count : ℕ) → Event
  repair_completed : (content_hash new_holder new_share_index : ℕ) → Event
  node_slashed : (content_hash node penalty_amount : ℕ) → Event
  holder_evicted : (content_hash evicted_holder : ℕ) → Event

pub data Error : Type 0 where
  fragment_already_exists fragment_too_large fragment_too_small fragment_not_found : Error
  node_already_registered operator_already_has_node node_not_registered : Error
  invalid_capacity node_has_holdings : Error
  not_holding too_many_holders too_many_fragments : Error
  invalid_pow too_many_registrations_this_block too_many_declarations_this_block : Error
  capacity_too_small peer_id_too_short peer_id_too_long invalid_http_url not_bonded : Error
  kzg_fragment_already_exists invalid_commitment_length invalid_kzg_threshold : Error
  fragment_count_too_small invalid_kzg_proof invalid_share_value not_challenged : Error
  challenge_already_issued proof_already_submitted invalid_challenge_index : Error
  kzg_fragment_not_found not_holder no_pending_reward insufficient_reward_pool : Error
  arithmetic_overflow reward_mint_failed not_holder_of_fragment challenge_limit_exceeded : Error
  issuer_not_registered_node insufficient_accrued_rewards fragment_not_at_risk : Error
  already_holding fragment_has_too_many_holders no_excess_holders already_slashed : Error

-- The constants of `Config` and the code that the pallet calls: the bonds of the stake pallet, the
-- minting of the token, the hash, and the pairing check of a KZG proof (`none` is its error).
pub record Env (Bonds Tokens : Type 0) : Type 0 where
  pub max_fragment_size : ℕ
  pub max_peer_id_len : ℕ
  pub max_holders_per_fragment : ℕ
  pub max_fragments_per_node : ℕ
  pub min_peer_id_len : ℕ
  pub max_registrations_per_block : ℕ
  pub max_declarations_per_block_per_node : ℕ
  pub min_node_capacity : ℕ
  pub pow_observation_period : ℕ
  pub base_pow_difficulty : ℕ
  pub base_reward_per_byte : ℕ
  pub score_threshold : ℕ
  pub score_hysteresis_margin : ℕ
  pub max_challenges_per_block : ℕ
  pub min_withdrawal_amount : ℕ
  pub storage_pool_target : ℕ
  pub slash_rate_per_fail_ppm : ℕ
  pub stake_provider : BondInfo Bonds
  pub mint_into : ℕ → ℕ → Tokens → Option Tokens
  pub blake2_256 : List ℕ → List ℕ
  pub verify_kzg_proof : List ℕ → ℕ → List ℕ → List ℕ → Option Bool

pub record State (Bonds Tokens : Type 0) : Type 0 where
  pub block_number : ℕ
  pub bonds : Bonds
  pub tokens : Tokens
  pub events : List Event
  pub fragments : ℕ → Option FragmentMetadata
  pub storage_nodes : PeerId → Option StorageNodeInfo
  pub operator_nodes : ℕ → Option PeerId
  pub fragment_holders : ℕ → List PeerId
  pub node_holdings : PeerId → List ℕ
  pub registration_count_per_block : ℕ → ℕ
  pub declare_holding_count_per_block : ℕ → PeerId → ℕ
  pub kzg_fragments : ℕ → Option KzgFragment
  pub pending_challenges : ℕ → ℕ → Option Challenge
  pub proof_records : ℕ → ℕ → ProofRecord
  pub reward_pool_balance : ℕ
  pub score_cache : ℕ → Option ℕ
  pub pending_rewards : ℕ → ℕ
  pub forgetting_candidates : ℕ → Option ℕ
  pub challenge_count_per_block : ℕ → ℕ → ℕ
  pub challenges_by_deadline : ℕ → List (ℕ × ℕ)
  pub fragment_states : ℕ → Option FragmentState
  pub repair_reward_pools : ℕ → ℕ

abbrev pub emit : {Bonds Tokens : Type 0} → Event → State Bonds Tokens → State Bonds Tokens
emit e s = record s { events = e ∷ s.events }

-- The state at genesis: `initial_reward_pool` in the pool, and nothing else.
abbrev pub genesis : {Bonds Tokens : Type 0} → Bonds → Tokens → ℕ → State Bonds Tokens
genesis bonds tokens initial_reward_pool = record {
  block_number = 0;
  bonds = bonds;
  tokens = tokens;
  events = [];
  fragments = λ h. none;
  storage_nodes = λ p. none;
  operator_nodes = λ a. none;
  fragment_holders = λ h. [];
  node_holdings = λ p. [];
  registration_count_per_block = λ n. 0;
  declare_holding_count_per_block = λ n p. 0;
  kzg_fragments = λ h. none;
  pending_challenges = λ h i. none;
  proof_records = λ h a. no_record;
  reward_pool_balance = initial_reward_pool;
  score_cache = λ h. none;
  pending_rewards = λ a. 0;
  forgetting_candidates = λ h. none;
  challenge_count_per_block = λ n a. 0;
  challenges_by_deadline = λ n. [];
  fragment_states = λ h. none;
  repair_reward_pools = λ h. 0;
}
