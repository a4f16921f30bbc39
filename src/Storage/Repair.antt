-- ===== src/Storage/Repair.antt =====
-- Repair, eviction and slashing: `update_fragment_state`, `compute_eviction_candidates`,
-- `do_slash_node` and the calls `confirm_repair` and `evict_stale_holder` of
-- apps/blockchain/pallets/storage/src/lib.rs.
use anarchy.Base.{
  ℕ, ◌+◌, ◌-◌, ◌/◌, ◌%◌, true, false, ◌&&◌, not, Option, none, some, List, [], ◌∷◌, map, length,
  ltb, leb, ◌==◌, if◌then◌else◌, update, is_some, try_push, contains, sat_add, sat_mul, u128_max,
  min,
}
use anarchy.Base.Dispatch.{Result, ok, ◌>>=◌, ◌>>◌, ensure, ok_or}
use anarchy.Storage.Types.{
  update₂, KzgFragment, ProofRecord, no_record, EvictionCandidate, FragmentStateKind, active,
  at_risk, repairing, lost, FragmentState, kind_eq, Event, Error, Env, State, emit,
  fragment_at_risk, fragment_lost, repair_completed, node_slashed, holder_evicted,
  node_not_registered, invalid_commitment_length, invalid_kzg_proof, invalid_share_value,
  kzg_fragment_not_found, fragment_not_at_risk, already_holding, fragment_has_too_many_holders,
  no_excess_holders, already_slashed,
}

abbrev pub kind_of : Option FragmentState → FragmentStateKind
kind_of none = active
kind_of (some st) = st.kind

-- The state that a number of holders stands for.
unfoldable pub kind_for : ℕ → FragmentStateKind
kind_for holder_count =
    if leb 5 holder_count then active else (if leb 3 holder_count then at_risk else lost)

abbrev pub kind_events : FragmentStateKind → ℕ → ℕ → List Event → List Event
kind_events at_risk content_hash holder_count es = fragment_at_risk content_hash holder_count ∷ es
kind_events lost content_hash holder_count es = fragment_lost content_hash holder_count ∷ es
kind_events active content_hash holder_count es = es
kind_events repairing content_hash holder_count es = es

unfoldable pub candidate_of : ℕ → ProofRecord → EvictionCandidate
candidate_of holder r =
    let unslashed = if r.slashed then 0 else 1000 in
    let index = if leb r.share_index 5 && ltb 0 r.share_index then 0 else 100 in
    record {
      account_id = holder;
      priority_score = unslashed + index + min (r.last_proved_at / 100) 500;
      share_index = r.share_index;
      is_slashed = r.slashed;
      last_proved_at = r.last_proved_at;
    }

-- `sort_by_key(|c| c.priority_score)`, which is stable.
unfoldable pub insert_candidate :
    EvictionCandidate → List EvictionCandidate → List EvictionCandidate
insert_candidate c [] = c ∷ []
insert_candidate c (d ∷ ds) =
    if leb c.priority_score d.priority_score then c ∷ d ∷ ds else d ∷ insert_candidate c ds

unfoldable pub sort_by_score : List EvictionCandidate → List EvictionCandidate
unfolding insert_candidate
sort_by_score [] = []
sort_by_score (c ∷ cs) = insert_candidate c (sort_by_score cs)

-- `retain(|h| *h != account)`
unfoldable pub without : ℕ → List ℕ → List ℕ
without a [] = []
without a (x ∷ xs) = let rest = without a xs in if x == a then rest else x ∷ rest

-- The record of a holder that has just repaired a share.
abbrev pub repaired_record : (now share_index : ℕ) → ProofRecord
repaired_record now share_index = record {
  last_proved_at = now;
  success_count = 1;
  failure_count = 0;
  slashed = false;
  share_index = share_index;
}

abbrev pub first_account : List EvictionCandidate → Option ℕ
first_account [] = none
first_account (c ∷ cs) = some c.account_id

module _ {Bonds Tokens : Type 0} where
  unfoldable pub update_fragment_state : ℕ → State Bonds Tokens → State Bonds Tokens
  unfolding kind_for
  update_fragment_state content_hash s = elim (s.kzg_fragments content_hash) [
    | none ↦ s
    | some fragment ↦
        let holder_count = length fragment.holders in
        let new_kind = kind_for holder_count in
        let state : FragmentState = record { kind = new_kind; changed_at = s.block_number } in
        if kind_eq new_kind (kind_of (s.fragment_states content_hash)) then s else record s {
          fragment_states = update content_hash (some state) s.fragment_states;
          events = kind_events new_kind content_hash holder_count s.events;
        }
  ]

  unfoldable pub compute_eviction_candidates : ℕ → State Bonds Tokens → List EvictionCandidate
  unfolding sort_by_score candidate_of
  compute_eviction_candidates content_hash s = elim (s.kzg_fragments content_hash) [
    | none ↦ []
    | some fragment ↦
        sort_by_score (
          map (λ holder. candidate_of holder (s.proof_records content_hash holder))
            fragment.holders)
  ]

  -- The account to evict: `candidates[0]`.
  unfoldable pub evict_stale_holder : ℕ → State Bonds Tokens → Result Error (State Bonds Tokens)
  unfolding compute_eviction_candidates without update_fragment_state
  evict_stale_holder content_hash s = do
    fragment ← ok_or (s.kzg_fragments content_hash) kzg_fragment_not_found
    ensure (ltb fragment.fragment_count (length fragment.holders % 256)) no_excess_holders
    evicted ← ok_or (first_account (compute_eviction_candidates content_hash s)) no_excess_holders
    let fragment' : KzgFragment = record fragment { holders = without evicted fragment.holders }
    let s' : State Bonds Tokens = record s {
      kzg_fragments = update content_hash (some fragment') s.kzg_fragments;
      proof_records = update₂ content_hash evicted no_record s.proof_records;
    }
    ok (emit (holder_evicted content_hash evicted) (update_fragment_state content_hash s'))

module _ {Bonds Tokens : Type 0} (env : Env Bonds Tokens) where
  -- The amount that a slash asks of the bond.
  unfoldable pub bond_slash_amount : ℕ → State Bonds Tokens → ℕ
  bond_slash_amount node s =
      sat_mul u128_max (env.stake_provider.bond_amount node s.bonds) env.slash_rate_per_fail_ppm
      / 1_000_000

  unfoldable pub do_slash_node :
      (node content_hash : ℕ) → State Bonds Tokens → Result Error (State Bonds Tokens)
  unfolding bond_slash_amount
  do_slash_node node content_hash s = do
    let r = s.proof_records content_hash node
    ensure (not r.slashed) already_slashed
    let reward_penalty = s.pending_rewards node / 2
    let asked = bond_slash_amount node s
    let (bonds, bond_slashed) =
        if ltb 0 asked then env.stake_provider.slash_bond node asked s.bonds else (s.bonds, 0)
    ok (
        emit (node_slashed content_hash node (sat_add u128_max bond_slashed reward_penalty))
          (record s {
            bonds = bonds;
            proof_records = update₂ content_hash node (record r { slashed = true }) s.proof_records;
            pending_rewards =
                update node (s.pending_rewards node - reward_penalty) s.pending_rewards;
            repair_reward_pools =
                update content_hash
                  (sat_add u128_max (s.repair_reward_pools content_hash) reward_penalty)
                  s.repair_reward_pools;
          }))

  unfoldable pub confirm_repair :
      (new_holder content_hash share_index : ℕ)
      → (share_value kzg_proof : List ℕ) → State Bonds Tokens
      → Result Error (State Bonds Tokens)
  unfolding update_fragment_state
  confirm_repair new_holder content_hash share_index share_value kzg_proof s = do
    ensure (is_some (s.operator_nodes new_holder)) node_not_registered
    fragment ← ok_or (s.kzg_fragments content_hash) kzg_fragment_not_found
    ensure (kind_eq (kind_of (s.fragment_states content_hash)) at_risk) fragment_not_at_risk
    ensure (not (contains new_holder fragment.holders)) already_holding
    ensure (length fragment.commitment == 48) invalid_commitment_length
    ensure (length share_value == 32) invalid_share_value
    ensure (length kzg_proof == 48) invalid_kzg_proof
    is_valid ←
        ok_or (env.verify_kzg_proof fragment.commitment share_index share_value kzg_proof)
          invalid_kzg_proof
    ensure is_valid invalid_kzg_proof
    holders ← ok_or (try_push 16 new_holder fragment.holders) fragment_has_too_many_holders
    let fragment' : KzgFragment = record fragment { holders = holders }
    let pool_balance = s.repair_reward_pools content_hash
    let pending = s.pending_rewards new_holder
    let s' : State Bonds Tokens = record s {
      kzg_fragments = update content_hash (some fragment') s.kzg_fragments;
      proof_records =
          update₂ content_hash new_holder (repaired_record s.block_number share_index)
            s.proof_records;
      repair_reward_pools = update content_hash 0 s.repair_reward_pools;
      pending_rewards =
          if ltb 0 pool_balance
          then update new_holder (sat_add u128_max pending pool_balance) s.pending_rewards
          else s.pending_rewards;
    }
    ok (
        emit (repair_completed content_hash new_holder share_index)
          (update_fragment_state content_hash s'))
