-- ===== src/Messaging.antt =====
-- The messaging pallet (apps/blockchain/pallets/messaging/src/lib.rs and types.rs): the calls
-- `publish_dm_key`, `revoke_dm_key` and `send_dm`.
pub mod Sent
pub mod Run
pub mod Unique
pub mod Funds
mod Tests
use anarchy.Base.{
  ℕ, ◌+◌, ◌*◌, ◌-◌, ◌%◌, ◌^◌, Bool, true, false, ◌&&◌, not, Option, none, some, List, [], ◌∷◌, ltb,
  leb, ◌==◌, if◌then◌else◌, u64_max, u128_max, update, is_some, length, try_push, contains,
}
use anarchy.Base.Dispatch.{Result, ok, err, ◌>>=◌, ◌>>◌, ensure, ok_or}

-- Keys, roots and accounts are numbers: a key of 32 bytes is below 2 ^ 256.
pub record DmMetaAddress : Type 0 where
  pub scan_pub : ℕ
  pub spend_pub : ℕ

pub record DmContentRef : Type 0 where
  pub root : ℕ
  pub k : ℕ
  pub n : ℕ
  pub ciphertext_len : ℕ

pub record DmDispatch : Type 0 where
  pub recipient_stealth : ℕ
  pub ephemeral_pubkey : ℕ
  pub content : DmContentRef

-- The constants, and the operations of other pallets on `World`, which is their state: the token,
-- the storage, stealth and base fee pallets. A `Permill` is its number of parts in a million, and
-- its `mul_floor` is the runtime's.
pub record Config (World : Type 0) : Type 0 where
  pub max_dispatches_per_block : ℕ
  pub dm_base_cost : ℕ
  pub dm_byte_cost : ℕ
  pub max_dm_ciphertext_len : ℕ
  pub storage_share_permill : ℕ
  pub stealth_share_permill : ℕ
  pub mul_floor : ℕ → ℕ → ℕ
  pub current_base_fee : World → ℕ
  pub record_gas : (bytes : ℕ) → World → World
  -- `none` when the balance does not suffice.
  pub burn_from : (who amount : ℕ) → World → Option World
  pub do_deposit_to_reward_pool : (amount : ℕ) → World → World
  pub do_deposit_to_stealth_reward_pool : (amount : ℕ) → World → World
  pub record_recipient_receive : (ephemeral_pubkey : ℕ) → World → World

pub data Event : Type 0 where
  dm_key_published dm_key_revoked : (account : ℕ) → Event
  dm_dispatched :
      (message_id block_number recipient_stealth ephemeral_pubkey content_hash : ℕ) → Event

pub data Error : Type 0 where
  reception_key_not_published invalid_padding_bucket duplicate_content : Error
  too_many_dispatches_in_block invalid_kn_parameters insufficient_stealth_balance : Error
  invalid_meta_address cost_calculation_overflow : Error

-- The storage items, with the block number and the state of the other pallets.
pub record State (World : Type 0) : Type 0 where
  pub dm_reception_keys : ℕ → Option DmMetaAddress
  pub dm_dispatches_by_block : ℕ → List DmDispatch
  pub next_message_id : ℕ
  pub dm_messages_by_root : ℕ → Option ℕ
  pub block_number : ℕ
  pub world : World
  pub events : List Event

abbrev pub dm_padding_buckets : List ℕ
dm_padding_buckets = 1_024 ∷ 4_096 ∷ 16_384 ∷ 65_536 ∷ 262_144 ∷ []

-- `[0xFFu8; 32]`
abbrev pub all_ones : ℕ
all_ones = 2 ^ 256 - 1

abbrev checked : (max : ℕ) → ℕ → Option ℕ
checked max n = if ltb max n then none else some n

-- `u128::checked_add`, `u128::checked_mul` and `u64::checked_add`
unfoldable pub checked_add : (max a b : ℕ) → Option ℕ
checked_add max a b = checked max (a + b)

unfoldable pub checked_mul : (max a b : ℕ) → Option ℕ
checked_mul max a b = checked max (a * b)

unfoldable pub is_acceptable : DmMetaAddress → Bool
is_acceptable m =
    not (m.scan_pub == 0)
    && (not (m.spend_pub == 0)
        && (not (m.scan_pub == all_ones)
            && (not (m.spend_pub == all_ones) && not (m.scan_pub == m.spend_pub))))

-- The arguments of `send_dm`.
pub record Message : Type 0 where
  pub recipient_stealth : ℕ
  pub ephemeral_pubkey : ℕ
  pub merkle_root : ℕ
  pub k : ℕ
  pub n : ℕ
  pub ciphertext_len : ℕ

-- The part of the cost that the pools share, and the whole.
pub record Cost : Type 0 where
  pub pre_total : ℕ
  pub total_cost : ℕ

abbrev pub dispatch_of : Message → DmDispatch
dispatch_of m = record {
  recipient_stealth = m.recipient_stealth;
  ephemeral_pubkey = m.ephemeral_pubkey;
  content = record { root = m.merkle_root; k = m.k; n = m.n; ciphertext_len = m.ciphertext_len };
}

module _ {World : Type 0} (config : Config World) where
  unfoldable pub publish_dm_key :
      (who : ℕ) → DmMetaAddress → State World → Result Error (State World)
  unfolding is_acceptable
  publish_dm_key who meta_address s = do
    ensure (is_acceptable meta_address) invalid_meta_address
    ok (record s {
      dm_reception_keys = update who (some meta_address) s.dm_reception_keys;
      events = dm_key_published who ∷ s.events;
    })

  unfoldable pub revoke_dm_key : (who : ℕ) → State World → Result Error (State World)
  revoke_dm_key who s = do
    ensure (is_some (s.dm_reception_keys who)) reception_key_not_published
    ok (record s {
      dm_reception_keys = update who none s.dm_reception_keys;
      events = dm_key_revoked who ∷ s.events;
    })

  -- The checks of `send_dm` before it computes the cost.
  unfoldable pub check_message : Message → State World → Result Error (Unit {0})
  unfolding contains
  check_message m s = do
    ensure (ltb 0 m.k && (leb m.k m.n && leb m.n 255)) invalid_kn_parameters
    ensure
        (contains m.ciphertext_len dm_padding_buckets
          && leb m.ciphertext_len config.max_dm_ciphertext_len)
        invalid_padding_bucket
    ensure (not (m.ephemeral_pubkey == 0)) invalid_meta_address
    ensure (not (is_some (s.dm_messages_by_root m.merkle_root))) duplicate_content
    ensure
        (ltb (length (s.dm_dispatches_by_block s.block_number) % 2 ^ 32)
          config.max_dispatches_per_block)
        too_many_dispatches_in_block

  -- The balance is `u128`, so that its conversions do not fail.
  unfoldable pub message_cost : (ciphertext_len : ℕ) → World → Result Error Cost
  unfolding checked_add checked_mul
  message_cost len world = do
    byte_total ← ok_or (checked_mul u128_max len config.dm_byte_cost) cost_calculation_overflow
    base_fee_burn ←
        ok_or (checked_mul u128_max len (config.current_base_fee world)) cost_calculation_overflow
    pre_total ←
        ok_or (checked_add u128_max config.dm_base_cost byte_total) cost_calculation_overflow
    total_cost ← ok_or (checked_add u128_max pre_total base_fee_burn) cost_calculation_overflow
    ok (record { pre_total = pre_total; total_cost = total_cost })

  -- The two deposits, the receipt, and the bytes for the base fee, cast to `u32`.
  unfoldable pub distribute : (pre_total : ℕ) → Message → World → World
  distribute pre_total m world = config.record_gas (m.ciphertext_len % 2 ^ 32) (
      config.record_recipient_receive m.ephemeral_pubkey (
        config.do_deposit_to_stealth_reward_pool
          (config.mul_floor config.stealth_share_permill pre_total)
          (config.do_deposit_to_reward_pool
            (config.mul_floor config.storage_share_permill pre_total) world)))

  unfoldable pub send_dm : (who : ℕ) → Message → State World → Result Error (State World)
  unfolding check_message message_cost distribute checked_add
  send_dm who m s = do
    check_message m s
    cost ← message_cost m.ciphertext_len s.world
    burnt ← ok_or (config.burn_from who cost.total_cost s.world) insufficient_stealth_balance
    let message_id = s.next_message_id
    next_id ← ok_or (checked_add u64_max message_id 1) cost_calculation_overflow
    listed ←
        ok_or
          (try_push config.max_dispatches_per_block (dispatch_of m)
            (s.dm_dispatches_by_block s.block_number))
          too_many_dispatches_in_block
    ok (record s {
      next_message_id = next_id;
      dm_dispatches_by_block = update s.block_number listed s.dm_dispatches_by_block;
      dm_messages_by_root = update m.merkle_root (some message_id) s.dm_messages_by_root;
      world = distribute cost.pre_total m burnt;
      events =
          dm_dispatched message_id s.block_number m.recipient_stealth m.ephemeral_pubkey
            m.merkle_root
          ∷ s.events;
    })
