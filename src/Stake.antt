-- ===== src/Stake.antt =====
-- Bonds of the storage nodes (apps/blockchain/pallets/storage_stake/src/lib.rs): the calls `bond`,
-- `request_release`, `finalize_release` and the internal `do_slash_bond`.
-- The currency pallet is a parameter: `Ledger` is its state, and a record gives its operations.
pub mod Invariant
pub mod Slash
pub mod Release
mod Tests
use anarchy.Base.{
  ℕ, ◌+◌, ◌-◌, ◌*◌, ◌/◌, ◌≡◌, Bool, Option, none, some, List, [], ◌∷◌, ltb, leb, ◌==◌,
  if◌then◌else◌, min, sat_add, sat_mul, u32_max, u64_max, u128_max, Table, lookup, insert, erase,
  is_some, not,
}
use anarchy.Base.Dispatch.{Result, ok, err, ◌>>=◌, ◌>>◌, ensure, ok_or}
use anarchy.Base.Reservable.{Currency}

abbrev pub bytes_per_gb : ℕ
bytes_per_gb = 1_073_741_824

-- The constants of the pallet; a `Permill` is its number of parts in a million, and its
-- `mul_floor` is the runtime's.
pub record Config : Type 0 where
  pub bond_per_gb : ℕ
  pub min_declared_capacity : ℕ
  pub bond_release_delay : ℕ
  pub slash_burn_share : ℕ
  pub mul_floor : ℕ → ℕ → ℕ

pub record Bond : Type 0 where
  pub amount : ℕ
  pub declared_capacity_bytes : ℕ
  pub bonded_at : ℕ
  pub release_requested_at : Option ℕ

abbrev pub new_bond : (amount declared_capacity_bytes now : ℕ) → Bond
new_bond bond_amount capacity now = record {
  amount = bond_amount;
  declared_capacity_bytes = capacity;
  bonded_at = now;
  release_requested_at = none;
}

pub data Event : Type 0 where
  bonded : (who amount declared_capacity_bytes : ℕ) → Event
  release_requested : (who release_at : ℕ) → Event
  released : (who amount : ℕ) → Event
  slashed : (who amount burned : ℕ) → Event

pub data Error : Type 0 where
  already_bonded capacity_too_low insufficient_balance not_bonded : Error
  release_not_requested release_still_pending bond_in_release : Error

-- The storage items, with the block number of the system and the ledger of the currency.
pub record State (Ledger : Type 0) : Type 0 where
  pub bonds : Table Bond
  pub total_active_bond : ℕ
  pub block_number : ℕ
  pub ledger : Ledger
  pub events : List Event

module _ {Ledger : Type 0} (config : Config) (currency : Currency Ledger) where
  -- The bond for a declared capacity: the price of each gigabyte begun.
  unfoldable pub bond_amount_for : ℕ → ℕ
  bond_amount_for declared_capacity_bytes =
      let gb = sat_add u64_max declared_capacity_bytes (bytes_per_gb - 1) / bytes_per_gb in
      sat_mul u128_max config.bond_per_gb gb

  unfoldable pub bond : ℕ → ℕ → State Ledger → Result Error (State Ledger)
  unfolding bond_amount_for
  bond who declared_capacity_bytes s = do
    ensure (not (is_some (lookup who s.bonds))) already_bonded
    ensure (leb config.min_declared_capacity declared_capacity_bytes) capacity_too_low
    let bond_amount = bond_amount_for declared_capacity_bytes
    ledger ← ok_or (currency.reserve who bond_amount s.ledger) insufficient_balance
    let entry = new_bond bond_amount declared_capacity_bytes s.block_number
    ok (record s {
      ledger = ledger;
      bonds = insert who entry s.bonds;
      total_active_bond = sat_add u128_max s.total_active_bond bond_amount;
      events = bonded who bond_amount declared_capacity_bytes ∷ s.events;
    })

  unfoldable pub request_release : ℕ → State Ledger → Result Error (State Ledger)
  request_release who s = do
    b ← ok_or (lookup who s.bonds) not_bonded
    ensure (not (is_some b.release_requested_at)) bond_in_release
    let release_at = sat_add u32_max s.block_number config.bond_release_delay
    ok (record s {
      bonds = insert who (record b { release_requested_at = some s.block_number }) s.bonds;
      events = release_requested who release_at ∷ s.events;
    })

  unfoldable pub finalize_release : ℕ → State Ledger → Result Error (State Ledger)
  finalize_release who s = do
    b ← ok_or (lookup who s.bonds) not_bonded
    requested ← ok_or b.release_requested_at release_not_requested
    ensure (leb (sat_add u32_max requested config.bond_release_delay) s.block_number)
        release_still_pending
    ok (record s {
      ledger = currency.unreserve who b.amount s.ledger;
      bonds = erase who s.bonds;
      total_active_bond = s.total_active_bond - b.amount;
      events = released who b.amount ∷ s.events;
    })

  -- The two transfers of a slash, each skipped at 0: the burnt part, then the part given back.
  unfoldable pub settle_slash : (who burn_amount return_amount : ℕ) → Ledger → Ledger
  settle_slash who burn_amount return_amount l =
      let l' = if ltb 0 burn_amount then currency.slash_reserved who burn_amount l else l in
      if ltb 0 return_amount then currency.unreserve who return_amount l' else l'

  -- The closure of `try_mutate`, for a bond that is there and a slash that is not 0.
  unfoldable pub slash_entry : (who slash : ℕ) → Bond → State Ledger → State Ledger
  unfolding settle_slash
  slash_entry who slash b s =
      let rest = b.amount - slash in
      let burn_amount = config.mul_floor config.slash_burn_share slash in
      record s {
        ledger = settle_slash who burn_amount (slash - burn_amount) s.ledger;
        total_active_bond = s.total_active_bond - slash;
        bonds =
            if rest == 0
            then erase who s.bonds
            else insert who (record b { amount = rest }) s.bonds;
        events = slashed who slash burn_amount ∷ s.events;
      }

  -- Returns the new state and the amount slashed. The event is emitted in every case.
  unfoldable pub do_slash_bond : ℕ → ℕ → State Ledger → State Ledger × ℕ
  unfolding slash_entry
  do_slash_bond who amount s = elim (lookup who s.bonds) [
    | none ↦ (record s { events = slashed who 0 0 ∷ s.events }, 0)
    | some b ↦
        let slash = min b.amount amount in
        if slash == 0
        then (record s { events = slashed who 0 0 ∷ s.events }, 0)
        else (slash_entry who slash b s, slash)
  ]

-- The trait `BondInfo`, by which the storage pallet reads and slashes bonds.
pub record BondInfo (S : Type 0) : Type 0 where
  pub has_bond : ℕ → S → Bool
  pub bond_amount : ℕ → S → ℕ
  pub total_bond : S → ℕ
  pub slash_bond : ℕ → ℕ → S → S × ℕ

abbrev pub amount_of : Option Bond → ℕ
amount_of none = 0
amount_of (some b) = b.amount

-- `impl BondInfo for Pallet<T>`
abbrev pub pallet_bond_info : {Ledger : Type 0} → Config → Currency Ledger → BondInfo (State Ledger)
pallet_bond_info config currency = record {
  has_bond = λ who s. is_some (lookup who s.bonds);
  bond_amount = λ who s. amount_of (lookup who s.bonds);
  total_bond = λ s. s.total_active_bond;
  slash_bond = do_slash_bond config currency;
}
