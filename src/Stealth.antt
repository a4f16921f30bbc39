-- ===== src/Stealth.antt =====
-- The stealth pallet (apps/blockchain/pallets/stealth/src/lib.rs and types.rs): the calls
-- `send_to_stealth` and `claim_stealth_reward`, and the interface for the messaging pallet.
pub mod Run
pub mod Claimed
pub mod Covered
pub mod Amount
mod Tests
use anarchy.Base.{
  ℕ, suc, ◌+◌, ◌-◌, ◌*◌, ◌/◌, ◌%◌, ◌^◌, Bool, ◌&&◌, ◌||◌, not, Option, none, some, List, [], ◌∷◌,
  ltb, ◌==◌, if◌then◌else◌, min, max, sat_add, sat_mul, u32_max, u64_max, u128_max, update, length,
  try_push,
}
use anarchy.Base.Dispatch.{Result, ok, err, ◌>>=◌, ◌>>◌, ensure, ok_or}

pub record EphemeralKeyEntry : Type 0 where
  pub ephemeral_pubkey : ℕ
  pub stealth_address : ℕ

pub data Event : Type 0 where
  stealth_transfer : (sender stealth_address amount : ℕ) → Event
  stealth_reward_deposit : (amount : ℕ) → Event
  recipient_receive_counted : (ephemeral_pubkey new_count : ℕ) → Event
  stealth_reward_claimed : (recipient ephemeral_pubkey amount unclaimed_count : ℕ) → Event

pub data Error : Type 0 where
  zero_amount too_many_entries_in_block insufficient_balance no_unclaimed_receives : Error
  stealth_reward_pool_empty claim_amount_too_small invalid_stealth_signature : Error
  invalid_correspondence_proof : Error
  -- Any other error of a transfer, which is passed on.
  transfer_error : Error

-- How the currency refuses a transfer.
pub data TransferError : Type 0 where
  funds_unavailable other_error : TransferError

-- The constants, the currency on its state `World`, and the checks of a claim; keys and signatures
-- are numbers.
pub record Config (World : Type 0) : Type 0 where
  pub max_entries_per_block : ℕ
  pub claim_cap_ppm : ℕ
  pub transfer : (sender recipient amount : ℕ) → World → Result TransferError World
  pub deposit_creating : (who amount : ℕ) → World → World
  pub encode : (recipient ephemeral_pubkey : ℕ) → List ℕ
  pub ed25519_verify : (signature : ℕ) (message : List ℕ) (public : ℕ) → Bool
  pub verify_correspondence : (ephemeral_pubkey stealth_pubkey : ℕ) (proof : List ℕ) → Bool

pub record State (World : Type 0) : Type 0 where
  pub ephemeral_keys : ℕ → List EphemeralKeyEntry
  pub stealth_reward_pool : ℕ
  pub recipient_receive_count : ℕ → ℕ
  pub total_received_count : ℕ
  pub claimed_receive_count : ℕ → ℕ
  pub block_number : ℕ
  pub world : World
  pub events : List Event

unfoldable pub compute_claim_amount : (unclaimed_count total_received pool_balance cap_ppm : ℕ) → ℕ
compute_claim_amount unclaimed total pool cap_ppm =
    if unclaimed == 0 || (total == 0 || pool == 0)
    then 0
    else let share_ppm = sat_mul u128_max unclaimed 1_000_000 / max total 1 in
      let payout = sat_mul u128_max pool share_ppm / 1_000_000 in
      let capped =
        if ltb 0 cap_ppm then min payout (sat_mul u128_max pool cap_ppm / 1_000_000) else payout in
      min capped pool

-- By how much a claim moves the count of what is claimed: all of it, or when the cap took effect
-- the part that was paid, cast to `u32`, and at least one.
unfoldable pub advanced_count : (payout proportional_full unclaimed : ℕ) → ℕ
advanced_count payout full unclaimed =
    if ltb 0 full && ltb payout full
    then max 1 (min (sat_mul u128_max payout unclaimed / max full 1) unclaimed % 2 ^ 32)
    else unclaimed

-- The interface for the messaging pallet.
unfoldable pub deposit_to_reward_pool : {World : Type 0} → (amount : ℕ) → State World → State World
deposit_to_reward_pool amount s = if amount == 0 then s else record s {
  stealth_reward_pool = sat_add u128_max s.stealth_reward_pool amount;
  events = stealth_reward_deposit amount ∷ s.events;
}

unfoldable pub record_recipient_receive :
    {World : Type 0} → (ephemeral_pubkey : ℕ) → State World → State World
record_recipient_receive key s =
    let new_count = sat_add u32_max (s.recipient_receive_count key) 1 in
    record s {
      recipient_receive_count = update key new_count s.recipient_receive_count;
      total_received_count = sat_add u64_max s.total_received_count 1;
      events = recipient_receive_counted key new_count ∷ s.events;
    }

abbrev pub transferred : {World : Type 0} → Result TransferError World → Result Error World
transferred (ok w) = ok w
transferred (err funds_unavailable) = err insufficient_balance
transferred (err other_error) = err transfer_error

-- The arguments of `claim_stealth_reward`.
pub record Claim : Type 0 where
  pub ephemeral_pubkey : ℕ
  pub stealth_pubkey : ℕ
  pub signature : ℕ
  pub correspondence_proof : List ℕ

module _ {World : Type 0} (config : Config World) where
  unfoldable pub send_to_stealth :
      (sender stealth_address ephemeral_pubkey amount : ℕ)
      → State World
      → Result Error (State World)
  send_to_stealth sender address key amount s = do
    ensure (ltb 0 amount) zero_amount
    moved ← transferred (config.transfer sender address amount s.world)
    entries ←
        ok_or
          (try_push config.max_entries_per_block
            (record { ephemeral_pubkey = key; stealth_address = address })
            (s.ephemeral_keys s.block_number))
          too_many_entries_in_block
    ok (record s {
      world = moved;
      ephemeral_keys = update s.block_number entries s.ephemeral_keys;
      events = stealth_transfer sender address amount ∷ s.events;
    })

  -- What is recorded of a key and not claimed.
  unfoldable pub unclaimed_count : (ephemeral_pubkey : ℕ) → State World → ℕ
  unclaimed_count key s = s.recipient_receive_count key - s.claimed_receive_count key

  unfoldable pub claim_amount : (ephemeral_pubkey : ℕ) → State World → ℕ
  unfolding unclaimed_count
  claim_amount key s =
      compute_claim_amount (unclaimed_count key s) s.total_received_count s.stealth_reward_pool
        config.claim_cap_ppm

  -- The balance is `u128`, so that the conversion of the payout does not fail.
  unfoldable pub claim_stealth_reward :
      (recipient : ℕ) → Claim → State World → Result Error (State World)
  unfolding claim_amount
  claim_stealth_reward recipient c s = do
    let key = c.ephemeral_pubkey
    ensure (config.ed25519_verify c.signature (config.encode recipient key) c.stealth_pubkey)
        invalid_stealth_signature
    ensure (config.verify_correspondence key c.stealth_pubkey c.correspondence_proof)
        invalid_correspondence_proof
    let unclaimed = unclaimed_count key s
    ensure (ltb 0 unclaimed) no_unclaimed_receives
    ensure (ltb 0 s.stealth_reward_pool) stealth_reward_pool_empty
    let payout = claim_amount key s
    ensure (ltb 0 payout) claim_amount_too_small
    let full = compute_claim_amount unclaimed s.total_received_count s.stealth_reward_pool 0
    ok (record s {
      stealth_reward_pool = s.stealth_reward_pool - payout;
      claimed_receive_count =
          update key
            (sat_add u32_max (s.claimed_receive_count key) (advanced_count payout full unclaimed))
            s.claimed_receive_count;
      world = config.deposit_creating recipient payout s.world;
      events = stealth_reward_claimed recipient key payout unclaimed ∷ s.events;
    })
