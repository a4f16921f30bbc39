-- ===== src/Faucet.antt =====
-- The faucet (apps/blockchain/pallets/faucet/src/lib.rs): the unsigned call `claim`, the validation of
-- the transaction that carries it, and the difficulty of its proof of work.
pub mod Cap
pub mod Difficulty
mod Tests
use anarchy.Base.{
  ℕ, zero, suc, ◌+◌, ◌-◌, ◌/◌, ◌%◌, Bool, Option, none, some, List, [], ◌∷◌, ltb, leb, ◌==◌,
  if◌then◌else◌, not, ◌||◌, min, sat_add, u8_max, u32_max, u64_max, u128_max, Table, lookup, insert,
  is_some,
}
use anarchy.Base.Dispatch.{Result, ok, err, ◌>>=◌, ◌>>◌, ensure, ok_or}
use anarchy.ProofOfWork.{compute_challenge, verify_proof}
use anarchy.Reaction.{is_default}

-- The constants, and what is called of the system and of the token, whose state is `World`.
pub record Config (World : Type 0) : Type 0 where
  pub base_difficulty : ℕ
  pub difficulty_scaling_factor : ℕ
  pub max_difficulty : ℕ
  pub reward_amount : ℕ
  pub challenge_validity : ℕ
  pub total_cap : ℕ
  -- `none` when the token refuses the mint.
  pub mint_into : (who amount : ℕ) → World → Option World
  pub block_hash : ℕ → World → List ℕ
  pub encode : ℕ → List ℕ
  pub blake2_256 : List ℕ → List ℕ

pub record FaucetClaimRecord : Type 0 where
  pub block_number : ℕ
  pub amount : ℕ

pub data Event : Type 0 where
  faucet_claimed : (who amount block_number : ℕ) → Event

-- `ClaimValidationError`, and the error of a mint that the token refuses.
pub data Error : Type 0 where
  already_claimed challenge_expired invalid_proof block_not_found cap_reached : Error
  token_error : Error

pub record State (World : Type 0) : Type 0 where
  pub faucet_claims : Table FaucetClaimRecord
  pub total_claims : ℕ
  pub total_minted : ℕ
  pub current_block : ℕ
  pub world : World
  pub events : List Event

-- The number of bits up to the highest one, for a number of at most as many bits as rounds.
unfoldable pub bit_length : (rounds : ℕ) → ℕ → ℕ
bit_length zero n = 0
bit_length (suc rounds) n = let rest = bit_length rounds (n / 2) in if n == 0 then 0 else suc rest

-- `u64::leading_zeros`
unfoldable pub leading_zeros : ℕ → ℕ
leading_zeros n = 64 - bit_length 64 n

module _ {World : Type 0} (config : Config World) where
  unfoldable pub calculate_difficulty : (total_claims : ℕ) → ℕ
  calculate_difficulty total_claims =
      if config.difficulty_scaling_factor == 0
      then min config.base_difficulty config.max_difficulty
      else let ratio = sat_add u64_max 1 (total_claims / config.difficulty_scaling_factor) in
        let log2_value = (64 - leading_zeros ratio) % 256 in
        min (sat_add u8_max config.base_difficulty (log2_value - 1)) config.max_difficulty

  unfoldable pub cap_allows : State World → Bool
  cap_allows s =
      config.total_cap == 0
      || not (ltb config.total_cap (sat_add u128_max s.total_minted config.reward_amount))

  unfoldable pub validate_claim_params :
      (account block_number nonce : ℕ) → State World → Result Error (Unit {0})
  unfolding cap_allows is_default
  validate_claim_params account block nonce s = do
    ensure (cap_allows s) cap_reached
    ensure (not (is_some (lookup account s.faucet_claims))) already_claimed
    ensure (leb s.current_block (sat_add u32_max block config.challenge_validity)) challenge_expired
    let hash = config.block_hash block s.world
    ensure (not (is_default hash)) block_not_found
    ensure
        (verify_proof config.blake2_256
          (compute_challenge config.blake2_256 hash (config.encode account)) nonce
          (calculate_difficulty s.total_claims))
        invalid_proof

  unfoldable pub claim : (account block_number nonce : ℕ) → State World → Result Error (State World)
  unfolding validate_claim_params
  claim account block nonce s = do
    validate_claim_params account block nonce s
    minted ← ok_or (config.mint_into account config.reward_amount s.world) token_error
    ok (record s {
      world = minted;
      faucet_claims =
          insert account (record { block_number = block; amount = config.reward_amount })
            s.faucet_claims;
      total_claims = sat_add u64_max s.total_claims 1;
      total_minted = sat_add u128_max s.total_minted config.reward_amount;
      events = faucet_claimed account config.reward_amount block ∷ s.events;
    })

-- What the transaction pool is told of a `claim`: the custom code of the error, or the account that
-- the transaction provides and its longevity.
pub data TransactionValidity : Type 0 where
  invalid_custom : (code : ℕ) → TransactionValidity
  valid_transaction : (provides longevity : ℕ) → TransactionValidity

-- The last code is never used: the validation does not mint.
abbrev pub code_of : Error → ℕ
code_of already_claimed = 1
code_of challenge_expired = 2
code_of block_not_found = 3
code_of invalid_proof = 4
code_of cap_reached = 5
code_of token_error = 0

abbrev pub validity_of :
    (account challenge_validity : ℕ) → Result Error (Unit {0}) → TransactionValidity
validity_of account validity (err e) = invalid_custom (code_of e)
validity_of account validity (ok _) = valid_transaction account validity

unfoldable pub validate_unsigned :
    {World : Type 0}
    → Config World
    → (account block_number nonce : ℕ) → State World
    → TransactionValidity
unfolding validate_claim_params
validate_unsigned config account block nonce s =
    validity_of account config.challenge_validity
      (validate_claim_params config account block nonce s)
