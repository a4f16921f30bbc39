-- ===== src/Storage/Pow.antt =====
-- Proof of work for node registration (apps/blockchain/pallets/storage/src/pow.rs) and the rate
-- limits (rate_limit.rs). The hash is a parameter.
use anarchy.Base.{
  ℕ, zero, suc, ◌/◌, ◌%◌, Bool, true, false, List, [], ◌∷◌, ◌++◌, ltb, leb, ◌==◌, if◌then◌else◌,
  min, sat_add, u8_max, u32_max,
}

abbrev pub max_difficulty : ℕ
max_difficulty = 24

pub data PowResult : Type 0 where
  valid insufficient_difficulty : PowResult

-- The quotient is cast to `u8`, which keeps its low eight bits.
unfoldable pub calculate_difficulty : ℕ → ℕ → ℕ
calculate_difficulty recent_registrations base_difficulty =
    let additional = recent_registrations / 5 % 256 in
    min (sat_add u8_max base_difficulty additional) max_difficulty

-- `u8::leading_zeros`
unfoldable pub leading_zeros : ℕ → ℕ
leading_zeros b =
    if ltb b 1
    then 8
    else (if ltb b 2
        then 7
        else (if ltb b 4
            then 6
            else (if ltb b 8
                then 5
                else (if ltb b 16
                    then 4
                    else (if ltb b 32
                        then 3
                        else (if ltb b 64 then 2 else (if ltb b 128 then 1 else 0)))))))

-- The loop over the bytes, with the count so far.
unfoldable pub count_from : ℕ → List ℕ → ℕ
count_from count [] = count
count_from count (byte ∷ rest) =
    let next = count_from (sat_add u8_max count 8) rest in
    if byte == 0 then next else sat_add u8_max count (leading_zeros byte)

unfoldable pub count_leading_zero_bits : List ℕ → ℕ
unfolding count_from leading_zeros
count_leading_zero_bits hash = count_from 0 hash

-- `u64::to_le_bytes`, the low byte first.
unfoldable pub to_le_bytes : ℕ → ℕ → List ℕ
to_le_bytes zero n = []
to_le_bytes (suc k) n = n % 256 ∷ to_le_bytes k (n / 256)

unfoldable pub compute_pow_hash : (List ℕ → List ℕ) → List ℕ → ℕ → List ℕ
unfolding to_le_bytes
compute_pow_hash blake2_256 peer_id nonce = blake2_256 (peer_id ++ to_le_bytes 8 nonce)

unfoldable pub verify_pow : (List ℕ → List ℕ) → List ℕ → ℕ → ℕ → PowResult
unfolding compute_pow_hash count_leading_zero_bits
verify_pow blake2_256 peer_id nonce difficulty =
    if leb difficulty (count_leading_zero_bits (compute_pow_hash blake2_256 peer_id nonce))
    then valid
    else insufficient_difficulty

abbrev pub is_valid : PowResult → Bool
is_valid valid = true
is_valid insufficient_difficulty = false

unfoldable pub can_register_node : ℕ → ℕ → Bool
can_register_node current_count max_per_block = ltb current_count max_per_block

unfoldable pub can_declare_holding : ℕ → ℕ → Bool
can_declare_holding current_count max_per_block_per_node = ltb current_count max_per_block_per_node

unfoldable pub increment_registration_count : ℕ → ℕ
increment_registration_count current_count = sat_add u32_max current_count 1

unfoldable pub increment_declaration_count : ℕ → ℕ
increment_declaration_count current_count = sat_add u32_max current_count 1
