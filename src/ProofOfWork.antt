-- ===== src/ProofOfWork.antt =====
-- The proof of work that reactions and the faucet ask for
-- (apps/blockchain/primitives/pow/src/lib.rs). The hash is a parameter, and the count of leading
-- zero bits is the one of the storage pallet, which has the same code.
use anarchy.Base.{ℕ, Bool, List, ◌++◌, leb}
use anarchy.Storage.Pow.{to_le_bytes, count_leading_zero_bits}

unfoldable pub compute_challenge : (List ℕ → List ℕ) → (block_hash account_bytes : List ℕ) → List ℕ
compute_challenge blake2_256 block_hash account_bytes = blake2_256 (block_hash ++ account_bytes)

unfoldable pub verify_proof :
    (List ℕ → List ℕ) → (challenge : List ℕ) → (nonce difficulty : ℕ) → Bool
unfolding to_le_bytes count_leading_zero_bits
verify_proof blake2_256 challenge nonce difficulty =
    leb difficulty (count_leading_zero_bits (blake2_256 (challenge ++ to_le_bytes 8 nonce)))
