-- ===== src/Faucet/Tests.antt =====
-- The theorems on the faucet at a cap of two and a half rewards.
use anarchy.Base.{ℕ, ◌+◌, ◌≡◌, refl, arith, some, List, [], ◌∷◌}
use anarchy.Faucet.{Config, State, claim, calculate_difficulty, bit_length, leading_zeros}
use anarchy.ProofOfWork.{verify_proof}
use anarchy.Faucet.Cap.{Call, claim_call, next_block, run, IsTallied, run-IsTallied}

abbrev config : Config ℕ
config = record {
  base_difficulty = 10;
  difficulty_scaling_factor = 100;
  max_difficulty = 16;
  reward_amount = 100;
  challenge_validity = 50;
  total_cap = 250;
  mint_into = λ who amount issued. some (issued + amount);
  block_hash = λ block issued. 1 ∷ [];
  encode = λ who. who ∷ [];
  blake2_256 = λ bytes. 0 ∷ 0 ∷ 0 ∷ [];
}

abbrev start : State ℕ
start = record {
  faucet_claims = [];
  total_claims = 0;
  total_minted = 0;
  current_block = 20;
  world = 0;
  events = [];
}

-- The third claim would exceed the cap.
abbrev calls : List (Call ℕ)
calls = claim_call 1 15 7 ∷ claim_call 2 15 7 ∷ next_block ∷ claim_call 3 15 7 ∷ []

start-IsTallied : IsTallied config start
start-IsTallied = record { unique = tt; claims = refl; minted = refl; capped = λ p. omega arith }

run-IsTallied_example : IsTallied config (run config calls start)
run-IsTallied_example = run-IsTallied config calls start start-IsTallied

two_paid : (run config calls start).world ≡ 200
unfolding run claim verify_proof calculate_difficulty leading_zeros bit_length
two_paid = refl

at_500 : calculate_difficulty config 500 ≡ 12
unfolding calculate_difficulty leading_zeros bit_length
at_500 = refl
