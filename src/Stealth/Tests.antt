-- ===== src/Stealth/Tests.antt =====
-- The theorems on the stealth rewards at a chain where a signature is the sum of key and message.
use anarchy.Base.{
  ℕ, ◌+◌, ◌*◌, ◌-◌, ◌≡◌, ◌≤◌, ◌<◌, ◌⊎◌, refl, arith, true, ◌==◌, List, [], ◌∷◌, if◌then◌else◌,
}
use anarchy.Base.Dispatch.{ok, err, commit}
use anarchy.Stealth.{
  Config, State, Error, Claim, claim_stealth_reward, compute_claim_amount, advanced_count,
}
use anarchy.Stealth.Run.{
  Call, run, claim_call, deposit_by_messaging, receive_by_messaging, next_block,
}
use anarchy.Stealth.Claimed.{Reason, Claims, claim_stealth_reward-Claims, anyone_claims}
use anarchy.Stealth.Covered.{IsCovered, receipts, claims, deposited, paid, run-IsCovered}
use anarchy.Stealth.Amount.{compute_claim_amount_bounds}

abbrev first : List ℕ → ℕ
first [] = 0
first (x ∷ xs) = x

-- The check of the correspondence accepts everything, as in the runtime.
abbrev config : Config ℕ
config = record {
  max_entries_per_block = 10;
  claim_cap_ppm = 100_000;
  transfer = λ sender recipient amount money. ok money;
  deposit_creating = λ who amount money. money + amount;
  encode = λ who key. (who + key) ∷ [];
  ed25519_verify = λ signature message public. signature == first message + public;
  verify_correspondence = λ key stealth proof. true;
}

abbrev start : State ℕ
start = record {
  ephemeral_keys = λ block. [];
  stealth_reward_pool = 0;
  recipient_receive_count = λ key. 0;
  total_received_count = 0;
  claimed_receive_count = λ key. 0;
  block_number = 5;
  world = 0;
  events = [];
}

abbrev claim : Claim
claim = record {
  ephemeral_pubkey = 31;
  stealth_pubkey = 60;
  signature = 95;
  correspondence_proof = [];
}

abbrev calls : List (Call ℕ)
calls =
    deposit_by_messaging 1_000
    ∷ receive_by_messaging 31
    ∷ receive_by_messaging 31
    ∷ receive_by_messaging 8
    ∷ receive_by_messaging 31
    ∷ next_block
    ∷ claim_call 4 claim
    ∷ []

-- Four receipts, three of them of the key 31.
abbrev filled : State ℕ
filled = record {
  ephemeral_keys = λ block. [];
  stealth_reward_pool = 1_000;
  recipient_receive_count = λ key. if key == 31 then 3 else 0;
  total_received_count = 4;
  claimed_receive_count = λ key. 0;
  block_number = 6;
  world = 0;
  events = [];
}

abbrev claimed : State ℕ
claimed = commit filled (claim_stealth_reward config 4 claim filled)

claims_it : claim_stealth_reward config 4 claim filled ≡ ok claimed
unfolding claim_stealth_reward compute_claim_amount advanced_count
claims_it = refl

-- The share is 750, the cap 100: the claim uses up one of three receipts.
paid_out : claimed.world ≡ 100
unfolding claim_stealth_reward compute_claim_amount advanced_count
paid_out = refl

one_used : claimed.claimed_receive_count 31 ≡ 1
unfolding claim_stealth_reward compute_claim_amount advanced_count
one_used = refl

start-IsCovered : IsCovered start
unfolding receipts claims deposited paid
start-IsCovered = record {
  used = λ key. omega arith;
  claimed = λ key. omega arith;
  received = λ key. omega arith;
  small = λ key. omega arith;
  total = λ key. omega arith;
  funded = omega arith;
}

run-IsCovered_example : IsCovered (run config calls start)
run-IsCovered_example = run-IsCovered config calls start start-IsCovered

claim_stealth_reward-Claims_example :
    ((e : Error) × (claim_stealth_reward config 4 claim filled ≡ err e)
      × Reason config 4 claim filled e)
    ⊎ ((t : State ℕ) × (claim_stealth_reward config 4 claim filled ≡ ok t)
        × Claims config 4 claim filled t)
claim_stealth_reward-Claims_example = claim_stealth_reward-Claims config 4 claim filled

-- The account 9 signs for its own key pair 70.
anyone_claims_example :
    (u : State ℕ) × (claim_stealth_reward config 9
        (record {
          ephemeral_pubkey = 31;
          stealth_pubkey = 70;
          signature = 110;
          correspondence_proof = [];
        })
        filled
      ≡ ok u)
    × (u.world ≡ 0 + (1_000 - claimed.stealth_reward_pool))
    × (u.claimed_receive_count ≡ claimed.claimed_receive_count)
anyone_claims_example =
    anyone_claims config 4 9 70 110 claim filled claimed (λ key stealth proof. refl) claims_it refl

compute_claim_amount_bounds_example :
    (compute_claim_amount 3 4 1_000 100_000 * 4 ≤ 1_000 * 3)
    × (compute_claim_amount 3 4 1_000 100_000 ≤ 1_000)
    × (0 < 100_000 → compute_claim_amount 3 4 1_000 100_000 * 1_000_000 ≤ 1_000 * 100_000)
compute_claim_amount_bounds_example = compute_claim_amount_bounds 3 4 1_000 100_000
