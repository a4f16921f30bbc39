-- ===== src/Storage/Tests/Proofs.antt =====
-- The theorems on challenges, proofs and claims at a fragment with four holders.
use anarchy.Base.{
  List, [], ◌∷◌, contains, ℕ, ◌≡◌, refl, arith, ◌||◌, leb, min, ◌+◌, u32_max, none, some,
}
use anarchy.Base.Dispatch.{ok, commit}
use anarchy.Storage.Types.{State, Challenge, genesis}
use anarchy.Storage.Challenges.{
  issue_challenge, prove_holding_kzg, claim_reward, on_finalize, expire_challenge,
}
use anarchy.Storage.Deadlines.{expire_challenge_strikes}
use anarchy.Storage.Stale.{blocks, blocks-number, stale_deadline_expires}
use anarchy.Storage.Run.{
  Call, dispatch, step, run, end_block, prove_holding_kzg_call, issue_challenge_call,
}
use anarchy.Storage.Payouts.{Pays, claim_reward-Pays}
use anarchy.Rewards.{calculate_reward_v3, root, sqrt_ppm, scaled_sqrt}
use anarchy.Storage.Tests.{env, bytes, held}

abbrev first : State ℕ ℕ
first = commit held (issue_challenge env 1 7 11 1 held)

issued : issue_challenge env 1 7 11 1 held ≡ ok first
unfolding issue_challenge contains
issued = refl

-- The first challenge is met, and the share is challenged again a block later.
abbrev second : State ℕ ℕ
second =
    run env
      (prove_holding_kzg_call 11 7 1 (bytes 32) (bytes 48)
        ∷ end_block
        ∷ issue_challenge_call 2 7 12 1
        ∷ [])
      first

reissued :
    second.pending_challenges 7 1
    ≡ some (record {
      content_hash = 7;
      share_index = 1;
      challenged_node = 12;
      issued_at = 51;
      deadline = 151;
    })
unfolding run dispatch prove_holding_kzg issue_challenge on_finalize contains calculate_reward_v3
    root sqrt_ppm scaled_sqrt
reissued = refl

at_51 : second.block_number ≡ 51
unfolding run dispatch prove_holding_kzg issue_challenge on_finalize contains calculate_reward_v3
    root sqrt_ppm scaled_sqrt
at_51 = refl

at_150 : (run env (blocks env 99) second).block_number ≡ 150
at_150 = omega (arith, at_51, blocks-number env 99 second)

abbrev again : List (Call ℕ ℕ)
again =
    prove_holding_kzg_call 11 7 1 (bytes 32) (bytes 48)
    ∷ end_block
    ∷ issue_challenge_call 2 7 12 1
    ∷ blocks env 99

stale_deadline_expires_example :
    (step env end_block (run env again first)).pending_challenges 7 1 ≡ none
unfolding run
stale_deadline_expires_example =
    stale_deadline_expires env 1 7 11 1 held first again issued (omega arith) at_150

abbrev challenge : Challenge
challenge = record {
  content_hash = 7;
  share_index = 1;
  challenged_node = 11;
  issued_at = 50;
  deadline = 150;
}

expire_challenge_strikes_example :
    let r = first.proof_records 7 11 in
    let t = expire_challenge env 7 1 challenge first in
    (t.pending_challenges 7 1 ≡ none)
    × ((t.proof_records 7 11).failure_count ≡ min (r.failure_count + 1) u32_max)
    × ((t.proof_records 7 11).slashed ≡ (r.slashed || leb 2 r.failure_count))
expire_challenge_strikes_example = expire_challenge_strikes env 7 1 challenge first

pending_first : first.pending_challenges 7 1 ≡ some challenge
unfolding issue_challenge contains
pending_first = refl

abbrev claimed : State ℕ ℕ
claimed = commit held (claim_reward env 11 held)

claims : claim_reward env 11 held ≡ ok claimed
unfolding claim_reward
claims = refl

claim_reward-Pays_example :
    Pays env 11 held claimed (min (held.pending_rewards 11) held.reward_pool_balance)
claim_reward-Pays_example = claim_reward-Pays env 11 held claims

abbrev broke : State ℕ ℕ
broke = genesis 100 0 0
