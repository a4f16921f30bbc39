-- ===== src/Stealth/Covered.antt =====
-- What is claimed and paid of the stealth rewards in all.
use anarchy.Base.{
  ℕ, suc, ◌+◌, ◌≤◌, inl, inr, arith, List, [], ◌∷◌, ◌==◌, ltb, if◌then◌else◌, u32_max, Bool-cases,
  length,
}
use anarchy.Base.Dispatch.{commit, Result-cases}
use anarchy.Stealth.{
  Config, State, Event, transferred, stealth_reward_deposit, recipient_receive_counted,
  stealth_reward_claimed, Claim, unclaimed_count, claim_stealth_reward, send_to_stealth,
  deposit_to_reward_pool, record_recipient_receive,
}
use anarchy.Stealth.Claimed.{claim_stealth_reward-Claims, claim_amount-pool}
use anarchy.Stealth.Run.{
  Call, dispatch, step, run, send_call, claim_call, deposit_by_messaging, receive_by_messaging,
  others_act, next_block,
}

-- How many receipts of a key were recorded, and how many claims of it were paid.
unfoldable pub receipts : (key : ℕ) → List Event → ℕ
receipts key [] = 0
receipts key (recipient_receive_counted k n ∷ es) =
    let rest = receipts key es in if k == key then suc rest else rest
receipts key (e ∷ es) = receipts key es

unfoldable pub claims : (key : ℕ) → List Event → ℕ
claims key [] = 0
claims key (stealth_reward_claimed who k amount n ∷ es) =
    let rest = claims key es in if k == key then suc rest else rest
claims key (e ∷ es) = claims key es

-- What was deposited in all, and what was paid.
unfoldable pub deposited : List Event → ℕ
deposited [] = 0
deposited (stealth_reward_deposit amount ∷ es) = amount + deposited es
deposited (e ∷ es) = deposited es

unfoldable pub paid : List Event → ℕ
paid [] = 0
paid (stealth_reward_claimed who k amount n ∷ es) = amount + paid es
paid (e ∷ es) = paid es

-- Every claim that was paid used up at least one receipt of its key, and the pool with what was paid
-- is at most what was deposited.
pub record IsCovered {World : Type 0} (s : State World) : Type 0 where
  pub used : (key : ℕ) → claims key s.events ≤ s.claimed_receive_count key
  pub claimed : (key : ℕ) → s.claimed_receive_count key ≤ s.recipient_receive_count key
  pub received : (key : ℕ) → s.recipient_receive_count key ≤ receipts key s.events
  pub small : (key : ℕ) → s.recipient_receive_count key ≤ u32_max
  pub total : (key : ℕ) → s.recipient_receive_count key ≤ s.total_received_count
  pub funded : s.stealth_reward_pool + paid s.events ≤ deposited s.events

module _ {World : Type 0} (config : Config World) where
  claim_stealth_reward-IsCovered :
      (recipient : ℕ) (c : Claim) (s : State World)
      → IsCovered s
      → IsCovered (commit s (claim_stealth_reward config recipient c s))
  unfolding claims receipts deposited paid unclaimed_count
  claim_stealth_reward-IsCovered recipient c s v =
      elim (claim_stealth_reward-Claims config recipient c s) [
        | inl (e, refused, _) ↦ rw refused v
        | inr (t, accepted, a) ↦
            rw (accepted, a.result)
              (record {
                used =
                    λ key. ground (arith, v.used key, v.small key, a.advance_bounds, v.claimed key);
                claimed = λ key. ground (arith, v.claimed key, a.advance_bounds);
                received = v.received;
                small = v.small;
                total = v.total;
                funded = omega (arith, v.funded, claim_amount-pool config c.ephemeral_pubkey s);
              })
      ]

  send_to_stealth-IsCovered :
      (sender address key amount : ℕ) (s : State World)
      → IsCovered s
      → IsCovered (commit s (send_to_stealth config sender address key amount s))
  unfolding send_to_stealth claims receipts deposited paid
  send_to_stealth-IsCovered sender address key amount s v = elim (Bool-cases (ltb 0 amount)) [
    | inr e ↦ rw e v
    | inl positive ↦
        elim (Result-cases (transferred (config.transfer sender address amount s.world))) [
          | inl (e, refused) ↦ rw (positive, refused) v
          | inr (w, moved) ↦
              elim (Bool-cases
                (ltb (length (s.ephemeral_keys s.block_number)) config.max_entries_per_block)) [
                  | inr e ↦ rw (positive, moved, e) v
                  | inl room ↦
                      rw (positive, moved, room)
                        (record {
                          used = v.used;
                          claimed = v.claimed;
                          received = v.received;
                          small = v.small;
                          total = v.total;
                          funded = v.funded;
                        })
                ]
        ]
  ]

  step-IsCovered : (c : Call World) (s : State World) → IsCovered s → IsCovered (step config c s)
  unfolding dispatch deposit_to_reward_pool record_recipient_receive claims receipts deposited paid
  step-IsCovered (send_call sender address key amount) s v =
      send_to_stealth-IsCovered sender address key amount s v
  step-IsCovered (claim_call recipient c) s v = claim_stealth_reward-IsCovered recipient c s v
  step-IsCovered (deposit_by_messaging amount) s v = elim (Bool-cases (amount == 0)) [
    | inl e ↦ rw e v
    | inr e ↦ rw e (record {
      used = v.used;
      claimed = v.claimed;
      received = v.received;
      small = v.small;
      total = v.total;
      funded = omega (arith, v.funded);
    })
  ]
  step-IsCovered (receive_by_messaging key) s v = record {
    used = v.used;
    claimed = λ k. ground (arith, v.claimed k, v.small k);
    received = λ k. ground (arith, v.received k);
    small = λ k. ground (arith, v.small k);
    total = λ k. ground (arith, v.total k, v.small k);
    funded = v.funded;
  }
  step-IsCovered (others_act world) s v = record {
    used = v.used;
    claimed = v.claimed;
    received = v.received;
    small = v.small;
    total = v.total;
    funded = v.funded;
  }
  step-IsCovered next_block s v = record {
    used = v.used;
    claimed = v.claimed;
    received = v.received;
    small = v.small;
    total = v.total;
    funded = v.funded;
  }

  -- Along any sequence of calls, receipts, deposits and blocks: a key has never more paid claims than
  -- recorded receipts, what is claimed of a key is at most what it received, and the pool together
  -- with all payouts is at most what was deposited.
  pub run-IsCovered :
      (cs : List (Call World)) (s : State World) → IsCovered s → IsCovered (run config cs s)
  unfolding run
  run-IsCovered [] s v = v
  run-IsCovered (c ∷ cs) s v = run-IsCovered cs (step config c s) (step-IsCovered c s v)
