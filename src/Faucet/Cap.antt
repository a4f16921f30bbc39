-- ===== src/Faucet/Cap.antt =====
-- What the faucet gives out in all, and that the validation of a transaction agrees with its call.
use anarchy.Base.{
  ℕ, suc, ◌≡◌, ◌≤◌, ◌<◌, ◌⊎◌, inl, inr, refl, true, arith, min, none, List, [], ◌∷◌, Option-cases,
  Bool-cases, lookup, u64_max, u128_max, HasUniqueKeys, insert-HasUniqueKeys, total,
  total-insert_new,
}
use anarchy.Base.Dispatch.{ok, err, commit, Result-cases}
use anarchy.Faucet.{
  Config, State, FaucetClaimRecord, Error, token_error, claim, validate_claim_params, cap_allows,
  invalid_custom, valid_transaction, validate_unsigned, code_of,
}

-- What can happen to the faucet: a claim, a change of the other pallets, and the next block.
pub data Call (World : Type 0) : Type 0 where
  claim_call : (account block_number nonce : ℕ) → Call World
  others_act : World → Call World
  next_block : Call World

abbrev pub amount : FaucetClaimRecord → ℕ
amount r = r.amount

abbrev pub one : FaucetClaimRecord → ℕ
one r = 1

module _ {World : Type 0} (config : Config World) where
  unfoldable pub step : Call World → State World → State World
  step (claim_call account block nonce) s = commit s (claim config account block nonce s)
  step (others_act world) s = record s { world = world }
  step next_block s = record s { current_block = suc s.current_block }

  unfoldable pub run : List (Call World) → State World → State World
  unfolding step
  run [] s = s
  run (c ∷ cs) s = run cs (step c s)

  -- One claim to an account, the two totals are those of the claims, and a cap holds.
  pub record IsTallied (s : State World) : Type 0 where
    pub unique : HasUniqueKeys s.faucet_claims
    pub claims : s.total_claims ≡ min (total one s.faucet_claims) u64_max
    pub minted : s.total_minted ≡ min (total amount s.faucet_claims) u128_max
    pub capped : 0 < config.total_cap → s.total_minted ≤ config.total_cap

  -- What a validation has checked, of the two checks that the totals rest on.
  validated :
      (account block nonce : ℕ) (s : State World)
      → validate_claim_params config account block nonce s ≡ ok tt
      → (cap_allows config s ≡ true) × (lookup account s.faucet_claims ≡ none)
  unfolding validate_claim_params
  validated account block nonce s h = elim (Bool-cases (cap_allows config s)) [
    | inr e ↦ absurd (ground (arith, rw e at h))
    | inl open_ ↦ elim (Option-cases (lookup account s.faucet_claims)) [
      | inr (r, e) ↦ absurd (ground (arith, rw (open_, e) at h))
      | inl new ↦ (open_, new)
    ]
  ]

  claim-IsTallied :
      (account block nonce : ℕ) (s : State World)
      → IsTallied s
      → IsTallied (commit s (claim config account block nonce s))
  unfolding claim cap_allows
  claim-IsTallied account block nonce s t =
      elim (Result-cases (validate_claim_params config account block nonce s)) [
        | inl (e, refused) ↦ rw refused t
        | inr (u, valid) ↦
            elim (Option-cases (config.mint_into account config.reward_amount s.world)) [
              | inl refused ↦ rw (valid, refused) t
              | inr (w, minted) ↦
                  let (open_, new) = validated account block nonce s valid in
                  let r : FaucetClaimRecord = record {
                    block_number = block;
                    amount = config.reward_amount;
                  } in
                  rw (valid, minted)
                    (record {
                      unique = insert-HasUniqueKeys account r s.faucet_claims t.unique;
                      claims =
                          omega
                            (arith, t.claims, total-insert_new one account r s.faucet_claims new);
                      minted =
                          omega (
                            arith,
                            t.minted,
                            total-insert_new amount account r s.faucet_claims new,
                          );
                      capped = λ p. ground (arith, open_);
                    })
            ]
      ]

  -- Along any sequence of claims and blocks: every account has at most one claim, the counter and
  -- the total are those of the claims (up to the largest numbers), and with a cap that is not 0 the faucet never
  -- mints more than the cap.
  pub run-IsTallied :
      (cs : List (Call World)) (s : State World) → IsTallied s → IsTallied (run cs s)
  unfolding run step
  run-IsTallied [] s t = t
  run-IsTallied (claim_call account block nonce ∷ cs) s t =
      run-IsTallied cs _ (claim-IsTallied account block nonce s t)
  run-IsTallied (others_act world ∷ cs) s t =
      run-IsTallied cs (record s { world = world })
        (record { unique = t.unique; claims = t.claims; minted = t.minted; capped = t.capped })
  run-IsTallied (next_block ∷ cs) s t =
      run-IsTallied cs (record s { current_block = suc s.current_block })
        (record { unique = t.unique; claims = t.claims; minted = t.minted; capped = t.capped })

  -- In every state, the pool of transactions takes a claim exactly when the call itself gets as far
  -- as the mint; otherwise both refuse it, the pool with the code of the error that the call returns.
  pub validate_unsigned-claim :
      (account block nonce : ℕ) (s : State World)
      → ((validate_unsigned config account block nonce s
            ≡ valid_transaction account config.challenge_validity)
          × ((claim config account block nonce s ≡ err token_error)
              ⊎ ((t : State World) × (claim config account block nonce s ≡ ok t))))
        ⊎ ((e : Error) × (validate_unsigned config account block nonce s
              ≡ invalid_custom (code_of e))
            × (claim config account block nonce s ≡ err e))
  unfolding validate_unsigned claim
  validate_unsigned-claim account block nonce s =
      elim (Result-cases (validate_claim_params config account block nonce s)) [
        | inl (e, refused) ↦ inr (e, rw refused refl, rw refused refl)
        | inr (u, valid) ↦ inl (
          rw valid refl,
          elim (Option-cases (config.mint_into account config.reward_amount s.world)) [
            | inl refused ↦ inl (rw (valid, refused) refl)
            | inr (w, minted) ↦ inr (rw (valid, minted) (_, refl))
          ],
        )
      ]
