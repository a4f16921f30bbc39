-- ===== src/Stealth/Claimed.antt =====
-- When a claim of the stealth rewards is accepted and what that does.
use anarchy.Base.{
  ℕ, ◌-◌, ◌≡◌, ◌≤◌, ◌<◌, ◌⊎◌, inl, inr, refl, true, false, arith, List, [], ◌∷◌, ltb, sat_add,
  u32_max, update, Bool-cases, sym, ◌∙◌, subst, ap, lt→ltb,
}
use anarchy.Base.Dispatch.{err, ok, err-ok, ok_same}
use anarchy.Stealth.{
  Config, State, stealth_reward_claimed, Error, Claim, compute_claim_amount, advanced_count,
  unclaimed_count, claim_amount, claim_stealth_reward, invalid_stealth_signature,
  invalid_correspondence_proof, no_unclaimed_receives, stealth_reward_pool_empty,
  claim_amount_too_small,
}

claim_amount_le :
    (unclaimed total pool cap : ℕ) → compute_claim_amount unclaimed total pool cap ≤ pool
unfolding compute_claim_amount
claim_amount_le unclaimed total pool cap = ground arith

advanced_bounds :
    (payout full unclaimed : ℕ)
    → 0 < unclaimed
    → (1 ≤ advanced_count payout full unclaimed)
      × (advanced_count payout full unclaimed ≤ unclaimed)
unfolding advanced_count
advanced_bounds payout full unclaimed h = (ground arith, ground arith)

module _ {World : Type 0} (config : Config World) where
  -- By how much an accepted claim moves the count of what is claimed.
  abbrev pub advance : (key : ℕ) → State World → ℕ
  advance key s =
      let unclaimed = unclaimed_count config key s in
      advanced_count (claim_amount config key s)
        (compute_claim_amount unclaimed s.total_received_count s.stealth_reward_pool 0) unclaimed

  none_left :
      (key : ℕ) (s : State World)
      → ltb 0 (unclaimed_count config key s) ≡ false
      → s.recipient_receive_count key ≤ s.claimed_receive_count key
  unfolding unclaimed_count
  none_left key s e = ground arith

  pub record Claims (recipient : ℕ) (c : Claim) (s t : State World) : Type 0 where
    pub signed :
        config.ed25519_verify c.signature
          (config.encode recipient c.ephemeral_pubkey)
          c.stealth_pubkey
        ≡ true
    pub corresponds :
        config.verify_correspondence c.ephemeral_pubkey c.stealth_pubkey c.correspondence_proof
        ≡ true
    pub unclaimed : 0 < unclaimed_count config c.ephemeral_pubkey s
    pub filled : 0 < s.stealth_reward_pool
    pub pays : 0 < claim_amount config c.ephemeral_pubkey s
    pub advance_bounds :
        (1 ≤ advance c.ephemeral_pubkey s)
        × (advance c.ephemeral_pubkey s ≤ unclaimed_count config c.ephemeral_pubkey s)
    pub result : t ≡ record s {
      stealth_reward_pool = s.stealth_reward_pool - claim_amount config c.ephemeral_pubkey s;
      claimed_receive_count =
          update c.ephemeral_pubkey
            (sat_add u32_max
              (s.claimed_receive_count c.ephemeral_pubkey)
              (advance c.ephemeral_pubkey s))
            s.claimed_receive_count;
      world = config.deposit_creating recipient (claim_amount config c.ephemeral_pubkey s) s.world;
      events =
          stealth_reward_claimed recipient c.ephemeral_pubkey
            (claim_amount config c.ephemeral_pubkey s)
            (unclaimed_count config c.ephemeral_pubkey s)
          ∷ s.events;
    }

  -- What each error says of the claim and the state; the others belong to transfers.
  pub Reason : (recipient : ℕ) → Claim → State World → Error → Type 0
  Reason recipient c s invalid_stealth_signature =
      config.ed25519_verify c.signature (config.encode recipient c.ephemeral_pubkey)
        c.stealth_pubkey
      ≡ false
  Reason recipient c s invalid_correspondence_proof =
      config.verify_correspondence c.ephemeral_pubkey c.stealth_pubkey c.correspondence_proof
      ≡ false
  Reason recipient c s no_unclaimed_receives =
      s.recipient_receive_count c.ephemeral_pubkey ≤ s.claimed_receive_count c.ephemeral_pubkey
  Reason recipient c s stealth_reward_pool_empty = s.stealth_reward_pool ≡ 0
  Reason recipient c s claim_amount_too_small = claim_amount config c.ephemeral_pubkey s ≡ 0
  Reason recipient c s e = ⊥

  -- A claim is accepted with the effects listed in `Claims`: the payout is taken from the pool and
  -- goes to the signer, and the count of what is claimed grows by at least one and at most what is
  -- unclaimed; or it is refused with an error whose reason holds.
  pub claim_stealth_reward-Claims :
      (recipient : ℕ) (c : Claim) (s : State World)
      → ((e : Error) × (claim_stealth_reward config recipient c s ≡ err e) × Reason recipient c s e)
        ⊎ ((t : State World) × (claim_stealth_reward config recipient c s ≡ ok t)
            × Claims recipient c s t)
  unfolding claim_stealth_reward Reason
  claim_stealth_reward-Claims recipient c s =
      let key = c.ephemeral_pubkey in
      elim (Bool-cases
        (config.ed25519_verify c.signature (config.encode recipient key) c.stealth_pubkey)) [
          | inr e ↦ inl (invalid_stealth_signature, rw e refl, e)
          | inl signed ↦
              elim (Bool-cases
                (config.verify_correspondence key c.stealth_pubkey c.correspondence_proof)) [
                  | inr e ↦ inl (invalid_correspondence_proof, rw (signed, e) refl, e)
                  | inl proved ↦ elim (Bool-cases (ltb 0 (unclaimed_count config key s))) [
                    | inr e ↦
                        inl (no_unclaimed_receives, rw (signed, proved, e) refl, none_left key s e)
                    | inl left ↦ elim (Bool-cases (ltb 0 s.stealth_reward_pool)) [
                      | inr e ↦ inl (
                        stealth_reward_pool_empty,
                        rw (signed, proved, left, e) refl,
                        ground arith,
                      )
                      | inl filled ↦ elim (Bool-cases (ltb 0 (claim_amount config key s))) [
                        | inr e ↦ inl (
                          claim_amount_too_small,
                          rw (signed, proved, left, filled, e) refl,
                          ground arith,
                        )
                        | inl pays ↦ inr (
                          _,
                          rw (signed, proved, left, filled, pays) refl,
                          record {
                            signed = signed;
                            corresponds = proved;
                            unclaimed = ground arith;
                            filled = ground arith;
                            pays = ground arith;
                            advance_bounds = advanced_bounds _ _ _ (ground arith);
                            result = refl;
                          },
                        )
                      ]
                    ]
                  ]
                ]
        ]

  claimed :
      (recipient : ℕ) (c : Claim) (s t : State World)
      → claim_stealth_reward config recipient c s ≡ ok t
      → Claims recipient c s t
  claimed recipient c s t h = elim (claim_stealth_reward-Claims recipient c s) [
    | inl (e, refused, _) ↦ absurd (err-ok (sym refused ∙ h))
    | inr (u, accepted, a) ↦ subst (λ v. Claims recipient c s v) (ok_same accepted h) a
  ]

  pub claim_amount-pool :
      (key : ℕ) (s : State World) → claim_amount config key s ≤ s.stealth_reward_pool
  unfolding claim_amount
  claim_amount-pool key s =
      claim_amount_le (unclaimed_count config key s) s.total_received_count s.stealth_reward_pool
        config.claim_cap_ppm

  -- Nothing binds the signer to the key: with a check of the correspondence that accepts everything,
  -- as in the runtime, whenever one account's claim of a key is accepted, any other account that can
  -- sign for some key pair of its own gets the same payout for the same key in its place.
  pub anyone_claims :
      (recipient other pubkey signature : ℕ) (c : Claim) (s t : State World)
      → ((key stealth : ℕ) (proof : List ℕ) → config.verify_correspondence key stealth proof ≡ true)
      → claim_stealth_reward config recipient c s ≡ ok t
      → config.ed25519_verify signature (config.encode other c.ephemeral_pubkey) pubkey ≡ true
      → (u : State World) × (claim_stealth_reward config other
            (record {
              ephemeral_pubkey = c.ephemeral_pubkey;
              stealth_pubkey = pubkey;
              signature = signature;
              correspondence_proof = [];
            })
            s
          ≡ ok u)
        × (u.world
            ≡ config.deposit_creating other (s.stealth_reward_pool - t.stealth_reward_pool) s.world)
        × (u.claimed_receive_count ≡ t.claimed_receive_count)
  unfolding claim_stealth_reward
  anyone_claims recipient other pubkey signature c s t open_ h signed =
      let a = claimed recipient c s t h in
      let amount = claim_amount config c.ephemeral_pubkey s in
      let taken : amount ≡ s.stealth_reward_pool - t.stealth_reward_pool =
        rw a.result (omega (arith, claim_amount-pool c.ephemeral_pubkey s)) in
      rw
        (
          signed,
          open_ c.ephemeral_pubkey pubkey [],
          lt→ltb _ _ a.unclaimed,
          lt→ltb _ _ a.filled,
          lt→ltb _ _ a.pays,
        )
        (_, refl, ap (λ x. config.deposit_creating other x s.world) taken, rw a.result refl)
