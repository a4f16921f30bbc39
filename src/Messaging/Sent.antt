-- ===== src/Messaging/Sent.antt =====
-- When a message is sent and what that does; and for what reason it is refused.
use anarchy.Base.{
  ℕ, ◌+◌, ◌*◌, ◌%◌, ◌^◌, ◌≡◌, ◌≤◌, ◌<◌, ◌⊎◌, inl, inr, refl, true, false, ◌&&◌, not, arith, none,
  some, Option-cases, Bool-cases, is_some, u64_max, u128_max, ltb, leb, ◌==◌, length, ◌++◌, [], ◌∷◌,
  update, contains, sym, ◌∙◌, subst,
}
use anarchy.Base.Dispatch.{ok, err, err-ok, ok_same}
use anarchy.Messaging.{
  Config, State, Message, Error, reception_key_not_published, invalid_padding_bucket,
  duplicate_content, too_many_dispatches_in_block, invalid_kn_parameters,
  insufficient_stealth_balance, invalid_meta_address, cost_calculation_overflow, dm_dispatched,
  dm_padding_buckets, check_message, message_cost, checked_add, checked_mul, distribute,
  dispatch_of, send_dm,
}

module _ {World : Type 0} (config : Config World) where
  -- The cost of a message in numbers without a bound: what the pools share, and with the base fee.
  abbrev pub shared_cost : Message → ℕ
  shared_cost m = config.dm_base_cost + m.ciphertext_len * config.dm_byte_cost

  abbrev pub full_cost : Message → World → ℕ
  full_cost m world = shared_cost m + m.ciphertext_len * config.current_base_fee world

  -- What each error says of the message and the state.
  pub Reason : (who : ℕ) → Message → State World → Error → Type 0
  Reason who m s invalid_kn_parameters = (m.k ≡ 0) ⊎ ((m.n < m.k) ⊎ (255 < m.n))
  Reason who m s invalid_padding_bucket =
      (contains m.ciphertext_len dm_padding_buckets ≡ false)
      ⊎ (config.max_dm_ciphertext_len < m.ciphertext_len)
  Reason who m s invalid_meta_address = m.ephemeral_pubkey ≡ 0
  Reason who m s duplicate_content = is_some (s.dm_messages_by_root m.merkle_root) ≡ true
  Reason who m s too_many_dispatches_in_block =
      config.max_dispatches_per_block ≤ length (s.dm_dispatches_by_block s.block_number)
  Reason who m s cost_calculation_overflow =
      (u128_max < full_cost m s.world) ⊎ (u64_max ≤ s.next_message_id)
  Reason who m s insufficient_stealth_balance =
      config.burn_from who (full_cost m s.world) s.world ≡ none
  Reason who m s reception_key_not_published = ⊥

  -- What the arguments of a message must be.
  pub record Passes (m : Message) : Type 0 where
    pub shares : (0 < m.k) × ((m.k ≤ m.n) × (m.n ≤ 255))
    pub bucket : contains m.ciphertext_len dm_padding_buckets ≡ true
    pub short : m.ciphertext_len ≤ config.max_dm_ciphertext_len
    pub key : 0 < m.ephemeral_pubkey

  -- The checks that a message has passed, and its effects.
  pub record Sends (who : ℕ) (m : Message) (s t : State World) : Type 0 where
    pub passed : Passes m
    pub number : s.next_message_id < u64_max
    pub new_root : s.dm_messages_by_root m.merkle_root ≡ none
    pub fits : full_cost m s.world ≤ u128_max
    pub burnt : World
    pub burns : config.burn_from who (full_cost m s.world) s.world ≡ some burnt
    pub room : length (s.dm_dispatches_by_block s.block_number) < config.max_dispatches_per_block
    pub result : t ≡ record s {
      next_message_id = s.next_message_id + 1;
      dm_dispatches_by_block =
          update s.block_number
            (s.dm_dispatches_by_block s.block_number ++ dispatch_of m ∷ [])
            s.dm_dispatches_by_block;
      dm_messages_by_root = update m.merkle_root (some s.next_message_id) s.dm_messages_by_root;
      world = distribute config (shared_cost m) m burnt;
      events =
          dm_dispatched s.next_message_id s.block_number m.recipient_stealth m.ephemeral_pubkey
            m.merkle_root
          ∷ s.events;
    }

  check_message-cases :
      (who : ℕ) (m : Message) (s : State World)
      → ((e : Error) × (check_message config m s ≡ err e) × Reason who m s e)
        ⊎ ((check_message config m s ≡ ok tt)
            × (s.dm_messages_by_root m.merkle_root ≡ none)
            × Passes m)
  unfolding check_message Reason
  check_message-cases who m s = elim (Bool-cases (ltb 0 m.k && (leb m.k m.n && leb m.n 255))) [
    | inr e ↦ inl (invalid_kn_parameters, rw e refl, ground arith)
    | inl kn ↦
        elim (Bool-cases (
          contains m.ciphertext_len dm_padding_buckets
          && leb m.ciphertext_len config.max_dm_ciphertext_len)) [
            | inr e ↦ inl (invalid_padding_bucket, rw (kn, e) refl, ground arith)
            | inl bucket ↦ elim (Bool-cases (not (m.ephemeral_pubkey == 0))) [
              | inr e ↦ inl (invalid_meta_address, rw (kn, bucket, e) refl, ground arith)
              | inl key ↦ elim (Option-cases (s.dm_messages_by_root m.merkle_root)) [
                | inr (id, e) ↦ inl (duplicate_content, rw (kn, bucket, key, e) refl, rw e refl)
                | inl new_root ↦
                    elim (Bool-cases (
                      ltb (length (s.dm_dispatches_by_block s.block_number) % 2 ^ 32)
                        config.max_dispatches_per_block)) [
                          | inr full ↦ inl (
                            too_many_dispatches_in_block,
                            rw (kn, bucket, key, new_root, full) refl,
                            ground arith,
                          )
                          | inl room ↦ inr (
                            rw (kn, bucket, key, new_root, room) refl,
                            new_root,
                            record {
                              shares =
                                  (ground (arith, kn), (ground (arith, kn), ground (arith, kn)));
                              bucket = ground (arith, bucket);
                              short = ground (arith, bucket);
                              key = ground (arith, key);
                            },
                          )
                        ]
              ]
            ]
          ]
  ]

  message_cost-cases :
      (m : Message) (world : World)
      → ((message_cost config m.ciphertext_len world ≡ err cost_calculation_overflow)
          × (u128_max < full_cost m world))
        ⊎ ((message_cost config m.ciphertext_len world
              ≡ ok (record { pre_total = shared_cost m; total_cost = full_cost m world }))
            × (full_cost m world ≤ u128_max))
  unfolding message_cost checked_add checked_mul
  message_cost-cases m world =
      let bytes = m.ciphertext_len * config.dm_byte_cost in
      let fee = m.ciphertext_len * config.current_base_fee world in
      elim (Bool-cases (ltb u128_max bytes)) [
        | inl e ↦ inl (rw e refl, ground arith)
        | inr a ↦ elim (Bool-cases (ltb u128_max fee)) [
          | inl e ↦ inl (rw (a, e) refl, ground arith)
          | inr b ↦ elim (Bool-cases (ltb u128_max (config.dm_base_cost + bytes))) [
            | inl e ↦ inl (rw (a, b, e) refl, ground arith)
            | inr c ↦ elim (Bool-cases (ltb u128_max (config.dm_base_cost + bytes + fee))) [
              | inl e ↦ inl (rw (a, b, c, e) refl, ground arith)
              | inr d ↦ inr (rw (a, b, c, d) refl, ground arith)
            ]
          ]
        ]
      ]

  -- A message is sent after all the checks and with the effects that `Sends` lists, or refused with
  -- an error whose reason holds; that the recipient has published no key is never the reason.
  pub send_dm-Sends :
      (who : ℕ) (m : Message) (s : State World)
      → ((e : Error) × (send_dm config who m s ≡ err e) × Reason who m s e)
        ⊎ ((t : State World) × (send_dm config who m s ≡ ok t) × Sends who m s t)
  unfolding send_dm checked_add Reason
  send_dm-Sends who m s = elim (check_message-cases who m s) [
    | inl (e, refused, why) ↦ inl (e, rw refused refl, why)
    | inr (passed, new_root, checks) ↦ elim (message_cost-cases m s.world) [
      | inl (overflow, why) ↦ inl (cost_calculation_overflow, rw (passed, overflow) refl, inl why)
      | inr (cost, fits) ↦
          elim (Option-cases (config.burn_from who (full_cost m s.world) s.world)) [
            | inl poor ↦ inl (insufficient_stealth_balance, rw (passed, cost, poor) refl, poor)
            | inr (burnt, burns) ↦ elim (Bool-cases (ltb u64_max (s.next_message_id + 1))) [
              | inl full ↦ inl (
                cost_calculation_overflow,
                rw (passed, cost, burns, full) refl,
                inr (ground arith),
              )
              | inr free ↦
                  elim (Bool-cases (
                    ltb (length (s.dm_dispatches_by_block s.block_number))
                      config.max_dispatches_per_block)) [
                        | inr full ↦ inl (
                          too_many_dispatches_in_block,
                          rw (passed, cost, burns, free, full) refl,
                          ground arith,
                        )
                        | inl room ↦ inr (
                          _,
                          rw (passed, cost, burns, free, room) refl,
                          record {
                            passed = checks;
                            number = ground (arith, free);
                            new_root = new_root;
                            fits = fits;
                            burnt = burnt;
                            burns = burns;
                            room = ground arith;
                            result = refl;
                          },
                        )
                      ]
            ]
          ]
    ]
  ]

  pub sent :
      (who : ℕ) (m : Message) (s t : State World) → send_dm config who m s ≡ ok t → Sends who m s t
  sent who m s t h = elim (send_dm-Sends who m s) [
    | inl (e, refused, _) ↦ absurd (err-ok (sym refused ∙ h))
    | inr (u, accepted, c) ↦ subst (λ v. Sends who m s v) (ok_same accepted h) c
  ]
