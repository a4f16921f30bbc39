-- ===== src/Reaction/Accepted.antt =====
-- When a reaction is accepted, and what it then does.
use anarchy.Base.{
  ℕ, ◌≡◌, ◌<◌, ◌≤◌, ◌⊎◌, inl, inr, refl, true, false, none, Option-cases, Bool-cases, is_some,
  lookup, sat_add, u32_max, leb, leb→le, le→leb, ◌∷◌,
}
use anarchy.Base.Dispatch.{ok, err}
use anarchy.Reaction.Types.{
  Config, State, ReactionType, reaction_created, Error, post_not_found, already_reacted,
  challenge_expired, block_not_found, invalid_proof,
}
use anarchy.Reaction.{settle_reaction, record_reaction, react, is_default, proves_work, lock_ok}
use anarchy.Reaction.Settle.{Pays, IsEarned, settle_reaction-Pays}

module _ {World : Type 0} (config : Config World)
    (on_reaction : ℕ → ReactionType → World → World) where
  -- What `react` asks for.
  pub record IsAcceptable (who post_id block nonce : ℕ) (s : State World) : Type 0 where
    pub posted : is_some (config.get_post_author post_id s.world) ≡ true
    pub first_time : lookup who (s.reactions post_id) ≡ none
    pub in_time : s.block_number ≤ sat_add u32_max block config.challenge_validity
    pub known : is_default (config.block_hash block s.world) ≡ false
    pub worked : proves_work config who nonce (config.block_hash block s.world) s ≡ true

  -- What it then does: it records the reaction, pays `paid`, and tells the popularity pallet.
  pub record Reacts (who post_id : ℕ) (kind : ReactionType) (nonce cpu : ℕ) (s t : State World)
      : Type 0 where
    pub paid : ℕ
    pub settled : State World
    pub pays :
        Pays config
          (config.get_post_author post_id s.world)
          (record_reaction config who post_id kind nonce cpu s)
          settled
          paid
    pub earned : 0 < paid → IsEarned config kind who paid s
    pub result : t ≡ record settled {
      world = on_reaction post_id kind settled.world;
      events = reaction_created post_id who kind paid ∷ settled.events;
    }

  react-ok :
      (who post_id : ℕ) (kind : ReactionType) (block nonce cpu : ℕ) (s : State World)
      → IsAcceptable who post_id block nonce s
      → (t : State World) × (react config on_reaction who post_id kind block nonce cpu s ≡ ok t)
        × Reacts who post_id kind nonce cpu s t
  unfolding react lock_ok
  react-ok who post_id kind block nonce cpu s a =
      let recorded = record_reaction config who post_id kind nonce cpu s in
      let settles = settle_reaction-Pays config who post_id kind recorded in
      rw (a.posted, a.first_time, le→leb _ _ a.in_time, a.known, a.worked)
        (
          _,
          refl,
          record {
            paid = (settle_reaction config who post_id kind recorded).1;
            settled = (settle_reaction config who post_id kind recorded).0;
            pays = settles.0;
            earned = λ h. record {
              liked = (settles.1 h).liked;
              locked = (settles.1 h).locked;
              within_reward = (settles.1 h).within_reward;
            };
            result = refl;
          },
        )

  react-refuses :
      (who post_id : ℕ) (kind : ReactionType) (block nonce cpu : ℕ) (s : State World)
      → ((e : Error) × (react config on_reaction who post_id kind block nonce cpu s ≡ err e))
        ⊎ IsAcceptable who post_id block nonce s
  unfolding react
  react-refuses who post_id kind block nonce cpu s =
      let hash = config.block_hash block s.world in
      elim (Bool-cases (is_some (config.get_post_author post_id s.world))) [
        | inr e ↦ inl (post_not_found, rw e refl)
        | inl posted ↦ elim (Option-cases (lookup who (s.reactions post_id))) [
          | inr (r, e) ↦ inl (already_reacted, rw (posted, e) refl)
          | inl first_time ↦
              elim (Bool-cases
                (leb s.block_number (sat_add u32_max block config.challenge_validity))) [
                  | inr e ↦ inl (challenge_expired, rw (posted, first_time, e) refl)
                  | inl in_time ↦ elim (Bool-cases (is_default hash)) [
                    | inl e ↦ inl (block_not_found, rw (posted, first_time, in_time, e) refl)
                    | inr known ↦ elim (Bool-cases (proves_work config who nonce hash s)) [
                      | inr e ↦ inl (invalid_proof, rw (posted, first_time, in_time, known, e) refl)
                      | inl worked ↦ inr (record {
                        posted = posted;
                        first_time = first_time;
                        in_time = leb→le _ _ in_time;
                        known = known;
                        worked = worked;
                      })
                    ]
                  ]
                ]
        ]
      ]

  -- A reaction is accepted exactly when the post has an author, the account has no reaction to it,
  -- the block it names is recent and known, and the proof of work is good; then it is recorded, at
  -- most the computed reward is paid, from the pool and within the budget of the block, and only
  -- to a Like of an account whose lock suffices. In every other case it fails.
  pub react-Reacts :
      (who post_id : ℕ) (kind : ReactionType) (block nonce cpu : ℕ) (s : State World)
      → ((e : Error) × (react config on_reaction who post_id kind block nonce cpu s ≡ err e)
          × ¬ (IsAcceptable who post_id block nonce s))
        ⊎ ((t : State World) × (react config on_reaction who post_id kind block nonce cpu s ≡ ok t)
            × IsAcceptable who post_id block nonce s
            × Reacts who post_id kind nonce cpu s t)
  react-Reacts who post_id kind block nonce cpu s =
      elim (react-refuses who post_id kind block nonce cpu s) [
        | inl (e, refused) ↦ inl (
          e,
          refused,
          λ a. let (t, accepted, _) = react-ok who post_id kind block nonce cpu s a in cc,
        )
        | inr a ↦
            let (t, accepted, reacts) = react-ok who post_id kind block nonce cpu s a in
            inr (t, accepted, a, reacts)
      ]
