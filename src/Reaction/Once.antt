-- ===== src/Reaction/Once.antt =====
-- Each account reacts to a post at most once, and the statistics of a post count its reactions.
use anarchy.Base.{
  ℕ, ◌≡◌, inl, inr, refl, arith, min, none, some, List, true, is_some, lookup, u32_max,
  HasUniqueKeys, total, total-insert_new, insert-HasUniqueKeys, lookup-insert, sym, ◌∙◌,
}
use anarchy.Base.Dispatch.{ok, err, commit, err-ok, ok_same}
use anarchy.Base.Reservable.{Currency}
use anarchy.Reaction.Types.{Config, State, ReactionType, like, bad, Reaction, already_reacted}
use anarchy.Reaction.{
  record_reaction, react, lock_for_rewards, unlock_reactor, do_deposit_to_reaction_pool,
  on_finalize, adjust_difficulty, count_stats,
}
use anarchy.Reaction.Accepted.{Reacts, react-Reacts}
use anarchy.Reaction.Run.{
  Call, dispatch, step, run, run_invariant, react_call, lock_call, unlock_call, deposit_to_pool,
  others_act, end_block,
}

abbrev pub likes_of : Reaction → ℕ
likes_of r = elim r.reaction_type [ like ↦ 1 | bad ↦ 0 ]

abbrev pub bads_of : Reaction → ℕ
bads_of r = elim r.reaction_type [ like ↦ 0 | bad ↦ 1 ]

-- One reaction to an account at each post, and statistics that count them, up to the largest u32.
pub record IsCounted {World : Type 0} (s : State World) : Type 0 where
  pub unique : (post : ℕ) → HasUniqueKeys (s.reactions post)
  pub likes :
      (post : ℕ) → (s.reaction_stats post).likes ≡ min (total likes_of (s.reactions post)) u32_max
  pub bads :
      (post : ℕ) → (s.reaction_stats post).bads ≡ min (total bads_of (s.reactions post)) u32_max

module _ {World : Type 0} (config : Config World) where
  same-IsCounted :
      (s t : State World)
      → t.reactions ≡ s.reactions
      → t.reaction_stats ≡ s.reaction_stats
      → IsCounted s
      → IsCounted t
  same-IsCounted s t reactions stats c = record {
    unique = λ p. rw reactions (c.unique p);
    likes = λ p. rw (reactions, stats) (c.likes p);
    bads = λ p. rw (reactions, stats) (c.bads p);
  }

  abbrev entry : (who : ℕ) → ReactionType → (nonce cpu now : ℕ) → Reaction
  entry who kind nonce cpu now = record {
    reactor = who;
    reaction_type = kind;
    pow_nonce = nonce;
    cpu_power = cpu;
    created_at = now;
  }

  recorded_unique :
      (who post_id : ℕ) (kind : ReactionType) (nonce cpu : ℕ) (s : State World)
      → IsCounted s
      → (p : ℕ) → HasUniqueKeys ((record_reaction config who post_id kind nonce cpu s).reactions p)
  unfolding record_reaction
  recorded_unique who post_id kind nonce cpu s c p = ground (
    arith,
    c.unique p,
    insert-HasUniqueKeys who (entry who kind nonce cpu s.block_number) (s.reactions post_id)
        (c.unique post_id),
  )

  record_reaction-IsCounted :
      (who post_id : ℕ) (kind : ReactionType) (nonce cpu : ℕ) (s : State World)
      → lookup who (s.reactions post_id) ≡ none
      → IsCounted s
      → IsCounted (record_reaction config who post_id kind nonce cpu s)
  unfolding record_reaction count_stats
  record_reaction-IsCounted who post_id like nonce cpu s new c = record {
    unique = recorded_unique who post_id like nonce cpu s c;
    likes = λ p. ground (
      arith,
      c.likes p,
      total-insert_new likes_of who (entry who like nonce cpu s.block_number) (s.reactions post_id)
          new,
    );
    bads = λ p. ground (
      arith,
      c.bads p,
      total-insert_new bads_of who (entry who like nonce cpu s.block_number) (s.reactions post_id)
          new,
    );
  }
  record_reaction-IsCounted who post_id bad nonce cpu s new c = record {
    unique = recorded_unique who post_id bad nonce cpu s c;
    likes = λ p. ground (
      arith,
      c.likes p,
      total-insert_new likes_of who (entry who bad nonce cpu s.block_number) (s.reactions post_id)
          new,
    );
    bads = λ p. ground (
      arith,
      c.bads p,
      total-insert_new bads_of who (entry who bad nonce cpu s.block_number) (s.reactions post_id)
          new,
    );
  }

  -- A finished call is the old state or one with the same reactions, but for `react`.
  record SameReactions (s t : State World) : Type 0 where
    reactions : t.reactions ≡ s.reactions
    stats : t.reaction_stats ≡ s.reaction_stats

  finalize-SameReactions : (n : ℕ) (s : State World) → SameReactions s (on_finalize config n s)
  unfolding on_finalize adjust_difficulty
  finalize-SameReactions n s = record { reactions = ground arith; stats = ground arith }

  module _ (currency : Currency World) where
    lock-SameReactions :
        (who locked : ℕ) (s : State World)
        → SameReactions s (commit s (lock_for_rewards config currency who locked s))
    unfolding lock_for_rewards
    lock-SameReactions who locked s = record { reactions = ground arith; stats = ground arith }

    unlock-SameReactions :
        (who : ℕ) (s : State World)
        → SameReactions s (commit s (unlock_reactor config currency who s))
    unfolding unlock_reactor
    unlock-SameReactions who s = record { reactions = ground arith; stats = ground arith }

  module _ (on_reaction : ℕ → ReactionType → World → World) where
    reacted-reactions :
        (who post_id : ℕ) (kind : ReactionType) (nonce cpu : ℕ) (s t : State World)
        → Reacts config on_reaction who post_id kind nonce cpu s t
        → t.reactions ≡ (record_reaction config who post_id kind nonce cpu s).reactions
    reacted-reactions who post_id kind nonce cpu s t r = rw r.result (r.pays.same_reactions)

    react-IsCounted :
        (who post_id : ℕ) (kind : ReactionType) (block nonce cpu : ℕ) (s : State World)
        → IsCounted s
        → IsCounted (commit s (react config on_reaction who post_id kind block nonce cpu s))
    react-IsCounted who post_id kind block nonce cpu s c =
        elim (react-Reacts config on_reaction who post_id kind block nonce cpu s) [
          | inl (e, refused, _) ↦ rw refused c
          | inr (t, accepted, a, r) ↦ rw accepted (
              same-IsCounted (record_reaction config who post_id kind nonce cpu s) t
                (reacted-reactions who post_id kind nonce cpu s t r)
                (rw r.result (r.pays.same_stats))
                (record_reaction-IsCounted who post_id kind nonce cpu s a.first_time c))
        ]

    accepted-recorded :
        (who post_id : ℕ) (kind : ReactionType) (block nonce cpu : ℕ) (s t : State World)
        → react config on_reaction who post_id kind block nonce cpu s ≡ ok t
        → lookup who (t.reactions post_id) ≡ some (entry who kind nonce cpu s.block_number)
    unfolding record_reaction
    accepted-recorded who post_id kind block nonce cpu s t accepted =
        elim (react-Reacts config on_reaction who post_id kind block nonce cpu s) [
          | inl (e, refused, _) ↦ elim (err-ok (sym refused ∙ accepted)) [ ]
          | inr (u, same, a, r) ↦
              rw (ok_same accepted same, reacted-reactions who post_id kind nonce cpu s u r)
                (ground (
                  arith,
                  lookup-insert who who (entry who kind nonce cpu s.block_number)
                      (s.reactions post_id),
                ))
        ]

    module _ (currency : Currency World) where
      keep : (s t : State World) → SameReactions s t → IsCounted s → IsCounted t
      keep s t k c = same-IsCounted s t k.reactions k.stats c

      step-IsCounted :
          (c : Call World) (s : State World)
          → IsCounted s
          → IsCounted (step config currency on_reaction c s)
      unfolding dispatch do_deposit_to_reaction_pool
      step-IsCounted (react_call who post kind block nonce cpu) s h =
          react-IsCounted who post kind block nonce cpu s h
      step-IsCounted (lock_call who locked) s h =
          keep s _ (lock-SameReactions currency who locked s) h
      step-IsCounted (unlock_call who) s h = keep s _ (unlock-SameReactions currency who s) h
      step-IsCounted (deposit_to_pool deposit) s h = same-IsCounted s _ refl refl h
      step-IsCounted (others_act world) s h = same-IsCounted s _ refl refl h
      step-IsCounted end_block s h =
          let k = finalize-SameReactions s.block_number s in
          same-IsCounted s _ k.reactions k.stats h

      -- Along any sequence of calls and ends of blocks, an account has at most one reaction at each
      -- post, and the numbers of likes and of bads of a post are those of its recorded reactions,
      -- up to the largest u32.
      pub run-IsCounted :
          (cs : List (Call World)) (s : State World)
          → IsCounted s
          → IsCounted (run config currency on_reaction cs s)
      run-IsCounted = run_invariant config currency on_reaction IsCounted step-IsCounted

      -- A reaction that is recorded is never changed.
      step_keeps :
          (who post : ℕ) (r : Reaction) (c : Call World) (s : State World)
          → lookup who (s.reactions post) ≡ some r
          → lookup who ((step config currency on_reaction c s).reactions post) ≡ some r
      unfolding dispatch do_deposit_to_reaction_pool record_reaction
      step_keeps who post r (react_call who' post' kind block nonce cpu) s h =
          elim (react-Reacts config on_reaction who' post' kind block nonce cpu s) [
            | inl (e, refused, _) ↦ rw refused h
            | inr (t, accepted, a, k) ↦
                rw (accepted, reacted-reactions who' post' kind nonce cpu s t k)
                  (ground (
                    arith,
                    a.first_time,
                    lookup-insert who who' (entry who' kind nonce cpu s.block_number)
                        (s.reactions post'),
                  ))
          ]
      step_keeps who post r (lock_call who' locked) s h =
          rw (lock-SameReactions currency who' locked s).reactions h
      step_keeps who post r (unlock_call who') s h =
          rw (unlock-SameReactions currency who' s).reactions h
      step_keeps who post r (deposit_to_pool deposit) s h = h
      step_keeps who post r (others_act world) s h = h
      step_keeps who post r end_block s h = rw (finalize-SameReactions s.block_number s).reactions h

      -- After an accepted reaction, whatever happens in between, every further reaction of the
      -- account to a post that still exists fails with `already_reacted`.
      pub run_refuses_again :
          (who post_id : ℕ) (kind : ReactionType) (block nonce cpu : ℕ) (s t : State World)
          → react config on_reaction who post_id kind block nonce cpu s ≡ ok t
          → (cs : List (Call World))
          → is_some (config.get_post_author post_id (run config currency on_reaction cs t).world)
            ≡ true
          → (kind' : ReactionType) (block' nonce' cpu' : ℕ)
          → react config on_reaction who post_id kind' block' nonce' cpu'
              (run config currency on_reaction cs t)
            ≡ err already_reacted
      unfolding react
      run_refuses_again who post_id kind block nonce cpu s t accepted cs posted kind' block' nonce'
            cpu' =
          let e = entry who kind nonce cpu s.block_number in
          let kept =
            run_invariant config currency on_reaction
              (λ u. lookup who (u.reactions post_id) ≡ some e) (step_keeps who post_id e) cs t
              (accepted-recorded who post_id kind block nonce cpu s t accepted) in
          rw (posted, kept) refl
