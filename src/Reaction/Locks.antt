-- ===== src/Reaction/Locks.antt =====
-- The locks of the reactors: how long a lock is held, and what unlocking gives back.
use anarchy.Base.{
  ℕ, ◌≡◌, ◌≤◌, ◌<◌, inl, inr, refl, arith, none, some, List, [], ◌∷◌, Option-cases, lookup, insert,
  lookup-insert, lookup-erase_ne, lookup-erase_self, HasUniqueKeys, insert-HasUniqueKeys, lt→leb,
  le→leb, sat_add, u32_max,
}
use anarchy.Base.Dispatch.{ok, err, commit}
use anarchy.Base.Reservable.{Currency, IsReservable}
use anarchy.Reaction.Types.{
  Config, State, ReactionType, ReactorLock, reactor_lock_still_active, reactor_lock_already_held,
}
use anarchy.Reaction.{
  record_reaction, react, lock_for_rewards, unlock_reactor, do_deposit_to_reaction_pool,
  on_finalize, adjust_difficulty,
}
use anarchy.Reaction.Accepted.{react-Reacts}
use anarchy.Reaction.Run.{
  Call, dispatch, step, run, react_call, lock_call, unlock_call, deposit_to_pool, others_act,
  end_block,
}

module _ {World : Type 0} (config : Config World) where
  record SameLocks (s t : State World) : Type 0 where
    locks : t.reactor_locks ≡ s.reactor_locks
    block : s.block_number ≤ t.block_number

  finalize-SameLocks : (n : ℕ) (s : State World) → SameLocks s (on_finalize config n s)
  unfolding on_finalize adjust_difficulty
  finalize-SameLocks n s = record { locks = ground arith; block = ground arith }

  module _ (on_reaction : ℕ → ReactionType → World → World) where
    react-SameLocks :
        (who post_id : ℕ) (kind : ReactionType) (block nonce cpu : ℕ) (s : State World)
        → SameLocks s (commit s (react config on_reaction who post_id kind block nonce cpu s))
    unfolding record_reaction
    react-SameLocks who post_id kind block nonce cpu s =
        elim (react-Reacts config on_reaction who post_id kind block nonce cpu s) [
          | inl (e, refused, _) ↦ rw refused (record { locks = refl; block = omega arith })
          | inr (t, accepted, a, r) ↦
              rw (accepted, r.result)
                (record { locks = r.pays.same_locks; block = omega (arith, r.pays.same_block) })
        ]

    module _ (currency : Currency World) where
      step_block :
          (c : Call World) (s : State World)
          → s.block_number ≤ (step config currency on_reaction c s).block_number
      unfolding dispatch lock_for_rewards unlock_reactor do_deposit_to_reaction_pool
      step_block (react_call who post kind block nonce cpu) s =
          (react-SameLocks who post kind block nonce cpu s).block
      step_block (lock_call who locked) s = ground arith
      step_block (unlock_call who) s = ground arith
      step_block (deposit_to_pool deposit) s = omega arith
      step_block (others_act world) s = omega arith
      step_block end_block s = omega (arith, (finalize-SameLocks s.block_number s).block)

      run_block :
          (cs : List (Call World)) (s : State World)
          → s.block_number ≤ (run config currency on_reaction cs s).block_number
      unfolding run
      run_block [] s = omega arith
      run_block (c ∷ cs) s =
          omega (arith, step_block c s, run_block cs (step config currency on_reaction c s))

      step_keeps_lock :
          (who : ℕ) (l : ReactorLock) (c : Call World) (s : State World)
          → lookup who s.reactor_locks ≡ some l
          → s.block_number < l.unlock_at
          → lookup who (step config currency on_reaction c s).reactor_locks ≡ some l
      unfolding dispatch lock_for_rewards unlock_reactor do_deposit_to_reaction_pool
      step_keeps_lock who l (react_call who' post kind block nonce cpu) s h early =
          rw (react-SameLocks who' post kind block nonce cpu s).locks h
      step_keeps_lock who l (lock_call who' locked) s h early = ground (
        arith,
        lookup-insert who who'
            (record {
              amount = locked;
              unlock_at = sat_add u32_max s.block_number config.reactor_lock_duration;
            })
            s.reactor_locks,
      )
      step_keeps_lock who l (unlock_call who') s h early =
          ground (arith, lookup-erase_ne who who' s.reactor_locks)
      step_keeps_lock who l (deposit_to_pool deposit) s h early = h
      step_keeps_lock who l (others_act world) s h early = h
      step_keeps_lock who l end_block s h early = rw (finalize-SameLocks s.block_number s).locks h

      run_keeps_lock :
          (who : ℕ) (l : ReactorLock) (cs : List (Call World)) (s : State World)
          → lookup who s.reactor_locks ≡ some l
          → (run config currency on_reaction cs s).block_number < l.unlock_at
          → lookup who (run config currency on_reaction cs s).reactor_locks ≡ some l
      unfolding run
      run_keeps_lock who l [] s h early = h
      run_keeps_lock who l (c ∷ cs) s h early =
          run_keeps_lock who l cs (step config currency on_reaction c s)
            (step_keeps_lock who l c s h (
              omega (
                arith,
                step_block c s,
                run_block cs (step config currency on_reaction c s),
                early,
              )))
            early

      -- From an accepted lock on, whatever happens, the account can neither unlock nor lock again
      -- before the block at which the lock ends.
      pub run_holds_lock :
          (who locked : ℕ) (s t : State World)
          → lock_for_rewards config currency who locked s ≡ ok t
          → (cs : List (Call World))
          → (run config currency on_reaction cs t).block_number
            < sat_add u32_max s.block_number config.reactor_lock_duration
          → (unlock_reactor config currency who (run config currency on_reaction cs t)
              ≡ err reactor_lock_still_active)
            × ((again : ℕ)
                → lock_for_rewards config currency who again (run config currency on_reaction cs t)
                  ≡ err reactor_lock_already_held)
      unfolding unlock_reactor lock_for_rewards
      run_holds_lock who locked s t accepted cs early =
          let l : ReactorLock = record {
            amount = locked;
            unlock_at = sat_add u32_max s.block_number config.reactor_lock_duration;
          } in
          let held : lookup who t.reactor_locks ≡ some l =
            ground (arith, accepted, lookup-insert who who l s.reactor_locks) in
          let kept = run_keeps_lock who l cs t held early in
          (rw (kept, lt→leb _ _ early) refl, λ again. rw kept refl)

  -- What a state has after a lock.
  lock-inverse :
      (currency : Currency World) (who locked : ℕ) (s t : State World)
      → lock_for_rewards config currency who locked s ≡ ok t
      → (w : World) × (currency.reserve who locked s.world ≡ some w)
        × (t.world ≡ w)
        × (t.reactor_locks
            ≡ insert who
                (record {
                  amount = locked;
                  unlock_at = sat_add u32_max s.block_number config.reactor_lock_duration;
                })
                s.reactor_locks)
        × (t.reactor_locks_count ≡ sat_add u32_max s.reactor_locks_count 1)
  unfolding lock_for_rewards
  lock-inverse currency who locked s t h =
      elim (Option-cases (currency.reserve who locked s.world)) [
        | inl poor ↦ ground arith
        | inr (w, r) ↦ (w, r, ground arith, ground arith, ground arith)
      ]

  -- A lock that was accepted can be unlocked from its end on, in a state that others have not
  -- changed; then the lock is gone, the number of locks is as before, and the account has the
  -- reserved balance that it had before the lock.
  pub lock_for_rewards-unlock_reactor :
      (currency : Currency World)
      → IsReservable currency
      → (who locked now : ℕ) (s t : State World) → HasUniqueKeys s.reactor_locks
      → s.reactor_locks_count < u32_max
      → lock_for_rewards config currency who locked s ≡ ok t
      → sat_add u32_max s.block_number config.reactor_lock_duration ≤ now
      → (u : State World) × (unlock_reactor config currency who (record t { block_number = now })
          ≡ ok u)
        × (lookup who u.reactor_locks ≡ none)
        × (u.reactor_locks_count ≡ s.reactor_locks_count)
        × ((x : ℕ) → currency.reserved_balance x u.world ≡ currency.reserved_balance x s.world)
  unfolding unlock_reactor
  lock_for_rewards-unlock_reactor currency laws who locked now s t unique room accepted due =
      let l : ReactorLock = record {
        amount = locked;
        unlock_at = sat_add u32_max s.block_number config.reactor_lock_duration;
      } in
      let (w, r, world, locks, count) = lock-inverse currency who locked s t accepted in
      let held : lookup who t.reactor_locks ≡ some l =
        rw locks (ground (arith, lookup-insert who who l s.reactor_locks)) in
      rw (held, le→leb _ _ due)
        (
          _,
          refl,
          rw locks (lookup-erase_self who _ (insert-HasUniqueKeys who l s.reactor_locks unique)),
          omega (arith, count, room),
          λ x. rw world (
              ground (
                arith,
                laws.unreserve-reserved who locked w x,
                laws.reserve-reserved who locked s.world r x,
              )),
        )
