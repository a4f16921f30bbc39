-- ===== src/Messaging/Unique.antt =====
-- A root is sent once: the index by root and the lists of the blocks agree.
use anarchy.Base.{
  ℕ, suc, ◌+◌, ◌≡◌, ◌≤◌, inl, inr, refl, true, arith, Option, none, some, List, [], ◌∷◌, ◌++◌, ◌==◌,
  is_some, Bool-cases, length, if◌then◌else◌,
}
use anarchy.Base.Dispatch.{err, ok, commit}
use anarchy.Messaging.{
  Config, State, DmDispatch, DmMetaAddress, Event, is_acceptable, Message, Error, dispatch_of,
  send_dm, publish_dm_key, revoke_dm_key,
}
use anarchy.Messaging.Sent.{send_dm-Sends, sent}
use anarchy.Messaging.Run.{
  Call, dispatch, step, run, run_invariant, publish_call, revoke_call, send_call, others_act,
  next_block,
}

-- How often a list of dispatches has a root.
unfoldable pub occurrences : (root : ℕ) → List DmDispatch → ℕ
occurrences root [] = 0
occurrences root (d ∷ ds) =
    let rest = occurrences root ds in if d.content.root == root then suc rest else rest

occurrences-append :
    (root : ℕ) (d : DmDispatch) (ds : List DmDispatch)
    → occurrences root (ds ++ d ∷ [])
      ≡ occurrences root ds + (if d.content.root == root then 1 else 0)
unfolding occurrences
occurrences-append root d [] = ground arith
occurrences-append root d (x ∷ ds) = ground (arith, occurrences-append root d ds)

length-append : (d : DmDispatch) (ds : List DmDispatch) → length (ds ++ d ∷ []) ≡ length ds + 1
length-append d [] = refl
length-append d (x ∷ ds) = ground (arith, length-append d ds)

-- No block has more messages than allowed; a root without an index entry is in no block, a root is
-- at most once in a block and in at most one block; the entries are numbers below the next one, of
-- one root each.
pub record IsUnique {World : Type 0} (config : Config World) (s : State World) : Type 0 where
  pub bounded : (b : ℕ) → length (s.dm_dispatches_by_block b) ≤ config.max_dispatches_per_block
  pub indexed :
      (root b : ℕ)
      → s.dm_messages_by_root root ≡ none
      → occurrences root (s.dm_dispatches_by_block b) ≡ 0
  pub once : (root b : ℕ) → occurrences root (s.dm_dispatches_by_block b) ≤ 1
  pub one_block :
      (root b c : ℕ)
      → 1 ≤ occurrences root (s.dm_dispatches_by_block b)
      → 1 ≤ occurrences root (s.dm_dispatches_by_block c)
      → b ≡ c
  pub numbered : (root id : ℕ) → s.dm_messages_by_root root ≡ some id → suc id ≤ s.next_message_id
  pub distinct :
      (root other id : ℕ)
      → s.dm_messages_by_root root ≡ some id
      → s.dm_messages_by_root other ≡ some id
      → root ≡ other

module _ {World : Type 0} (config : Config World) where
  send_dm-IsUnique :
      (who : ℕ) (m : Message) (s : State World)
      → IsUnique config s
      → IsUnique config (commit s (send_dm config who m s))
  send_dm-IsUnique who m s u = elim (send_dm-Sends config who m s) [
    | inl (e, refused, _) ↦ rw refused u
    | inr (t, accepted, c) ↦
        let now = s.dm_dispatches_by_block s.block_number in
        rw (accepted, c.result)
          (record {
            bounded = λ b. ground (arith, u.bounded b, c.room, length-append (dispatch_of m) now);
            indexed = λ root b h.
                ground (arith, u.indexed root b, occurrences-append root (dispatch_of m) now);
            once = λ root b. ground (
              arith,
              u.once root b,
              u.indexed root b,
              c.new_root,
              occurrences-append root (dispatch_of m) now,
            );
            one_block = λ root a b h k. ground (
              arith,
              u.one_block root a b,
              u.indexed root a,
              u.indexed root b,
              c.new_root,
              occurrences-append root (dispatch_of m) now,
            );
            numbered = λ root id h. ground (arith, u.numbered root id);
            distinct = λ root other id h k.
                ground (arith, u.distinct root other id, u.numbered root id, u.numbered other id);
          })
  ]

  -- Nothing else of the state matters.
  others-IsUnique :
      (keys : ℕ → Option DmMetaAddress) (block : ℕ) (world : World) (events : List Event)
      (s : State World)
      → IsUnique config s
      → IsUnique config (record s {
        dm_reception_keys = keys;
        block_number = block;
        world = world;
        events = events;
      })
  others-IsUnique keys block world events s u = record {
    bounded = u.bounded;
    indexed = u.indexed;
    once = u.once;
    one_block = u.one_block;
    numbered = u.numbered;
    distinct = u.distinct;
  }

  step-IsUnique :
      (c : Call World) (s : State World) → IsUnique config s → IsUnique config (step config c s)
  unfolding dispatch publish_dm_key revoke_dm_key
  step-IsUnique (publish_call who m) s u = elim (Bool-cases (is_acceptable m)) [
    | inl e ↦ rw e (others-IsUnique _ _ _ _ s u)
    | inr e ↦ rw e u
  ]
  step-IsUnique (revoke_call who) s u = elim (Bool-cases (is_some (s.dm_reception_keys who))) [
    | inl e ↦ rw e (others-IsUnique _ _ _ _ s u)
    | inr e ↦ rw e u
  ]
  step-IsUnique (send_call who m) s u = send_dm-IsUnique who m s u
  step-IsUnique (others_act world) s u =
      others-IsUnique s.dm_reception_keys s.block_number world s.events s u
  step-IsUnique next_block s u =
      others-IsUnique s.dm_reception_keys (suc s.block_number) s.world s.events s u

  -- After any calls and blocks, from a state where this holds: no block has more messages than
  -- allowed, every root of a message is in the index, a root is at most once in a block and never in
  -- two blocks, and no two roots have the same number.
  pub run-IsUnique :
      (cs : List (Call World)) (s : State World)
      → IsUnique config s
      → IsUnique config (run config cs s)
  run-IsUnique = run_invariant config (IsUnique config) step-IsUnique

  step-recorded :
      (root : ℕ) (c : Call World) (s : State World)
      → is_some (s.dm_messages_by_root root) ≡ true
      → is_some ((step config c s).dm_messages_by_root root) ≡ true
  unfolding dispatch publish_dm_key revoke_dm_key
  step-recorded root (publish_call who m) s h = ground arith
  step-recorded root (revoke_call who) s h = ground arith
  step-recorded root (send_call who m) s h = elim (send_dm-Sends config who m s) [
    | inl (e, refused, _) ↦ rw refused h
    | inr (t, accepted, c) ↦ rw (accepted, c.result) (ground arith)
  ]
  step-recorded root (others_act world) s h = h
  step-recorded root next_block s h = h

  -- Once a message is sent, no call that follows, of any account and in any block, sends one with the
  -- same root: it fails.
  pub run_refuses_resend :
      (who again : ℕ) (m n : Message) (s t : State World) (cs : List (Call World))
      → send_dm config who m s ≡ ok t
      → n.merkle_root ≡ m.merkle_root
      → (e : Error) × (send_dm config again n (run config cs t) ≡ err e)
  run_refuses_resend who again m n s t cs h same =
      let recorded : is_some (t.dm_messages_by_root m.merkle_root) ≡ true =
        rw ((sent config who m s t h).result) (ground arith) in
      let kept =
        run_invariant config (λ u. is_some (u.dm_messages_by_root m.merkle_root) ≡ true)
          (step-recorded m.merkle_root) cs t recorded in
      elim (send_dm-Sends config again n (run config cs t)) [
        | inl (e, refused, _) ↦ (e, refused)
        | inr (u, _, c) ↦ absurd (ground (arith, c.new_root, rw same at c.new_root, kept))
      ]
