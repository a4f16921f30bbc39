-- ===== src/Popularity/Grace.antt =====
-- A post is deleted only after its grace period, and only so many are deleted in a block.
use anarchy.Base.{
  min, ℕ, zero, suc, ◌+◌, ◌-◌, ◌≤◌, ◌<◌, ◌≡◌, ◌≢◌, refl, ◌&&◌, ◌||◌, Bool, true, false, Option,
  none, some, List, [], ◌∷◌, ◌==◌, arith, lookup, Table, contains, length, u32_max, Bool-cases, inl,
  inr, ◌⊎◌,
}
use anarchy.Popularity.{
  Config, State, PostPopularity, collect, candidates, delete_one, delete_all, run_deletion_pass,
}
use anarchy.Popularity.Queue.{IsQueued}

-- An entry stands in a list of entries.
abbrev pub has_entry : (id at : ℕ) → Table ℕ → Bool
has_entry id at [] = false
has_entry id at ((j, b) ∷ es) = (j == id && b == at) || has_entry id at es

module _ {World : Type 0} (config : Config World) where
  -- A post that is collected is the first one, or collected from the rest.
  collect-first :
      (now reads room id j b : ℕ) (cursor : Option ℕ) (es : Table ℕ)
      → contains id (collect config now (suc reads) room cursor ((j, b) ∷ es)).0 ≡ true
      → ((j ≡ id) × (b ≤ now))
        ⊎ ((contains id (collect config now reads (room - 1) (some j) es).0 ≡ true)
            ⊎ (contains id (collect config now reads room (some j) es).0 ≡ true))
  unfolding collect contains
  collect-first now reads room id j b cursor es e = ground arith

  has_entry-later :
      (id j b : ℕ) (es : Table ℕ)
      → (now : ℕ) → (at : ℕ) × (has_entry id at es ≡ true) × (at ≤ now)
      → (at : ℕ) × (has_entry id at ((j, b) ∷ es) ≡ true) × (at ≤ now)
  has_entry-later id j b es now (at, e, h) = (at, ground arith, h)

  -- A post that is collected has an entry that is due.
  collect-due :
      (now reads room id : ℕ) (cursor : Option ℕ) (es : Table ℕ)
      → contains id (collect config now reads room cursor es).0 ≡ true
      → (at : ℕ) × (has_entry id at es ≡ true) × (at ≤ now)
  unfolding collect contains
  collect-due now zero room id cursor es e = cc
  collect-due now (suc reads) room id cursor [] e = cc
  collect-due now (suc reads) room id cursor ((j, b) ∷ es) e =
      elim (collect-first now reads room id j b cursor es e) [
        | inl (same, due) ↦ (b, ground arith, due)
        | inr (inl more) ↦
            has_entry-later id j b es now (collect-due now reads (room - 1) id (some j) es more)
        | inr (inr others) ↦
            has_entry-later id j b es now (collect-due now reads room id (some j) es others)
      ]

  collect-length :
      (now reads room : ℕ) (cursor : Option ℕ) (es : Table ℕ)
      → 0 < room
      → length (collect config now reads room cursor es).0 ≤ room
  unfolding collect
  collect-length now zero room cursor es h = omega arith
  collect-length now (suc reads) room cursor [] h = omega arith
  collect-length now (suc reads) room cursor ((j, b) ∷ es) h = ground (
    arith,
    collect-length now reads (room - 1) (some j) es,
    collect-length now reads room (some j) es h,
  )

  delete_one-others :
      (x id : ℕ) (s : State World)
      → x ≢ id
      → (delete_one config id s).post_scores x ≡ s.post_scores x
  unfolding delete_one
  delete_one-others x id s h = ground arith

  delete_all-others :
      (x : ℕ) (ids : List ℕ) (s : State World)
      → contains x ids ≡ false
      → (delete_all config ids s).post_scores x ≡ s.post_scores x
  unfolding delete_all contains
  delete_all-others x [] s h = refl
  delete_all-others x (id ∷ ids) s h =
      ground (arith, delete_all-others x ids (delete_one config id s), delete_one-others x id s)

  delete_one-events :
      (id : ℕ) (s : State World) → length (delete_one config id s).events ≤ length s.events + 1
  unfolding delete_one
  delete_one-events id s = ground arith

  delete_all-events :
      (ids : List ℕ) (s : State World)
      → length (delete_all config ids s).events ≤ length s.events + length ids
  unfolding delete_all
  delete_all-events [] s = omega arith
  delete_all-events (id ∷ ids) s =
      omega (arith, delete_all-events ids (delete_one config id s), delete_one-events id s)

  -- In a state where each entry of the queue is that of a marked post, and when the storage
  -- iterates over entries of the queue only, a post that the deletion pass removes was marked,
  -- and its grace period is over.
  pub run_deletion_pass-grace :
      (now id : ℕ) (p : PostPopularity) (s : State World)
      → IsQueued config s
      → ((x at : ℕ)
          → has_entry x at (config.iterate s.deletion_cursor s.deletion_queue) ≡ true
          → lookup x s.deletion_queue ≡ some at)
      → s.post_scores id ≡ some p
      → (run_deletion_pass config now s).post_scores id ≡ none
      → (marked : ℕ) × (p.marked_for_deletion_at ≡ some marked)
        × (min (marked + config.grace_period) u32_max ≤ now)
  unfolding run_deletion_pass candidates
  run_deletion_pass-grace now id p s q entries there gone =
      elim (Bool-cases (contains id (candidates config now s).0)) [
        | inl chosen ↦
            let (at, e, due) =
              collect-due now config.max_deletion_scan_reads config.max_deletions_per_block id
                s.deletion_cursor (config.iterate s.deletion_cursor s.deletion_queue) chosen in
            ground (arith, q.marked id at, entries id at, there, e, due)
        | inr kept ↦ absurd (
            ground (
              arith,
              delete_all-others id (candidates config now s).0
                  (record s { deletion_cursor = (candidates config now s).1 }) kept,
              there,
              gone,
            ))
      ]

  -- The deletion pass of one block deletes at most the limit of posts, each with one event.
  pub run_deletion_pass_limit :
      (now : ℕ) (s : State World)
      → length (run_deletion_pass config now s).events
        ≤ length s.events + config.max_deletions_per_block
  unfolding run_deletion_pass candidates
  run_deletion_pass_limit now s = elim (Bool-cases (config.max_deletions_per_block == 0)) [
    | inl e ↦ rw e (omega arith)
    | inr e ↦ ground (
      arith,
      collect-length now config.max_deletion_scan_reads config.max_deletions_per_block
          s.deletion_cursor (config.iterate s.deletion_cursor s.deletion_queue),
      delete_all-events (candidates config now s).0
          (record s { deletion_cursor = (candidates config now s).1 }),
    )
  ]
