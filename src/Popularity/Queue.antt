-- ===== src/Popularity/Queue.antt =====
-- Every entry of the deletion queue belongs to a marked post, and says when its grace period ends.
use anarchy.Base.{
  ◌||◌, Bool-cases, u64_max, ℕ, zero, suc, ◌≡◌, refl, ◌&&◌, not, Option, none, some, List, [], ◌∷◌,
  leb, ltb, ◌==◌, if◌then◌else◌, update, is_some, arith, lookup, erase, insert, HasUniqueKeys,
  lookup-insert, lookup-erase_ne, lookup-erase_self, insert-HasUniqueKeys, erase-HasUniqueKeys,
  sat_add, u32_max, Option-cases, inl, inr,
}
use anarchy.Popularity.{
  candidates, recovery, effective_score_now, Config, State, PostPopularity, ReactionType, like,
  dislike, on_post_created, count_reaction, on_reaction, scan_post, scan_one, scan_loop,
  run_scan_pass, delete_one, delete_all, run_deletion_pass, on_finalize, entry_or_new,
}

module _ {World : Type 0} (config : Config World) where
  -- When the grace period of a marked post ends.
  abbrev pub due_at : Option ℕ → Option ℕ
  due_at none = none
  due_at (some marked) = some (sat_add u32_max marked config.grace_period)

  abbrev pub due_of : Option PostPopularity → Option ℕ
  due_of none = none
  due_of (some p) = due_at p.marked_for_deletion_at

  pub record IsQueued (s : State World) : Type 0 where
    pub unique : HasUniqueKeys s.deletion_queue
    pub marked :
        (id at : ℕ) → lookup id s.deletion_queue ≡ some at → due_of (s.post_scores id) ≡ some at

  on_post_created-IsQueued :
      (id : ℕ) (s : State World)
      → s.post_scores id ≡ none
      → IsQueued s
      → IsQueued (on_post_created config id s)
  unfolding on_post_created
  on_post_created-IsQueued id s fresh q = record {
    unique = q.unique;
    marked = λ x at e. ground (arith, q.marked x at, fresh);
  }

  count_reaction-marked :
      (k : ReactionType) (now : ℕ) (p : PostPopularity)
      → (count_reaction config k now p).marked_for_deletion_at ≡ p.marked_for_deletion_at
  unfolding count_reaction
  count_reaction-marked like now p = refl
  count_reaction-marked dislike now p = refl

  -- The three ways in which the entry of a post and the queue change together.
  unmark :
      (id : ℕ) (p : PostPopularity) (s t : State World)
      → IsQueued s
      → t.post_scores ≡ update id (some p) s.post_scores
      → t.deletion_queue ≡ erase id s.deletion_queue
      → IsQueued t
  unmark id p s t q scores queue = record {
    unique = rw queue (erase-HasUniqueKeys id s.deletion_queue q.unique);
    marked = λ x at e. ground (
      arith,
      q.marked x at,
      scores,
      queue,
      lookup-erase_ne x id s.deletion_queue,
      lookup-erase_self id s.deletion_queue q.unique,
    );
  }

  restore :
      (id : ℕ) (p : PostPopularity) (s t : State World)
      → IsQueued s
      → due_at p.marked_for_deletion_at ≡ due_of (s.post_scores id)
      → t.post_scores ≡ update id (some p) s.post_scores
      → t.deletion_queue ≡ s.deletion_queue
      → IsQueued t
  restore id p s t q same scores queue = record {
    unique = rw queue q.unique;
    marked = λ x at e. ground (arith, q.marked x at, scores, queue, same);
  }

  mark :
      (id now : ℕ) (p : PostPopularity) (s t : State World)
      → IsQueued s
      → p.marked_for_deletion_at ≡ some now
      → t.post_scores ≡ update id (some p) s.post_scores
      → t.deletion_queue ≡ insert id (sat_add u32_max now config.grace_period) s.deletion_queue
      → IsQueued t
  mark id now p s t q marked_now scores queue = record {
    unique = rw queue (
        insert-HasUniqueKeys id (sat_add u32_max now config.grace_period) s.deletion_queue
          q.unique);
    marked = λ x at e. ground (
      arith,
      q.marked x at,
      scores,
      queue,
      marked_now,
      lookup-insert x id (sat_add u32_max now config.grace_period) s.deletion_queue,
    );
  }

  on_reaction-IsQueued :
      (id : ℕ) (k : ReactionType) (s : State World)
      → IsQueued s
      → IsQueued (on_reaction config id k s)
  unfolding on_reaction
  on_reaction-IsQueued id k s q =
      let p =
        count_reaction config k s.block_number
          (entry_or_new config s.block_number (s.post_scores id)) in
      let same =
        count_reaction-marked k s.block_number
          (entry_or_new config s.block_number (s.post_scores id)) in
      elim (Bool-cases (is_some p.marked_for_deletion_at && leb (recovery config) p.stored_score)) [
        | inl e ↦
            unmark id (record p { marked_for_deletion_at = none }) s _ q (ground arith)
              (ground arith)
        | inr e ↦
            restore id p s _ q (unmarked_new id s.block_number (s.post_scores id) p same)
              (ground arith) (ground arith)
      ]
    where
      unmarked_new :
          (i now : ℕ) (o : Option PostPopularity) (p : PostPopularity)
          → p.marked_for_deletion_at ≡ (entry_or_new config now o).marked_for_deletion_at
          → due_at p.marked_for_deletion_at ≡ due_of o
      unmarked_new i now none p e = rw e refl
      unmarked_new i now (some r) p e = rw e refl

  scan_post-IsQueued :
      (now id : ℕ) (p : PostPopularity) (s : State World)
      → s.post_scores id ≡ some p
      → IsQueued s
      → IsQueued (scan_post config now id p s)
  unfolding scan_post
  scan_post-IsQueued now id p s e q =
      let eff = effective_score_now config s.block_number p in
      let p' = record p { stored_score = eff; last_touched = now } in
      elim (Bool-cases
        (ltb eff config.low_popularity_threshold && not (is_some p.marked_for_deletion_at))) [
          | inl low ↦
              mark id now (record p' { marked_for_deletion_at = some now }) s _ q refl
                (ground arith) (ground arith)
          | inr high ↦
              elim (Bool-cases (leb (recovery config) eff && is_some p.marked_for_deletion_at)) [
                | inl back ↦
                    unmark id (record p' { marked_for_deletion_at = none }) s _ q (ground arith)
                      (ground arith)
                | inr stays ↦ restore id p' s _ q (rw e refl) (ground arith) (ground arith)
              ]
        ]

  scan_one-IsQueued :
      (now id : ℕ) (s : State World) → IsQueued s → IsQueued (scan_one config now id s)
  unfolding scan_one
  scan_one-IsQueued now id s q = elim (Option-cases (s.post_scores id)) [
    | inl e ↦ rw (e, scan_one) q
    | inr (p, e) ↦ rw (e, scan_one) (scan_post-IsQueued now id p s e q)
  ]

  scan_loop-IsQueued :
      (left now top cursor : ℕ) (s : State World)
      → IsQueued s
      → IsQueued (scan_loop config left now top cursor s)
  unfolding scan_loop
  scan_loop-IsQueued zero now top cursor s q = record { unique = q.unique; marked = q.marked }
  scan_loop-IsQueued (suc left) now top cursor s q =
      let id = if leb top cursor then 0 else cursor in
      scan_loop-IsQueued left now top (sat_add u64_max id 1) (scan_one config now id s)
        (scan_one-IsQueued now id s q)

  delete_one-IsQueued : (id : ℕ) (s : State World) → IsQueued s → IsQueued (delete_one config id s)
  unfolding delete_one
  delete_one-IsQueued id s q = elim (Option-cases (config.delete_post id s.world).1) [
    | inl e ↦
        rw (e, delete_one)
          (record {
            unique = erase-HasUniqueKeys id s.deletion_queue q.unique;
            marked = λ x at h. ground (
              arith,
              q.marked x at,
              lookup-erase_ne x id s.deletion_queue,
              lookup-erase_self id s.deletion_queue q.unique,
            );
          })
    | inr (root, e) ↦
        rw (e, delete_one)
          (record {
            unique = erase-HasUniqueKeys id s.deletion_queue q.unique;
            marked = λ x at h. ground (
              arith,
              q.marked x at,
              lookup-erase_ne x id s.deletion_queue,
              lookup-erase_self id s.deletion_queue q.unique,
            );
          })
  ]

  delete_all-IsQueued :
      (ids : List ℕ) (s : State World) → IsQueued s → IsQueued (delete_all config ids s)
  unfolding delete_all
  delete_all-IsQueued [] s q = q
  delete_all-IsQueued (id ∷ ids) s q =
      delete_all-IsQueued ids (delete_one config id s) (delete_one-IsQueued id s q)

  run_scan_pass-IsQueued :
      (now : ℕ) (s : State World) → IsQueued s → IsQueued (run_scan_pass config now s)
  unfolding run_scan_pass
  run_scan_pass-IsQueued now s q = elim (Bool-cases (config.next_post_id s.world == 0)) [
    | inl e ↦ rw e q
    | inr e ↦ rw e (
        scan_loop-IsQueued config.max_posts_scanned_per_block now (config.next_post_id s.world)
          s.scan_cursor s q)
  ]

  run_deletion_pass-IsQueued :
      (now : ℕ) (s : State World) → IsQueued s → IsQueued (run_deletion_pass config now s)
  unfolding run_deletion_pass
  run_deletion_pass-IsQueued now s q =
      elim (Bool-cases
        (config.max_deletions_per_block == 0 || config.max_deletion_scan_reads == 0)) [
          | inl e ↦ rw e q
          | inr e ↦ rw e (
              delete_all-IsQueued (candidates config now s).0
                (record s { deletion_cursor = (candidates config now s).1 })
                (record { unique = q.unique; marked = q.marked }))
        ]

  -- What happens to the pallet: a post that was not there is created, a reaction comes, a block ends,
  -- and the block and the other pallets go on.
  pub data Step : State World → State World → Type 0 where
    created :
        {s : State World} (id : ℕ) → s.post_scores id ≡ none → Step s (on_post_created config id s)
    reacted :
        {s : State World} (id : ℕ) (kind : ReactionType) → Step s (on_reaction config id kind s)
    finalized : {s : State World} → Step s (on_finalize config s.block_number s)
    passed :
        {s : State World} (now : ℕ) (world : World)
        → Step s (record s { block_number = now; world = world })

  pub data Steps : State World → State World → Type 0 where
    done : {s : State World} → Steps s s
    after : {s t u : State World} → Steps s t → Step t u → Steps s u

  Step-IsQueued : {s t : State World} → Step s t → IsQueued s → IsQueued t
  unfolding on_finalize
  Step-IsQueued {s} (created id fresh) q = on_post_created-IsQueued id s fresh q
  Step-IsQueued {s} (reacted id kind) q = on_reaction-IsQueued id kind s q
  Step-IsQueued {s} finalized q =
      run_deletion_pass-IsQueued s.block_number (run_scan_pass config s.block_number s)
        (run_scan_pass-IsQueued s.block_number s q)
  Step-IsQueued {s} (passed now world) q = record { unique = q.unique; marked = q.marked }

  -- Along any sequence of creations of new posts, reactions and ends of blocks, it stays true
  -- that a post in the deletion queue is there and marked, and that its entry is the block of the
  -- mark plus the grace period (at most the largest u32).
  pub Steps-IsQueued : {s t : State World} → Steps s t → IsQueued s → IsQueued t
  Steps-IsQueued done q = q
  Steps-IsQueued (after path step) q = Step-IsQueued step (Steps-IsQueued path q)
