-- ===== src/Popularity.antt =====
-- The popularity of posts (apps/blockchain/pallets/popularity/src/lib.rs): scores that reactions raise
-- and time lowers, and the deletion of posts whose score stays low.
-- Posts are known by their number. The other pallets are parameters: `World` is their state. The
-- deletion queue is a table, and the order in which the storage iterates over it is a parameter.
pub mod Queue
pub mod Grace
pub mod Reach
mod Tests
use anarchy.Base.{
  ℕ, zero, suc, ◌+◌, ◌-◌, ◌&&◌, ◌||◌, not, Bool, true, false, Option, none, some, List, [], ◌∷◌,
  leb, ltb, ◌==◌, if◌then◌else◌, update, is_some, Table, insert, erase, sat_add, u32_max, u64_max,
}
use anarchy.Decay.{apply}

pub record Config (World : Type 0) : Type 0 where
  pub initial_score : ℕ
  pub like_weight : ℕ
  pub dislike_weight : ℕ
  pub decay_rate : ℕ
  pub low_popularity_threshold : ℕ
  pub hysteresis_margin : ℕ
  pub grace_period : ℕ
  pub max_posts_scanned_per_block : ℕ
  pub max_deletions_per_block : ℕ
  pub max_deletion_scan_reads : ℕ
  pub max_decay_steps : ℕ
  -- `PostCountProvider`, `PostMutator` (`none` is its error) and `StorageReleaser`.
  pub next_post_id : World → ℕ
  pub delete_post : ℕ → World → World × Option ℕ
  pub release_fragment : ℕ → World → World
  -- `iter_from` the cursor, or `iter` without one: the entries in the order of the storage.
  pub iterate : Option ℕ → Table ℕ → Table ℕ

pub data ReactionType : Type 0 where
  like dislike : ReactionType

pub record PostPopularity : Type 0 where
  pub stored_score : ℕ
  pub last_touched : ℕ
  pub like_count : ℕ
  pub dislike_count : ℕ
  pub marked_for_deletion_at : Option ℕ

pub data Event : Type 0 where
  post_marked_for_deletion : (post_id marked_at : ℕ) → Event
  post_unmarked_for_deletion post_deleted : (post_id : ℕ) → Event

pub record State (World : Type 0) : Type 0 where
  pub block_number : ℕ
  pub world : World
  pub events : List Event
  pub post_scores : ℕ → Option PostPopularity
  pub deletion_queue : Table ℕ
  pub scan_cursor : ℕ
  pub deletion_cursor : Option ℕ

module _ {World : Type 0} (config : Config World) where
  unfoldable pub effective_score_now : (now : ℕ) → PostPopularity → ℕ
  effective_score_now now p =
      apply p.stored_score (now - p.last_touched) config.decay_rate config.max_decay_steps

  abbrev pub new_post : (now : ℕ) → PostPopularity
  new_post now = record {
    stored_score = config.initial_score;
    last_touched = now;
    like_count = 0;
    dislike_count = 0;
    marked_for_deletion_at = none;
  }

  -- A score from which a marked post recovers.
  abbrev pub recovery : ℕ
  recovery = sat_add u64_max config.low_popularity_threshold config.hysteresis_margin

  unfoldable pub on_post_created : ℕ → State World → State World
  on_post_created post_id s = record s {
    post_scores = update post_id (some (new_post s.block_number)) s.post_scores;
  }

  -- Steps 1 and 2 of a reaction: the decay up to now, then the counter and the weight.
  unfoldable pub count_reaction : ReactionType → (now : ℕ) → PostPopularity → PostPopularity
  count_reaction like now p = record p {
    stored_score = sat_add u64_max (effective_score_now now p) config.like_weight;
    last_touched = now;
    like_count = sat_add u32_max p.like_count 1;
  }
  count_reaction dislike now p = record p {
    stored_score = sat_add u64_max (effective_score_now now p) config.dislike_weight;
    last_touched = now;
    dislike_count = sat_add u32_max p.dislike_count 1;
  }

  -- The entry of a post, made where it is missing.
  abbrev pub entry_or_new : (now : ℕ) → Option PostPopularity → PostPopularity
  entry_or_new now none = new_post now
  entry_or_new now (some p) = p

  unfoldable pub on_reaction : ℕ → ReactionType → State World → State World
  on_reaction post_id kind s =
      let p =
        count_reaction kind s.block_number (entry_or_new s.block_number (s.post_scores post_id)) in
      let kept = record s { post_scores = update post_id (some p) s.post_scores } in
      if is_some p.marked_for_deletion_at && leb recovery p.stored_score
      then record s {
        post_scores =
            update post_id (some (record p { marked_for_deletion_at = none })) s.post_scores;
        deletion_queue = erase post_id s.deletion_queue;
        events = post_unmarked_for_deletion post_id ∷ s.events;
      }
      else kept

  -- The body of the scan for a post that is there: mark, unmark or neither, and store the score.
  unfoldable pub scan_post : (now id : ℕ) → PostPopularity → State World → State World
  scan_post now id p s =
      let eff = effective_score_now s.block_number p in
      let p' = record p { stored_score = eff; last_touched = now } in
      if ltb eff config.low_popularity_threshold && not (is_some p.marked_for_deletion_at)
      then record s {
        post_scores =
            update id (some (record p' { marked_for_deletion_at = some now })) s.post_scores;
        deletion_queue = insert id (sat_add u32_max now config.grace_period) s.deletion_queue;
        events = post_marked_for_deletion id now ∷ s.events;
      }
      else (if leb recovery eff && is_some p.marked_for_deletion_at
          then record s {
            post_scores =
                update id (some (record p' { marked_for_deletion_at = none })) s.post_scores;
            deletion_queue = erase id s.deletion_queue;
            events = post_unmarked_for_deletion id ∷ s.events;
          }
          else record s { post_scores = update id (some p') s.post_scores })

  unfoldable pub scan_one : (now id : ℕ) → State World → State World
  unfolding scan_post
  scan_one now id s = elim (s.post_scores id) [ none ↦ s | some p ↦ scan_post now id p s ]

  -- The loop with `left` posts left to scan.
  unfoldable pub scan_loop : (left now max_post_id cursor : ℕ) → State World → State World
  unfolding scan_one
  scan_loop zero now max_post_id cursor s = record s {
    scan_cursor = if leb max_post_id cursor then 0 else cursor;
  }
  scan_loop (suc left) now max_post_id cursor s =
      let id = if leb max_post_id cursor then 0 else cursor in
      scan_loop left now max_post_id (sat_add u64_max id 1) (scan_one now id s)

  unfoldable pub run_scan_pass : (now : ℕ) → State World → State World
  unfolding scan_loop
  run_scan_pass now s =
      let max_post_id = config.next_post_id s.world in
      if max_post_id == 0
      then s
      else scan_loop config.max_posts_scanned_per_block now max_post_id s.scan_cursor s

  -- The loop over the queue, with `reads` and `room` left: the posts to delete, and the new cursor.
  unfoldable pub collect : (now reads room : ℕ) → Option ℕ → Table ℕ → List ℕ × Option ℕ
  collect now zero room cursor entries = ([], cursor)
  collect now (suc reads) room cursor [] = ([], none)
  collect now (suc reads) room cursor ((id, eligible_at) ∷ rest) =
      let more = collect now reads (room - 1) (some id) rest in
      let others = collect now reads room (some id) rest in
      if leb eligible_at now
      then (if leb room 1 then (id ∷ [], some id) else (id ∷ more.0, more.1))
      else others

  unfoldable pub delete_one : ℕ → State World → State World
  delete_one id s =
      let (world, root) = config.delete_post id s.world in
      let dropped = record s { world = world; deletion_queue = erase id s.deletion_queue } in
      elim root [
        | none ↦ dropped
        | some merkle_root ↦ record dropped {
          world = config.release_fragment merkle_root world;
          post_scores = update id none s.post_scores;
          events = post_deleted id ∷ s.events;
        }
      ]

  unfoldable pub delete_all : List ℕ → State World → State World
  unfolding delete_one
  delete_all [] s = s
  delete_all (id ∷ ids) s = delete_all ids (delete_one id s)

  -- The posts to delete in this block, and where the next block goes on.
  unfoldable pub candidates : (now : ℕ) → State World → List ℕ × Option ℕ
  candidates now s =
      collect now config.max_deletion_scan_reads config.max_deletions_per_block s.deletion_cursor
        (config.iterate s.deletion_cursor s.deletion_queue)

  unfoldable pub run_deletion_pass : (now : ℕ) → State World → State World
  unfolding delete_all
  run_deletion_pass now s =
      if config.max_deletions_per_block == 0 || config.max_deletion_scan_reads == 0
      then s
      else delete_all (candidates now s).0 (record s { deletion_cursor = (candidates now s).1 })

  unfoldable pub on_finalize : (now : ℕ) → State World → State World
  unfolding run_scan_pass run_deletion_pass
  on_finalize now s = run_deletion_pass now (run_scan_pass now s)
