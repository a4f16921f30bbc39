-- ===== src/Post/Index.antt =====
-- The indices of the posts agree: by number, by Merkle root, by content and by author.
use anarchy.Base.{
  ℕ, ◌≡◌, ◌≤◌, inl, inr, Bool, true, false, arith, Option, none, some, List, Option-cases, [], ◌∷◌,
  ◌++◌, contains, ◌==◌, if◌then◌else◌,
}
use anarchy.Base.Dispatch.{commit}
use anarchy.Post.Types.{Config, State, Post, PostContent}
use anarchy.Post.{Draft, create_post, delete_post, retain_others}
use anarchy.Post.Created.{create_post-Creates}
use anarchy.Post.Run.{
  Call, dispatch, step, run, run_invariant, create_call, delete_by_popularity, others_act,
  next_block,
}

abbrev pub hash_of : Option Post → Option ℕ
hash_of none = none
hash_of (some p) = some p.content_hash

abbrev pub root_of : Option PostContent → Option ℕ
root_of none = none
root_of (some c) = some c.root

abbrev pub written_by : ℕ → Option Post → Bool
written_by a none = false
written_by a (some p) = p.author == a

-- Posts have numbers below the next one; the Merkle roots point to exactly the posts, so that no two
-- posts share one; every post has its content, and each author's list has exactly his posts.
pub record IsIndexed {World : Type 0} (s : State World) : Type 0 where
  pub below : (id : ℕ) → s.next_post_id ≤ id → s.posts id ≡ none
  pub rooted :
      (id root : ℕ) → hash_of (s.posts id) ≡ some root → s.merkle_root_to_post_id root ≡ some id
  pub points :
      (root id : ℕ) → s.merkle_root_to_post_id root ≡ some id → hash_of (s.posts id) ≡ some root
  pub contents : (id : ℕ) → root_of (s.content_refs id) ≡ hash_of (s.posts id)
  pub listed : (a id : ℕ) → contains id (s.user_posts a) ≡ written_by a (s.posts id)

contains-append :
    (id new : ℕ) (ids : List ℕ)
    → contains id (ids ++ new ∷ []) ≡ (if new == id then true else contains id ids)
unfolding contains
contains-append id new [] = ground arith
contains-append id new (x ∷ ids) = ground (arith, contains-append id new ids)

contains-retain :
    (id gone : ℕ) (ids : List ℕ)
    → contains id (retain_others gone ids) ≡ (if gone == id then false else contains id ids)
unfolding contains retain_others
contains-retain id gone [] = ground arith
contains-retain id gone (x ∷ ids) = ground (arith, contains-retain id gone ids)

module _ {World : Type 0} (config : Config World) where
  pub create_post-IsIndexed :
      (who : ℕ) (d : Draft) (s : State World)
      → IsIndexed s
      → IsIndexed (commit s (create_post config who d s))
  create_post-IsIndexed who d s x = elim (create_post-Creates config who d s) [
    | inl (e, refused, _) ↦ rw refused x
    | inr (t, created, c) ↦
        rw (created, c.result)
          (record {
            below = λ id h. ground (arith, x.below id);
            rooted = λ id root h. ground (arith, x.rooted id root, c.new_root);
            points =
                λ root id h. ground (arith, x.points root id, x.below s.next_post_id, c.new_root);
            contents = λ id. ground (arith, x.contents id);
            listed = λ a id. ground (
              arith,
              contains-append id s.next_post_id (s.user_posts a),
              x.listed a id,
              x.below id,
            );
          })
  ]

  pub delete_post-IsIndexed :
      (id : ℕ) (s : State World) → IsIndexed s → IsIndexed (step config (delete_by_popularity id) s)
  unfolding dispatch delete_post
  delete_post-IsIndexed gone s x = elim (Option-cases (s.posts gone)) [
    | inl missing ↦ rw missing x
    | inr (p, there) ↦ rw there (record {
      below = λ id h. ground (arith, x.below id);
      rooted = λ id root h. ground (arith, x.rooted id root, x.rooted gone root);
      points = λ root id h. ground (arith, x.points root id);
      contents = λ id. ground (arith, x.contents id);
      listed = λ a id. ground (arith, contains-retain id gone (s.user_posts a), x.listed a id);
    })
  ]

  step-IsIndexed : (c : Call World) (s : State World) → IsIndexed s → IsIndexed (step config c s)
  unfolding dispatch
  step-IsIndexed (create_call who d) s x = create_post-IsIndexed who d s x
  step-IsIndexed (delete_by_popularity id) s x = delete_post-IsIndexed id s x
  step-IsIndexed (others_act world) s x = record {
    below = x.below;
    rooted = x.rooted;
    points = x.points;
    contents = x.contents;
    listed = x.listed;
  }
  step-IsIndexed next_block s x = record {
    below = x.below;
    rooted = x.rooted;
    points = x.points;
    contents = x.contents;
    listed = x.listed;
  }

  -- Along any sequence of creations, deletions and blocks, the indices agree: every number in use
  -- is below the next one, the Merkle roots point to exactly the posts (so that no two posts share
  -- a root), every post has the content of its root, and the list of an author has exactly his posts.
  pub run-IsIndexed :
      (cs : List (Call World)) (s : State World) → IsIndexed s → IsIndexed (run config cs s)
  run-IsIndexed = run_invariant config IsIndexed step-IsIndexed
