-- ===== src/Post/Undo.antt =====
-- The deletion of a post undoes its creation.
use anarchy.Base.{
  ℕ, ◌+◌, ◌≡◌, refl, ap, true, false, arith, Option, none, some, List, [], ◌∷◌, ◌++◌, contains,
  ◌==◌, inl, inr, sym, ◌∙◌, subst,
}
use anarchy.Base.Dispatch.{ok, err-ok, ok_same}
use anarchy.Post.Types.{Config, State, PostContent}
use anarchy.Post.{Draft, create_post, delete_post, retain_others}
use anarchy.Post.Created.{Creates, create_post-Creates}
use anarchy.Post.Index.{IsIndexed, root_of}

retain_none : (gone : ℕ) (ids : List ℕ) → contains gone ids ≡ false → retain_others gone ids ≡ ids
unfolding contains retain_others
retain_none gone [] h = refl
retain_none gone (x ∷ ids) h =
    let apart : (x == gone) ≡ false = ground (arith, h) in
    let others : contains gone ids ≡ false = ground (arith, h) in
    rw (apart) (ap (λ l. x ∷ l) (retain_none gone ids others))

retain-append :
    (gone : ℕ) (ids : List ℕ) → retain_others gone (ids ++ gone ∷ []) ≡ retain_others gone ids
unfolding retain_others
retain-append gone [] = ground arith
retain-append gone (x ∷ ids) = rw (retain-append gone ids) refl

same : (n : ℕ) → (n == n) ≡ true
same n = ground arith

no_content : (o : Option PostContent) → root_of o ≡ none → o ≡ none
no_content none h = refl
no_content (some c) h = absurd (ground arith)

module _ {World : Type 0} (config : Config World) where
  pub created :
      (who : ℕ) (d : Draft) (s t : State World)
      → create_post config who d s ≡ ok t
      → Creates config who d s t
  created who d s t h = elim (create_post-Creates config who d s) [
    | inl (e, refused, _) ↦ absurd (err-ok (sym refused ∙ h))
    | inr (u, accepted, c) ↦ subst (λ v. Creates config who d s v) (ok_same accepted h) c
  ]

  -- The deletion of a post that has just been created, in a state whose indices agree, succeeds and
  -- returns its Merkle root; posts, contents, roots and lists of authors are as before the
  -- creation, and the number is not used again.
  pub create_post-delete_post :
      (who : ℕ) (d : Draft) (s t : State World)
      → IsIndexed s
      → create_post config who d s ≡ ok t
      → (u : State World) × (delete_post s.next_post_id t ≡ ok (u, d.merkle_root))
        × (u.next_post_id ≡ s.next_post_id + 1)
        × ((id : ℕ) → u.posts id ≡ s.posts id)
        × ((id : ℕ) → u.content_refs id ≡ s.content_refs id)
        × ((root : ℕ) → u.merkle_root_to_post_id root ≡ s.merkle_root_to_post_id root)
        × ((a : ℕ) → u.user_posts a ≡ s.user_posts a)
  unfolding delete_post
  create_post-delete_post who d s t x h =
      let c = created who d s t h in
      let new = s.next_post_id in
      let unused = x.below new (omega arith) in
      let no_content = no_content (s.content_refs new) (rw (x.contents new, unused) refl) in
      let relist : retain_others new (s.user_posts who ++ new ∷ []) ≡ s.user_posts who =
        retain-append new (s.user_posts who)
        ∙ retain_none new (s.user_posts who) (x.listed who new ∙ rw unused refl) in
      rw (c.result, same new)
        (
          _,
          refl,
          refl,
          λ id. ground (arith, unused),
          λ id. ground (arith, no_content),
          λ root. ground (arith, c.new_root),
          λ a. rw (same who, relist) (ground arith),
        )
