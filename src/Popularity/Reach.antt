-- ===== src/Popularity/Reach.antt =====
-- The passes at the end of a block reach the other pallets only through `delete_post` and
-- `release_fragment`.
use anarchy.Base.{
  ℕ, zero, suc, ◌≡◌, ◌∙◌, refl, sym, Option, none, some, List, [], ◌∷◌, arith, Option-cases,
  Bool-cases, inl, inr, subst, ◌==◌, ◌||◌, leb, if◌then◌else◌, sat_add, u64_max,
}
use anarchy.Popularity.{
  Config, State, PostPopularity, ReactionType, scan_post, scan_one, scan_loop, run_scan_pass,
  delete_one, delete_all, candidates, run_deletion_pass, on_finalize, on_reaction,
}

module _ {World : Type 0} (config : Config World) where
  -- The world after the deletion of one post.
  abbrev pub released : World → Option ℕ → World
  released w none = w
  released w (some root) = config.release_fragment root w

  pub on_reaction_world :
      (id : ℕ) (kind : ReactionType) (s : State World)
      → (on_reaction config id kind s).world ≡ s.world
  unfolding on_reaction
  on_reaction_world id kind s = ground arith

  scan_post_world :
      (now id : ℕ) (p : PostPopularity) (s : State World)
      → (scan_post config now id p s).world ≡ s.world
  unfolding scan_post
  scan_post_world now id p s = ground arith

  scan_one_world : (now id : ℕ) (s : State World) → (scan_one config now id s).world ≡ s.world
  unfolding scan_one
  scan_one_world now id s = elim (Option-cases (s.post_scores id)) [
    | inl e ↦ rw (scan_one, e) refl
    | inr (p, e) ↦ rw (scan_one, e) (scan_post_world now id p s)
  ]

  scan_loop_world :
      (left now bound cursor : ℕ) (s : State World)
      → (scan_loop config left now bound cursor s).world ≡ s.world
  unfolding scan_loop
  scan_loop_world zero now bound cursor s = refl
  scan_loop_world (suc left) now bound cursor s =
      let id = if leb bound cursor then 0 else cursor in
      scan_loop_world left now bound (sat_add u64_max id 1) (scan_one config now id s)
      ∙ scan_one_world now id s

  scan_pass_world : (now : ℕ) (s : State World) → (run_scan_pass config now s).world ≡ s.world
  unfolding run_scan_pass
  scan_pass_world now s = ground (
    arith,
    scan_loop_world config.max_posts_scanned_per_block now (config.next_post_id s.world)
        s.scan_cursor s,
  )

  delete_one_world :
      (id : ℕ) (s : State World)
      → (delete_one config id s).world
        ≡ released (config.delete_post id s.world).0 (config.delete_post id s.world).1
  unfolding delete_one
  delete_one_world id s = elim (Option-cases (config.delete_post id s.world).1) [
    | inl e ↦ rw (delete_one, e) refl
    | inr (root, e) ↦ rw (delete_one, e) refl
  ]

  module _ {ℓ} (P : World → Type ℓ)
      (keep : (id : ℕ) (w : World)
        → P w
        → P (released (config.delete_post id w).0 (config.delete_post id w).1)) where
    delete_all_keeps :
        (ids : List ℕ) (s : State World) → P s.world → P (delete_all config ids s).world
    unfolding delete_all
    delete_all_keeps [] s h = h
    delete_all_keeps (id ∷ ids) s h =
        delete_all_keeps ids (delete_one config id s)
          (subst P (sym (delete_one_world id s)) (keep id s.world h))

    deletion_pass_keeps :
        (now : ℕ) (s : State World) → P s.world → P (run_deletion_pass config now s).world
    unfolding run_deletion_pass
    deletion_pass_keeps now s h =
        elim (Bool-cases
          (config.max_deletions_per_block == 0 || config.max_deletion_scan_reads == 0)) [
            | inl off ↦ rw off h
            | inr on ↦ rw on (
                delete_all_keeps (candidates config now s).0
                  (record s { deletion_cursor = (candidates config now s).1 }) h)
          ]

    -- What every deletion with its release keeps of the other pallets, the end of a block keeps.
    pub on_finalize_keeps :
        (now : ℕ) (s : State World) → P s.world → P (on_finalize config now s).world
    unfolding on_finalize
    on_finalize_keeps now s h =
        deletion_pass_keeps now (run_scan_pass config now s)
          (subst P (sym (scan_pass_world now s)) h)
