-- ===== src/Chain/Served.antt =====
-- Every post that exists has its fragment registered.
use anarchy.Base.{
  ℕ, ◌≡◌, refl, sym, ap, ◌∙◌, true, arith, Option, none, some, List, [], ◌∷◌, is_some, Option-cases,
  inl, inr, ◌==◌, if◌then◌else◌, min, u32_max, some_same, none-some, subst,
}
use anarchy.Base.Dispatch.{ok, commit, Result-cases}
use anarchy.Popularity
use anarchy.Post.{Draft, create_post, delete_post, distribute, total_cost}
use anarchy.Post.Types.{State as PostState}
use anarchy.Post.Created.{Creates, create_post-Creates}
use anarchy.Post.Index.{IsIndexed, hash_of, create_post-IsIndexed, delete_post-IsIndexed}
use anarchy.Popularity.Reach.{released, on_finalize_keeps, on_reaction_world}
use anarchy.Storage.Nodes.{register_fragment_at}
use anarchy.Storage.Types.{State as StorageState}
use anarchy.Storage.Release.{do_release_fragment, do_deposit_to_reward_pool}
use anarchy.Storage.Lasting.{step_keeps_fragment}
use anarchy.Chain.{
  Pillars, Chain, Setup, post_config, popularity_config, create, dispatch, run, Call, create_call,
  storage_call, reaction_counted, popularity_pass, reaction_acts, base_fee_acts, next_block,
  deleted, to_option, with_storage, with_tokens,
}

module _ {Bonds Tokens Outside : Type 0} where
  -- The indices of the posts agree, and every post has its fragment in the storage pallet.
  pub record IsServed (p : PostState (Pillars Bonds Tokens Outside)) : Type 0 where
    pub indexed : IsIndexed p
    pub stored :
        (id root : ℕ)
        → hash_of (p.posts id) ≡ some root
        → is_some (p.world.storage.fragments root) ≡ true

  -- The same posts on other pillars.
  moved :
      (p q : PostState (Pillars Bonds Tokens Outside))
      → q.next_post_id ≡ p.next_post_id
      → q.posts ≡ p.posts
      → q.content_refs ≡ p.content_refs
      → q.merkle_root_to_post_id ≡ p.merkle_root_to_post_id
      → q.user_posts ≡ p.user_posts
      → ((root : ℕ)
          → is_some (p.world.storage.fragments root) ≡ true
          → is_some (q.world.storage.fragments root) ≡ true)
      → IsServed p
      → IsServed q
  moved p q next posts refs roots users kept h = record {
    indexed = record {
      below = λ id k. rw posts (h.indexed.below id (rw next at k));
      rooted = λ id root e. rw roots (h.indexed.rooted id root (rw posts at e));
      points = λ root id e. rw posts (h.indexed.points root id (rw roots at e));
      contents = λ id. rw (refs, posts) (h.indexed.contents id);
      listed = λ a id. rw (users, posts) (h.indexed.listed a id);
    };
    stored = λ id root e. kept root (h.stored id root (rw posts at e));
  }

module _ {Bonds Tokens Outside : Type 0} (setup : Setup Bonds Tokens Outside) where
  burnt_fragments :
      (left : Option Tokens) (w w' : Pillars Bonds Tokens Outside)
      → with_tokens setup left w ≡ some w'
      → w'.storage.fragments ≡ w.storage.fragments
  burnt_fragments none w w' h = absurd (none-some h)
  burnt_fragments (some left) w w' h =
      ap (λ (x : Pillars Bonds Tokens Outside). x.storage.fragments) (sym (some_same h))

  register-fragments :
      (at id size who root : ℕ) (s t : StorageState Bonds Tokens)
      → register_fragment_at setup.env at id size who s ≡ ok t
      → is_some (t.fragments root) ≡ (if id == root then true else is_some (s.fragments root))
  unfolding register_fragment_at
  register-fragments at id size who root s t h = ground arith

  registered_fragments :
      (at id size who root : ℕ) (w w' : Pillars Bonds Tokens Outside)
      → with_storage setup (to_option (register_fragment_at setup.env at id size who w.storage)) w
        ≡ some w'
      → is_some (w'.storage.fragments root)
        ≡ (if id == root then true else is_some (w.storage.fragments root))
  registered_fragments at id size who root w w' h =
      elim (Result-cases (register_fragment_at setup.env at id size who w.storage)) [
        | inl (e, refused) ↦ absurd (none-some (rw refused at h))
        | inr (t, accepted) ↦
            let e : some (record w { storage = t }) ≡ some w' = rw accepted at h in
            ap (λ (x : Pillars Bonds Tokens Outside). is_some (x.storage.fragments root))
              (sym (some_same e))
            ∙ register-fragments at id size who root w.storage t accepted
      ]

  distributed_fragments :
      (size : ℕ) (w : Pillars Bonds Tokens Outside)
      → (distribute (post_config setup) size w).storage.fragments ≡ w.storage.fragments
  unfolding distribute do_deposit_to_reward_pool
  distributed_fragments size w = refl

  pub spread_fragments :
      (who : ℕ) (d : Draft) (p t : PostState (Pillars Bonds Tokens Outside))
      → (c : Creates (post_config setup) who d p t)
      → (distribute (post_config setup) d.total_size c.burnt).storage.fragments
        ≡ p.world.storage.fragments
  spread_fragments who d p t c =
      distributed_fragments d.total_size c.burnt
      ∙ burnt_fragments
          (setup.burn_from who (total_cost (post_config setup) d.total_size p.world)
            p.world.storage.tokens)
          p.world c.burnt c.burns

  pub created_fragments :
      (who : ℕ) (d : Draft) (p t : PostState (Pillars Bonds Tokens Outside))
      → (c : Creates (post_config setup) who d p t) → (root : ℕ)
      → is_some (c.registered.storage.fragments root)
        ≡ (if d.merkle_root == root then true else is_some (p.world.storage.fragments root))
  created_fragments who d p t c root =
      registered_fragments p.block_number d.merkle_root (min d.total_size u32_max) who root
        (distribute (post_config setup) d.total_size c.burnt) c.registered c.registers
      ∙ rw (spread_fragments who d p t c) refl

  pub create_post-IsServed :
      (who : ℕ) (d : Draft) (p : PostState (Pillars Bonds Tokens Outside))
      → IsServed p
      → IsServed (commit p (create_post (post_config setup) who d p))
  create_post-IsServed who d p h = elim (create_post-Creates (post_config setup) who d p) [
    | inl (e, refused, _) ↦ rw refused h
    | inr (t, accepted, c) ↦ rw accepted (record {
      indexed = rw accepted at (create_post-IsIndexed (post_config setup) who d p h.indexed);
      stored = λ id root e.
          let f = created_fragments who d p t c root in
          let e' = rw c.result at e in rw c.result (ground (arith, f, e', h.stored id root));
    })
  ]

  unfoldable pub after_delete :
      ℕ → PostState (Pillars Bonds Tokens Outside) → PostState (Pillars Bonds Tokens Outside)
  after_delete id p =
      released (popularity_config setup) (deleted p (delete_post id p)).0
        (deleted p (delete_post id p)).1

  pub delete-IsServed :
      (id : ℕ) (p : PostState (Pillars Bonds Tokens Outside))
      → IsServed p
      → IsServed (after_delete id p)
  unfolding after_delete delete_post do_release_fragment anarchy.Post.Run.dispatch
  delete-IsServed gone p h = elim (Option-cases (p.posts gone)) [
    | inl missing ↦ rw missing h
    | inr (post, there) ↦
        let x = rw there at (delete_post-IsIndexed (post_config setup) gone p h.indexed) in
        rw there (record {
          indexed = record {
            below = x.below;
            rooted = x.rooted;
            points = x.points;
            contents = x.contents;
            listed = x.listed;
          };
          stored = λ id root e.
              ground
                (arith, h.stored id root, h.indexed.rooted id root, h.indexed.rooted gone root);
        })
  ]

  pub dispatch-IsServed :
      (call : Call setup) (c : Chain Bonds Tokens Outside)
      → IsServed c.world
      → IsServed (dispatch setup call c).world
  unfolding dispatch create Popularity.on_post_created delete_post after_delete
  dispatch-IsServed (create_call who d) c h =
      elim (Result-cases (create_post (post_config setup) who d c.world)) [
        | inl (e, refused) ↦ rw refused h
        | inr (t, accepted) ↦ rw accepted (rw accepted at (create_post-IsServed who d c.world h))
      ]
  dispatch-IsServed (storage_call call other) c h =
      moved c.world _ refl refl refl refl refl
        (λ root k. step_keeps_fragment setup.env call root c.world.world.storage other k) h
  dispatch-IsServed (reaction_counted id kind) c h =
      subst IsServed (sym (on_reaction_world (popularity_config setup) id kind c)) h
  dispatch-IsServed popularity_pass c h =
      on_finalize_keeps (popularity_config setup) IsServed delete-IsServed c.block_number c h
  dispatch-IsServed (reaction_acts s) c h = moved c.world _ refl refl refl refl refl (λ root k. k) h
  dispatch-IsServed (base_fee_acts s) c h = moved c.world _ refl refl refl refl refl (λ root k. k) h
  dispatch-IsServed next_block c h = moved c.world _ refl refl refl refl refl (λ root k. k) h

  -- Along any sequence of posts, calls of the storage pallet, reactions, passes of the popularity
  -- pallet and blocks: the indices of the posts agree, and every post that exists has its fragment
  -- registered in the storage pallet, where only the deletion of that post releases it.
  pub run-IsServed :
      (calls : List (Call setup)) (c : Chain Bonds Tokens Outside)
      → IsServed c.world
      → IsServed (run setup calls c).world
  unfolding run
  run-IsServed [] c h = h
  run-IsServed (call ∷ calls) c h =
      run-IsServed calls (dispatch setup call c) (dispatch-IsServed call c h)
