-- ===== src/Chain/Front.antt =====
-- What other calls of the storage pallet do to a post: a fragment that is registered already blocks
-- its post, and the deletion of a post makes its content free again.
use anarchy.Base.{
  ℕ, ◌≡◌, ◌<◌, ◌≤◌, refl, sym, subst, Option-cases, Bool-cases, ◌==◌, List, [], ◌∷◌, true, arith,
  none, is_some, inl, inr, min, u32_max, none-some,
}
use anarchy.Base.Dispatch.{ok, err, commit, Result-cases}
use anarchy.Post.{Draft, create_post, delete_post, distribute}
use anarchy.Storage.Release.{do_release_fragment}
use anarchy.Post.Types.{State as PostState, Error}
use anarchy.Post.Created.{create_post-Creates}
use anarchy.Storage.Nodes.{register_fragment_at, register_fragment}
use anarchy.Storage.Types.{State as StorageState}
use anarchy.Popularity
use anarchy.Popularity.Reach.{on_finalize_keeps, on_reaction_world}
use anarchy.Storage.Lasting.{step_keeps_fragment}
use anarchy.Storage.Run.{register_fragment_call}
use anarchy.Chain.{
  Pillars, Chain, Setup, post_config, popularity_config, to_option, create, dispatch, run, Call,
  create_call, storage_call, reaction_counted, popularity_pass, reaction_acts, base_fee_acts,
  next_block,
}
use anarchy.Chain.Served.{
  IsServed, spread_fragments, created_fragments, after_delete, create_post-IsServed,
  delete-IsServed, dispatch-IsServed,
}

module _ {Bonds Tokens Outside : Type 0} (setup : Setup Bonds Tokens Outside) where
  known_refused :
      (at id size who : ℕ) (s : StorageState Bonds Tokens)
      → is_some (s.fragments id) ≡ true
      → to_option (register_fragment_at setup.env at id size who s) ≡ none
  unfolding register_fragment_at
  known_refused at id size who s h = ground arith

  registered_known :
      (who id size : ℕ) (s t : StorageState Bonds Tokens)
      → register_fragment setup.env who id size s ≡ ok t
      → is_some (t.fragments id) ≡ true
  unfolding register_fragment register_fragment_at
  registered_known who id size s t h = ground arith

  -- A known fragment of which there is no post.
  pub record IsTaken (id : ℕ) (p : PostState (Pillars Bonds Tokens Outside)) : Type 0 where
    pub served : IsServed p
    pub known : is_some (p.world.storage.fragments id) ≡ true
    pub postless : p.merkle_root_to_post_id id ≡ none

  taken_refused :
      (id who : ℕ) (d : Draft) (p : PostState (Pillars Bonds Tokens Outside))
      → IsTaken id p
      → d.merkle_root ≡ id
      → (e : Error) × (create_post (post_config setup) who d p ≡ err e)
  taken_refused id who d p h root = elim (create_post-Creates (post_config setup) who d p) [
    | inl (e, refused, _) ↦ (e, refused)
    | inr (u, accepted, c) ↦
        let spread = distribute (post_config setup) d.total_size c.burnt in
        let known : is_some (spread.storage.fragments d.merkle_root) ≡ true =
          rw (spread_fragments setup who d p u c, root) h.known in
        let refused =
          known_refused p.block_number d.merkle_root (min d.total_size u32_max) who spread.storage
            known in
        absurd (none-some (rw refused at c.registers))
  ]

  create_post-IsTaken :
      (id who : ℕ) (d : Draft) (p : PostState (Pillars Bonds Tokens Outside))
      → IsTaken id p
      → IsTaken id (commit p (create_post (post_config setup) who d p))
  create_post-IsTaken id who d p h = elim (Bool-cases (d.merkle_root == id)) [
    | inl same ↦ rw ((taken_refused id who d p h (ground (arith, same))).1) h
    | inr other ↦ elim (create_post-Creates (post_config setup) who d p) [
      | inl (e, refused, _) ↦ rw refused h
      | inr (t, accepted, c) ↦ rw accepted (record {
        served = rw accepted at (create_post-IsServed setup who d p h.served);
        known = rw c.result (ground (arith, created_fragments setup who d p t c id, h.known));
        postless = rw c.result (ground (arith, other, h.postless));
      })
    ]
  ]

  delete-IsTaken :
      (id gone : ℕ) (p : PostState (Pillars Bonds Tokens Outside))
      → IsTaken id p
      → IsTaken id (after_delete setup gone p)
  unfolding after_delete delete_post do_release_fragment
  delete-IsTaken id gone p h =
      let served = delete-IsServed setup gone p h.served in
      elim (Option-cases (p.posts gone)) [
        | inl missing ↦ rw missing h
        | inr (post, there) ↦
            let rooted = h.served.indexed.rooted gone post.content_hash (rw there refl) in
            rw there (record {
              served = rw there at served;
              known = ground (arith, h.known, h.postless, rooted);
              postless = ground (arith, h.postless);
            })
      ]

  dispatch-IsTaken :
      (id : ℕ) (call : Call setup) (c : Chain Bonds Tokens Outside)
      → IsTaken id c.world
      → IsTaken id (dispatch setup call c).world
  unfolding dispatch create Popularity.on_post_created delete_post after_delete
  dispatch-IsTaken id (create_call who d) c h =
      elim (Result-cases (create_post (post_config setup) who d c.world)) [
        | inl (e, refused) ↦ rw refused h
        | inr (t, accepted) ↦ rw accepted (rw accepted at (create_post-IsTaken id who d c.world h))
      ]
  dispatch-IsTaken id (storage_call call other) c h = record {
    served = dispatch-IsServed setup (storage_call call other) c h.served;
    known = step_keeps_fragment setup.env call id c.world.world.storage other h.known;
    postless = h.postless;
  }
  dispatch-IsTaken id (reaction_counted post kind) c h =
      subst (IsTaken id) (sym (on_reaction_world (popularity_config setup) post kind c)) h
  dispatch-IsTaken id popularity_pass c h =
      on_finalize_keeps (popularity_config setup) (IsTaken id) (delete-IsTaken id) c.block_number c
        h
  dispatch-IsTaken id (reaction_acts s) c h = record {
    served = dispatch-IsServed setup (reaction_acts s) c h.served;
    known = h.known;
    postless = h.postless;
  }
  dispatch-IsTaken id (base_fee_acts s) c h = record {
    served = dispatch-IsServed setup (base_fee_acts s) c h.served;
    known = h.known;
    postless = h.postless;
  }
  dispatch-IsTaken id next_block c h = record {
    served = dispatch-IsServed setup next_block c h.served;
    known = h.known;
    postless = h.postless;
  }

  run-IsTaken :
      (id : ℕ) (calls : List (Call setup)) (c : Chain Bonds Tokens Outside)
      → IsTaken id c.world
      → IsTaken id (run setup calls c).world
  unfolding run
  run-IsTaken id [] c h = h
  run-IsTaken id (call ∷ calls) c h =
      run-IsTaken id calls (dispatch setup call c) (dispatch-IsTaken id call c h)

  registered_free :
      (who id size : ℕ) (s t : StorageState Bonds Tokens)
      → register_fragment setup.env who id size s ≡ ok t
      → (t.tokens ≡ s.tokens) × (t.bonds ≡ s.bonds)
  unfolding register_fragment register_fragment_at
  registered_free who id size s t h = (ground arith, ground arith)

  -- The chain after a call of the storage pallet that led its state to `t`.
  abbrev pub with_state :
      StorageState Bonds Tokens → Chain Bonds Tokens Outside → Chain Bonds Tokens Outside
  with_state t c = record c {
    world = record c.world { world = record c.world.world { storage = t } };
  }

  register_fragment_succeeds :
      (who id size : ℕ) (s : StorageState Bonds Tokens)
      → 0 < size
      → size ≤ setup.env.max_fragment_size
      → s.fragments id ≡ none
      → (t : StorageState Bonds Tokens) × (register_fragment setup.env who id size s ≡ ok t)
  unfolding register_fragment register_fragment_at
  register_fragment_succeeds who id size s positive fits free =
      elim (Result-cases (register_fragment setup.env who id size s)) [
        | inl (e, refused) ↦ absurd (ground (arith, refused, positive, fits, free))
        | inr accepted ↦ accepted
      ]

  -- In a chain where the storage pallet knows the fragment of every post, any account can register
  -- a fragment of an allowed size under an identifier that is neither known nor the Merkle root of a
  -- post, which changes no tokens and no bonds. After it, along any sequence of posts, calls of the
  -- storage pallet, reactions, passes of the popularity pallet and blocks, no account can create the
  -- post whose Merkle root is that identifier.
  pub register_fragment_blocks :
      (stranger id size : ℕ) (c : Chain Bonds Tokens Outside)
      → IsServed c.world
      → c.world.merkle_root_to_post_id id ≡ none
      → 0 < size
      → size ≤ setup.env.max_fragment_size
      → c.world.world.storage.fragments id ≡ none
      → (calls : List (Call setup)) (who : ℕ) (d : Draft) → d.merkle_root ≡ id
      → (t : StorageState Bonds Tokens) × (register_fragment setup.env stranger id size
            c.world.world.storage
          ≡ ok t)
        × (t.tokens ≡ c.world.world.storage.tokens)
        × (t.bonds ≡ c.world.world.storage.bonds)
        × ((e : Error) × (create_post
                (post_config setup)
                who
                d
                (run setup calls (with_state t c)).world
              ≡ err e))
  unfolding dispatch anarchy.Storage.Run.dispatch
  register_fragment_blocks stranger id size c served postless positive fits unknown calls who d
        root =
      let (t, registers) =
        register_fragment_succeeds stranger id size c.world.world.storage positive fits unknown in
      let free = registered_free stranger id size c.world.world.storage t registers in
      let called =
        dispatch-IsServed setup (storage_call (register_fragment_call stranger id size) refl) c
          served in
      let start : IsTaken id (with_state t c).world = record {
        served = rw registers at called;
        known = registered_known stranger id size c.world.world.storage t registers;
        postless = postless;
      } in
      let blocked = taken_refused id who d _ (run-IsTaken id calls (with_state t c) start) root in
      (t, registers, free.0, free.1, blocked)
