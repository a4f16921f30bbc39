-- ===== src/Post/Created.antt =====
-- When a post is created and what that does; and for what reason it is refused.
use anarchy.Base.{
  ℕ, ◌+◌, ◌≡◌, ◌≤◌, ◌<◌, ◌⊎◌, inl, inr, refl, true, false, ◌&&◌, arith, min, none, some,
  Option-cases, Bool-cases, is_some, u32_max, u64_max, ltb, leb, length, ◌++◌, [], ◌∷◌, update,
  leb→le, lt→ltb, Option, none-some, some_same, sym,
}
use anarchy.Base.Dispatch.{ok, err}
use anarchy.Post.Types.{
  Config, State, Error, content_too_long, too_many_posts, parent_post_not_found,
  insufficient_moral_balance, invalid_kn_parameters, duplicate_merkle_root,
  cost_calculation_overflow, post_id_overflow, fragment_registration_failed, post_not_found,
  post_created,
}
use anarchy.Post.{
  Draft, create_post, check_draft, parent_exists, total_cost, distribute, max_user_posts,
}

module _ {World : Type 0} (config : Config World) where
  -- What each error says of the draft and the state.
  pub Reason : (who : ℕ) → Draft → State World → Error → Type 0
  Reason who d s invalid_kn_parameters = (d.k ≡ 0) ⊎ ((d.n < d.k) ⊎ (255 < d.n))
  Reason who d s content_too_long = config.max_content_length < d.total_size
  Reason who d s duplicate_merkle_root = is_some (s.merkle_root_to_post_id d.merkle_root) ≡ true
  Reason who d s parent_post_not_found = parent_exists config d.parent_id s ≡ false
  Reason who d s too_many_posts = max_user_posts ≤ length (s.user_posts who)
  Reason who d s insufficient_moral_balance =
      config.burn_from who (total_cost config d.total_size s.world) s.world ≡ none
  Reason who d s post_id_overflow = u64_max ≤ s.next_post_id
  Reason who d s fragment_registration_failed =
      (w : World) × (config.burn_from who (total_cost config d.total_size s.world) s.world ≡ some w)
      × (config.do_register_fragment d.merkle_root (min d.total_size u32_max) who s.block_number
            (distribute config d.total_size w)
          ≡ none)
  Reason who d s cost_calculation_overflow = ⊥
  Reason who d s post_not_found = ⊥

  -- The checks that a creation has passed, and its effects.
  pub record Creates (who : ℕ) (d : Draft) (s t : State World) : Type 0 where
    pub shares : (0 < d.k) × ((d.k ≤ d.n) × (d.n ≤ 255))
    pub size : d.total_size ≤ config.max_content_length
    pub parent : (pid : ℕ) → d.parent_id ≡ some pid → is_some (s.posts pid) ≡ true
    pub number : s.next_post_id < u64_max
    pub new_root : s.merkle_root_to_post_id d.merkle_root ≡ none
    pub burnt : World
    pub burns : config.burn_from who (total_cost config d.total_size s.world) s.world ≡ some burnt
    pub registered : World
    pub registers :
        config.do_register_fragment d.merkle_root
          (min d.total_size u32_max)
          who
          s.block_number
          (distribute config d.total_size burnt)
        ≡ some registered
    pub room : length (s.user_posts who) < max_user_posts
    pub result : t ≡ record s {
      next_post_id = s.next_post_id + 1;
      posts =
          update s.next_post_id
            (some (record {
              author = who;
              content_hash = d.merkle_root;
              created_at = s.block_number;
              parent_id = d.parent_id;
            }))
            s.posts;
      content_refs =
          update s.next_post_id
            (some (record {
              root = d.merkle_root;
              k = d.k;
              n = d.n;
              size = d.total_size;
              ciphertext_len = d.ciphertext_len;
              shard_size = d.shard_size;
              compressed = d.compressed;
            }))
            s.content_refs;
      merkle_root_to_post_id = update d.merkle_root (some s.next_post_id) s.merkle_root_to_post_id;
      user_posts = update who (s.user_posts who ++ s.next_post_id ∷ []) s.user_posts;
      world = config.on_post_created s.next_post_id registered;
      events = post_created s.next_post_id who d.merkle_root ∷ s.events;
    }

  -- The checks that no other field of `Creates` speaks of.
  record Passes (d : Draft) (s : State World) : Type 0 where
    pub shares : (0 < d.k) × ((d.k ≤ d.n) × (d.n ≤ 255))
    pub size : d.total_size ≤ config.max_content_length
    pub parent : (pid : ℕ) → d.parent_id ≡ some pid → is_some (s.posts pid) ≡ true

  parent_found :
      (o : Option ℕ) (s : State World)
      → parent_exists config o s ≡ true
      → (pid : ℕ) → o ≡ some pid
      → is_some (s.posts pid) ≡ true
  unfolding parent_exists
  parent_found none s h pid e = absurd (none-some e)
  parent_found (some p) s h pid e = rw (sym (some_same e)) h

  check_draft-cases :
      (who : ℕ) (d : Draft) (s : State World)
      → ((e : Error) × (check_draft config who d s ≡ err e) × Reason who d s e)
        ⊎ ((check_draft config who d s ≡ ok tt)
            × (s.merkle_root_to_post_id d.merkle_root ≡ none)
            × (length (s.user_posts who) < max_user_posts)
            × Passes d s)
  unfolding check_draft Reason
  check_draft-cases who d s = elim (Bool-cases (ltb 0 d.k && leb d.k d.n && leb d.n 255)) [
    | inr e ↦ inl (invalid_kn_parameters, rw e refl, ground arith)
    | inl kn ↦ elim (Bool-cases (leb d.total_size config.max_content_length)) [
      | inr e ↦ inl (content_too_long, rw (kn, e) refl, ground arith)
      | inl size ↦ elim (Option-cases (s.merkle_root_to_post_id d.merkle_root)) [
        | inr (id, e) ↦ inl (duplicate_merkle_root, rw (kn, size, e) refl, rw e refl)
        | inl new_root ↦ elim (Bool-cases (parent_exists config d.parent_id s)) [
          | inr e ↦ inl (parent_post_not_found, rw (kn, size, new_root, e) refl, e)
          | inl parent ↦ elim (Bool-cases (leb max_user_posts (length (s.user_posts who)))) [
            | inl e ↦ inl (too_many_posts, rw (kn, size, new_root, parent, e) refl, leb→le _ _ e)
            | inr room ↦ inr (
              rw (kn, size, new_root, parent, room) refl,
              new_root,
              ground arith,
              record {
                shares = (ground (arith, kn), (ground (arith, kn), ground (arith, kn)));
                size = ground (arith, size);
                parent = parent_found d.parent_id s parent;
              },
            )
          ]
        ]
      ]
    ]
  ]

  -- A post is created after all the checks and with the effects that `Creates` lists, or refused with
  -- an error whose reason holds; two of the errors are never returned.
  pub create_post-Creates :
      (who : ℕ) (d : Draft) (s : State World)
      → ((e : Error) × (create_post config who d s ≡ err e) × Reason who d s e)
        ⊎ ((t : State World) × (create_post config who d s ≡ ok t) × Creates who d s t)
  unfolding create_post Reason
  create_post-Creates who d s = elim (check_draft-cases who d s) [
    | inl (e, refused, why) ↦ inl (e, rw refused refl, why)
    | inr (passed, new_root, room, checks) ↦
        elim (Option-cases
          (config.burn_from who (total_cost config d.total_size s.world) s.world)) [
            | inl poor ↦ inl (insufficient_moral_balance, rw (passed, poor) refl, poor)
            | inr (burnt, burns) ↦ elim (Bool-cases (ltb s.next_post_id u64_max)) [
              | inr full ↦ inl (post_id_overflow, rw (passed, burns, full) refl, ground arith)
              | inl fits ↦
                  elim (Option-cases (
                    config.do_register_fragment d.merkle_root (min d.total_size u32_max) who
                      s.block_number (distribute config d.total_size burnt))) [
                        | inl refused ↦ inl (
                          fragment_registration_failed,
                          rw (passed, burns, fits, refused) refl,
                          (burnt, burns, refused),
                        )
                        | inr (registered, registers) ↦ inr (
                          _,
                          rw (passed, burns, fits, registers, lt→ltb _ _ room) refl,
                          record {
                            shares = checks.shares;
                            size = checks.size;
                            parent = checks.parent;
                            number = ground (arith, fits);
                            new_root = new_root;
                            burnt = burnt;
                            burns = burns;
                            registered = registered;
                            registers = registers;
                            room = room;
                            result = refl;
                          },
                        )
                      ]
            ]
          ]
  ]
