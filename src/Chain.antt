-- ===== src/Chain.antt =====
-- The pallets put together as in apps/blockchain/runtime/src/lib.rs: the post pallet on the storage,
-- reaction and base fee pallets, and the popularity pallet on all of them.
pub mod Served
pub mod Front
mod Tests
use anarchy.Base.{ℕ, suc, Bool, false, ◌≡◌, Option, none, some, List, [], ◌∷◌}
use anarchy.Base.Dispatch.{Result, ok, err, ◌>>=◌, commit}
use anarchy.BaseFee
use anarchy.Popularity
use anarchy.Post.{Draft, create_post, delete_post}
use anarchy.Post.Types.{Config as PostConfig, State as PostState, Error as PostError}
use anarchy.Reaction.{do_deposit_to_reaction_pool}
use anarchy.Reaction.Types.{Config as ReactionConfig, State as ReactionState}
use anarchy.Storage.Nodes.{register_fragment_at}
use anarchy.Storage.Release.{do_deposit_to_reward_pool, do_release_fragment}
use anarchy.Storage.Run.{Call as StorageCall, step}
use anarchy.Storage.Lasting.{is_release}
use anarchy.Storage.Types.{Env, State as StorageState}

-- What the post pallet stands on. `Outside` is what the reaction pallet sees of the chain.
pub record Pillars (Bonds Tokens Outside : Type 0) : Type 0 where
  pub storage : StorageState Bonds Tokens
  pub reaction : ReactionState Outside
  pub base_fee : BaseFee.State

-- The popularity pallet sees the post pallet, which sees the others.
abbrev pub Chain : (Bonds Tokens Outside : Type 0) → Type 0
Chain Bonds Tokens Outside = Popularity.State (PostState (Pillars Bonds Tokens Outside))

-- A result without its error, and a deletion without its error.
abbrev pub to_option : {E A : Type 0} → Result E A → Option A
to_option (err e) = none
to_option (ok a) = some a

abbrev pub deleted : {E S : Type 0} → S → Result E (S × ℕ) → S × Option ℕ
deleted s (err e) = (s, none)
deleted s (ok (t, root)) = (t, some root)

-- The constants of the pallets, and the token: `burn_from` is the balances pallet's.
pub record Setup (Bonds Tokens Outside : Type 0) : Type 0 where
  pub env : Env Bonds Tokens
  pub fees : BaseFee.Config
  pub reactions : ReactionConfig Outside
  pub post_constants : PostConfig (Pillars Bonds Tokens Outside)
  pub popularity_constants : Popularity.Config (PostState (Pillars Bonds Tokens Outside))
  pub burn_from : (who amount : ℕ) → Tokens → Option Tokens

module _ {Bonds Tokens Outside : Type 0} (setup : Setup Bonds Tokens Outside) where
  abbrev pub with_tokens :
      Option Tokens → Pillars Bonds Tokens Outside → Option (Pillars Bonds Tokens Outside)
  with_tokens none w = none
  with_tokens (some left) w = some (record w { storage = record w.storage { tokens = left } })

  abbrev pub with_storage :
      Option (StorageState Bonds Tokens)
      → Pillars Bonds Tokens Outside
      → Option (Pillars Bonds Tokens Outside)
  with_storage none w = none
  with_storage (some s) w = some (record w { storage = s })

  -- `impl pallet_post::Config for Runtime`. The popularity pallet is told by `create`.
  abbrev pub post_config : PostConfig (Pillars Bonds Tokens Outside)
  post_config = record setup.post_constants {
    current_base_fee = λ w. BaseFee.current_base_fee_value setup.fees w.base_fee;
    record_gas = λ bytes w. record w { base_fee = BaseFee.record_gas_internal bytes w.base_fee };
    burn_from = λ who amount w. with_tokens (setup.burn_from who amount w.storage.tokens) w;
    do_deposit_to_reward_pool =
        λ amount w. record w { storage = do_deposit_to_reward_pool amount w.storage };
    do_deposit_to_reaction_pool = λ amount w. record w {
      reaction = do_deposit_to_reaction_pool setup.reactions amount w.reaction;
    };
    do_register_fragment = λ id size creator at w.
        with_storage (to_option (register_fragment_at setup.env at id size creator w.storage)) w;
    on_post_created = λ id w. w;
  }

  -- `impl pallet_popularity::Config for Runtime`
  abbrev pub popularity_config : Popularity.Config (PostState (Pillars Bonds Tokens Outside))
  popularity_config = record setup.popularity_constants {
    next_post_id = λ p. p.next_post_id;
    delete_post = λ id p. deleted p (delete_post id p);
    release_fragment = λ root p. record p {
      world = record p.world { storage = do_release_fragment root p.world.storage };
    };
  }

  -- The extrinsic `create_post` with the notice to the popularity pallet, which its last step gives.
  unfoldable pub create :
      (who : ℕ) → Draft → Chain Bonds Tokens Outside → Result PostError (Chain Bonds Tokens Outside)
  create who d c = do
    posts ← create_post post_config who d c.world
    ok (
        Popularity.on_post_created popularity_config c.world.next_post_id
          (record c { world = posts }))

  -- What can happen: a post, a call or the end of a block in the storage pallet, a reaction that the
  -- popularity pallet counts, the pass of the popularity pallet at the end of a block, and changes of the reaction pool or
  -- of the base fee by their own pallets.
  pub data Call : Type 0 where
    create_call : (who : ℕ) → Draft → Call
    storage_call : (c : StorageCall Bonds Tokens) → is_release c ≡ false → Call
    reaction_counted : (post_id : ℕ) → Popularity.ReactionType → Call
    popularity_pass : Call
    reaction_acts : ReactionState Outside → Call
    base_fee_acts : BaseFee.State → Call
    next_block : Call

  unfoldable pub dispatch : Call → Chain Bonds Tokens Outside → Chain Bonds Tokens Outside
  unfolding create
  dispatch (create_call who d) c = commit c (create who d c)
  dispatch (storage_call call other) c = record c {
    world = record c.world {
      world = record c.world.world { storage = step setup.env call c.world.world.storage };
    };
  }
  dispatch (reaction_counted id kind) c = Popularity.on_reaction popularity_config id kind c
  dispatch popularity_pass c = Popularity.on_finalize popularity_config c.block_number c
  dispatch (reaction_acts s) c = record c {
    world = record c.world { world = record c.world.world { reaction = s } };
  }
  dispatch (base_fee_acts s) c = record c {
    world = record c.world { world = record c.world.world { base_fee = s } };
  }
  dispatch next_block c = record c {
    block_number = suc c.block_number;
    world = record c.world { block_number = suc c.block_number };
  }

  unfoldable pub run : List Call → Chain Bonds Tokens Outside → Chain Bonds Tokens Outside
  unfolding dispatch
  run [] c = c
  run (call ∷ calls) c = run calls (dispatch call c)
