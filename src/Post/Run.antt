-- ===== src/Post/Run.antt =====
-- All that can happen to the post pallet (apps/blockchain/pallets/post/src/lib.rs): a creation, a
-- deletion by the popularity pallet, a change of the other pallets' state, and the next block.
use anarchy.Base.{ℕ, suc, List, [], ◌∷◌}
use anarchy.Base.Dispatch.{Result, ok, ◌>>=◌, commit}
use anarchy.Post.Types.{Config, State, Error}
use anarchy.Post.{Draft, create_post, delete_post}

pub data Call (World : Type 0) : Type 0 where
  create_call : (who : ℕ) → Draft → Call World
  delete_by_popularity : (post_id : ℕ) → Call World
  others_act : World → Call World
  next_block : Call World

module _ {World : Type 0} (config : Config World) where
  unfoldable pub dispatch : Call World → State World → Result Error (State World)
  dispatch (create_call who d) s = create_post config who d s
  dispatch (delete_by_popularity id) s = delete_post id s >>= λ r. ok r.0
  dispatch (others_act world) s = ok (record s { world = world })
  dispatch next_block s = ok (record s { block_number = suc s.block_number })

  abbrev pub step : Call World → State World → State World
  step c s = commit s (dispatch c s)

  unfoldable pub run : List (Call World) → State World → State World
  run [] s = s
  run (c ∷ cs) s = run cs (step c s)

  -- What every call keeps holds after any run.
  pub run_invariant {ℓ} :
      (P : State World → Type ℓ)
      → ((c : Call World) (s : State World) → P s → P (step c s))
      → (cs : List (Call World)) (s : State World) → P s
      → P (run cs s)
  unfolding run
  run_invariant P keep [] s h = h
  run_invariant P keep (c ∷ cs) s h = run_invariant P keep cs (step c s) (keep c s h)
