-- ===== src/Difficulty/Tests.antt =====
-- The theorem on the difficulty at a window of three slow blocks.
use anarchy.Base.{◌/◌, ◌≡◌, ◌≤◌, refl, arith, [], ◌∷◌}
use anarchy.Difficulty.{
  Config, adjust, evict, genesis, lwma3_next_difficulty, next_of_sums, lwma_sums, last_difficulty,
}
use anarchy.Difficulty.Floor.{lwma3_next_difficulty_floor, AreAtLeast}

lwma3_next_difficulty_floor_example :
    60_000 / 6
    ≤ lwma3_next_difficulty ((60_000, 0) ∷ (60_000, 900_000) ∷ (66_000, 1_800_000) ∷ []) 30_000
unfolding AreAtLeast
lwma3_next_difficulty_floor_example =
    lwma3_next_difficulty_floor 60_000 30_000 (60_000, 0) (60_000, 900_000)
      ((66_000, 1_800_000) ∷ []) (omega arith) (omega arith, (omega arith, tt)) (omega arith)

-- Blocks on time keep the difficulty.
on_time :
    lwma3_next_difficulty ((60_000, 0) ∷ (60_000, 30_000) ∷ (60_000, 60_000) ∷ []) 30_000 ≡ 60_000
unfolding lwma3_next_difficulty next_of_sums lwma_sums last_difficulty
on_time = refl

abbrev config : Config
config = record {
  target_block_time = 30_000;
  difficulty_adjust_window = 2;
  min_difficulty = 10_000;
}

first_block :
    adjust config (genesis config 9_000 5)
    ≡ record { current_difficulty = 10_000; past = (10_000, 5) ∷ []; now = 5 }
unfolding adjust evict genesis
first_block = refl
