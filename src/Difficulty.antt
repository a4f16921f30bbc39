-- ===== src/Difficulty.antt =====
-- The adjustment of the difficulty of blocks (apps/blockchain/pallets/difficulty/src/lib.rs and lwma.rs):
-- the hook `adjust` with its window, and `lwma3_next_difficulty`.
pub mod Floor
mod Tests
use anarchy.Base.{
  ℕ, zero, suc, ◌+◌, ◌-◌, ◌*◌, ◌/◌, Option, none, some, List, [], ◌∷◌, ltb, leb, ◌==◌,
  if◌then◌else◌, min, max, sat_add, sat_mul, u64_max, length, try_push,
}

abbrev pub u256_max : ℕ
u256_max = 115792089237316195423570985008687907853269984665640564039457584007913129639935

pub record Config : Type 0 where
  pub target_block_time : ℕ
  pub difficulty_adjust_window : ℕ
  pub min_difficulty : ℕ

-- The entries of the window are a difficulty and a time in milliseconds; `now` is the timestamp of
-- the block.
pub record State : Type 0 where
  pub current_difficulty : ℕ
  pub past : List (ℕ × ℕ)
  pub now : ℕ

unfoldable pub genesis : Config → (initial_difficulty now : ℕ) → State
genesis config initial now = record {
  current_difficulty = max initial config.min_difficulty;
  past = [];
  now = now;
}

-- The sums of `weight * solve` and of `MAX / diff / m` over the entries from the `i`-th on.
unfoldable pub lwma_sums :
    (m max_solve i prev : ℕ) → List (ℕ × ℕ) → (weighted_solve_sum sum_inverse_diff : ℕ) → ℕ × ℕ
lwma_sums m max_solve i prev [] solves inverses = (solves, inverses)
lwma_sums m max_solve i prev (entry ∷ entries) solves inverses =
    let solve = min (max (entry.1 - prev) 1) max_solve in
    lwma_sums m max_solve (suc i) entry.1 entries (sat_add u256_max solves (i * solve))
      (if entry.0 == 0 then inverses else sat_add u256_max inverses (u256_max / entry.0 / m))

unfoldable pub last_difficulty : (default : ℕ) → List (ℕ × ℕ) → ℕ
last_difficulty d [] = d
last_difficulty d (entry ∷ entries) = last_difficulty entry.0 entries

-- What the sums give, with `m` solve times.
unfoldable pub next_of_sums : (target m last : ℕ) → (sums : ℕ × ℕ) → ℕ
next_of_sums target m last sums =
    if sums.1 == 0
    then last
    else let harmonic_mean = u256_max / sums.1 in
      let weighted_target_sum = target * (m * (m + 1) / 2) in
      if sums.0 == 0
      then harmonic_mean
      else sat_mul u256_max harmonic_mean weighted_target_sum / sums.0

unfoldable pub lwma3_next_difficulty : List (ℕ × ℕ) → (target_ms : ℕ) → ℕ
unfolding next_of_sums
lwma3_next_difficulty [] target = 1
lwma3_next_difficulty (entry ∷ []) target = entry.0
lwma3_next_difficulty (entry ∷ (second ∷ entries)) target =
    let m = suc (length entries) in
    next_of_sums target m (last_difficulty second.0 entries)
      (lwma_sums m (sat_mul u64_max 6 target) 1 entry.1 (second ∷ entries) 0 0)

unfoldable pub evict : (cap : ℕ) → List (ℕ × ℕ) → List (ℕ × ℕ)
evict cap [] = []
evict cap (x ∷ xs) = if leb cap (length (x ∷ xs)) then xs else x ∷ xs

abbrev pub retarget : Config → Option (List (ℕ × ℕ)) → State → State
retarget config none s = record s { past = evict config.difficulty_adjust_window s.past }
retarget config (some window) s =
    if ltb (length window) config.difficulty_adjust_window
    then record s { past = window }
    else record s {
      past = window;
      current_difficulty =
          max (lwma3_next_difficulty window config.target_block_time) config.min_difficulty;
    }

unfoldable pub adjust : Config → State → State
unfolding evict
adjust config s =
    if config.difficulty_adjust_window == 0
    then s
    else retarget config
        (try_push config.difficulty_adjust_window (s.current_difficulty, s.now)
          (evict config.difficulty_adjust_window s.past))
        s
