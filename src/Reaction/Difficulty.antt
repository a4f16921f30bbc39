-- ===== src/Reaction/Difficulty.antt =====
-- The adjustment of the difficulty of reactions.
use anarchy.Base.{
  ℕ, zero, suc, ◌+◌, ◌-◌, ◌*◌, ◌/◌, ◌%◌, ◌≡◌, ◌≤◌, ◌<◌, refl, arith, min, max, sat_mul, sat_add,
  u32_max, div_mono, sym, ◌∙◌, subst,
}
use native.Mathlib.Nat.{mod-eq_of_lt, div-lt_iff_lt-mul, mul-div_cancel, mul-mod_left}
use anarchy.Reaction.Types.{Config, State}
use anarchy.Reaction.{count_window, new_difficulty, adjust_difficulty, on_finalize}

-- The sum of a function over the blocks `from + 1` to `from + width`.
abbrev pub sum_after : (from width : ℕ) → (ℕ → ℕ) → ℕ
sum_after from zero history = 0
sum_after from (suc width) history = history (from + suc width) + sum_after from width history

add_pred : (a b : ℕ) → a + suc b - 1 ≡ a + b
add_pred a b = omega arith

sub_self : (a b : ℕ) → a + b - a ≡ b
sub_self a b = omega arith

-- A quotient below 256 survives the cast to `u8`, and 256 becomes 0.
quotient_fits : (x d : ℕ) → 0 < d → x < 256 * d → x / d % 256 ≡ x / d
quotient_fits x d positive h = mod-eq_of_lt ((div-lt_iff_lt-mul positive).1 h)

quotient_wraps : (d : ℕ) → 0 < d → 256 * d / d % 256 ≡ 0
quotient_wraps d positive = rw (mul-div_cancel 256 positive) refl

module _ {World : Type 0} (config : Config World) where
  count_window-sum_after :
      (rounds from counted : ℕ) (s : State World)
      → counted ≤ u32_max
      → count_window config rounds (from + rounds) counted s
        ≡ min (counted + sum_after from rounds s.reaction_history) u32_max
  unfolding count_window
  count_window-sum_after zero from counted s h = omega arith
  count_window-sum_after (suc rounds) from counted s h = ground (
    arith,
    add_pred from rounds,
    count_window-sum_after rounds from
        (sat_add u32_max counted (s.reaction_history (from + suc rounds))) s,
  )

  abbrev pub target_total : ℕ
  target_total = sat_mul u32_max config.target_reaction_rate config.adjustment_window

  abbrev pub divisor : ℕ
  divisor = max config.adjustment_divisor 1

  adjust-new :
      (s : State World)
      → (adjust_difficulty config s).current_difficulty
        ≡ new_difficulty config s.current_difficulty (
            count_window config
              (s.block_number - (s.block_number - config.adjustment_window))
              s.block_number
              0
              s)
  unfolding adjust_difficulty
  adjust-new s = ground arith

  finalize-adjust :
      (s : State World)
      → s.block_number % config.adjustment_window ≡ 0
      → (on_finalize config s.block_number s).current_difficulty
        ≡ (adjust_difficulty config s).current_difficulty
  unfolding on_finalize
  finalize-adjust s whole = rw whole refl

  -- At the end of every window, when a whole window has passed, the difficulty becomes the one for
  -- the number of reactions that the blocks of the window recorded.
  pub on_finalize_adjusts :
      (k : ℕ) (s : State World)
      → 0 < config.adjustment_window
      → s.block_number ≡ suc k * config.adjustment_window
      → (on_finalize config s.block_number s).current_difficulty
        ≡ new_difficulty config s.current_difficulty (
            min
              (sum_after (k * config.adjustment_window) config.adjustment_window s.reaction_history)
              u32_max)
  on_finalize_adjusts k s positive at =
      let window = config.adjustment_window in
      let from = k * window in
      let sum = min (sum_after from window s.reaction_history) u32_max in
      let start : s.block_number ≡ from + window = omega (arith, at) in
      let counted : count_window config window s.block_number 0 s ≡ sum =
        subst (λ b. count_window config window b 0 s ≡ sum) (sym start)
          (omega (arith, count_window-sum_after window from 0 s (omega arith))) in
      let rounds : s.block_number - (s.block_number - window) ≡ window = omega (arith, start) in
      let whole : s.block_number % window ≡ 0 = rw at (mul-mod_left (suc k) window) in
      finalize-adjust s whole ∙ adjust-new s ∙ rw (rounds, counted) refl

  -- When the limits of the difficulty are in order: the new difficulty is within them; and it does
  -- not fall when the window has more reactions, as long as these are off the target by less than
  -- 256 times the divisor. An excess of 256 times the divisor counts as none.
  pub new_difficulty_bounds :
      (current recent more : ℕ)
      → config.min_difficulty ≤ config.max_difficulty
      → (config.min_difficulty ≤ new_difficulty config current recent)
        × (new_difficulty config current recent ≤ config.max_difficulty)
        × (recent ≤ more
            → more < target_total + 256 * divisor
            → target_total < recent + 256 * divisor
            → new_difficulty config current recent ≤ new_difficulty config current more)
        × (new_difficulty config current (target_total + 256 * divisor)
            ≡ new_difficulty config current target_total)
  unfolding new_difficulty
  new_difficulty_bounds current recent more limits = (
    ground arith,
    ground arith,
    λ h near far. ground (
      arith,
      quotient_fits (recent - target_total) divisor,
      quotient_fits (more - target_total) divisor,
      quotient_fits (target_total - recent) divisor,
      quotient_fits (target_total - more) divisor,
      div_mono (recent - target_total) (more - target_total) divisor,
      div_mono (target_total - more) (target_total - recent) divisor,
    ),
    ground (arith, quotient_wraps divisor, sub_self target_total (256 * divisor)),
  )
