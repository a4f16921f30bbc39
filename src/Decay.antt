-- ===== src/Decay.antt =====
-- The decay of a popularity score (apps/blockchain/pallets/popularity/src/decay.rs):
-- `score * rate ^ steps` by squaring, in fixed point on `u128`.
mod Power
pub mod Squaring
pub mod Bounds
mod Tests
use anarchy.Base.{
  ℕ, zero, suc, ◌*◌, ◌/◌, ◌%◌, ◌^◌, ◌&&◌, ◌||◌, ltb, ◌==◌, if◌then◌else◌, min, sat_mul, u128_max,
}

-- `BASE`, and `SCALE`, which is `BASE` over a million.
abbrev pub one : ℕ
one = 1_000_000_000_000_000_000

abbrev pub scale : ℕ
scale = 1_000_000_000_000

-- A product in fixed point, rounded down.
unfoldable pub mul_fixed : ℕ → ℕ → ℕ
mul_fixed a b = sat_mul u128_max a b / one

-- How the loop ends: by its early `return 0`, with a result, or not within its fuel.
pub data LoopEnd : Type 0 where
  vanished out_of_fuel : LoopEnd
  finished : (result : ℕ) → LoopEnd

-- The loop `while n > 0`; every test of its condition takes one unit of fuel.
unfoldable pub power_loop : (fuel n base result : ℕ) → LoopEnd
power_loop zero n base result = out_of_fuel
power_loop (suc fuel) n base result =
    let odd = n % 2 == 1 in
    let result' = if odd then mul_fixed result base else result in
    let half = n / 2 in
    let base' = if ltb 0 half then mul_fixed base base else base in
    let rest = power_loop fuel half base' result' in
    if n == 0
    then finished result
    else (if (odd && result' == 0) || (ltb 0 half && base' == 0) then vanished else rest)

-- `out_of_fuel` does not occur, by `power_loop_ends`.
abbrev pub scaled_score : ℕ → LoopEnd → ℕ
scaled_score score vanished = 0
scaled_score score out_of_fuel = 0
scaled_score score (finished result) = sat_mul u128_max score result / one % 2 ^ 64

-- The exponent is a `u32`, which is halved at most 32 times; the last test finds 0.
unfoldable pub apply : (score delta_blocks rate_parts max_steps : ℕ) → ℕ
unfolding power_loop
apply score delta_blocks rate_parts max_steps =
    let steps = min delta_blocks max_steps in
    let decayed = scaled_score score (power_loop 33 steps (rate_parts * scale) one) in
    if steps == 0 || score == 0
    then score
    else (if rate_parts == 1_000_000 then score else (if rate_parts == 0 then 0 else decayed))
