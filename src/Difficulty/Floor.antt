-- ===== src/Difficulty/Floor.antt =====
-- How far one adjustment can lower the difficulty.
use anarchy.Base.{
  ℕ, suc, ◌+◌, ◌-◌, ◌*◌, ◌/◌, ◌≡◌, ◌≤◌, ◌<◌, arith, List, [], ◌∷◌, ◌==◌, if◌then◌else◌, min, max,
  sat_add, sat_mul, u64_max, length, div-anti, div_mono, Bool-cases, inl, inr,
}
use native.Mathlib.Nat.{
  le-div_iff_mul-le, mul-le-mul_right, mul-le-mul_left, div-mul-le_self, div-le_self, mul_comm,
}
use anarchy.Difficulty.{u256_max, lwma_sums, last_difficulty, next_of_sums, lwma3_next_difficulty}

-- Every difficulty of a list is at least `d`.
unfoldable pub AreAtLeast : (d : ℕ) → List (ℕ × ℕ) → Type 0
AreAtLeast d [] = Unit
AreAtLeast d (x ∷ xs) = (d ≤ x.0) × AreAtLeast d xs

-- The sum of the weights from `i` on.
weights : (i : ℕ) → List (ℕ × ℕ) → ℕ
weights i [] = 0
weights i (x ∷ xs) = i + weights (suc i) xs

solves_le :
    (m top i prev : ℕ) (xs : List (ℕ × ℕ)) (a b : ℕ)
    → (lwma_sums m top i prev xs a b).0 ≤ a + weights i xs * top
unfolding lwma_sums weights
solves_le m top i prev [] a b = omega arith
solves_le m top i prev (x ∷ xs) a b =
    let solve = min (max (x.1 - prev) 1) top in
    let step : i * solve ≤ i * top = mul-le-mul_left i (omega arith) in
    grind (
      arith,
      step,
      solves_le m top (suc i) x.1 xs (sat_add u256_max a (i * solve))
          (if x.0 == 0 then b else sat_add u256_max b (u256_max / x.0 / m)),
    )

inverses_le :
    (m top i prev d : ℕ) (xs : List (ℕ × ℕ)) (a b : ℕ)
    → 0 < d
    → AreAtLeast d xs
    → (lwma_sums m top i prev xs a b).1 ≤ b + length xs * (u256_max / d / m)
unfolding lwma_sums AreAtLeast
inverses_le m top i prev d [] a b h all = omega arith
inverses_le m top i prev d (x ∷ xs) a b h (y, all) =
    let part : u256_max / x.0 / m ≤ u256_max / d / m =
      div_mono (u256_max / x.0) (u256_max / d) m (div-anti u256_max d x.0 h y) in
    let next = if x.0 == 0 then b else sat_add u256_max b (u256_max / x.0 / m) in
    let bound : next ≤ b + u256_max / d / m = ground (arith, part) in
    let sum : suc (length xs) * (u256_max / d / m)
        ≡ length xs * (u256_max / d / m) + u256_max / d / m =
      grind arith in
    omega (
      arith,
      bound,
      sum,
      inverses_le m top (suc i) x.1 d xs (sat_add u256_max a (i * min (max (x.1 - prev) 1) top))
          next h all,
    )

weights_sum :
    (i : ℕ) (xs : List (ℕ × ℕ)) → weights i xs * 2 + length xs ≡ length xs * (length xs + 2 * i)
unfolding weights
weights_sum i [] = grind arith
weights_sum i (x ∷ xs) = grind (arith, weights_sum (suc i) xs)

triangle : (m w : ℕ) → w * 2 + m ≡ m * (m + 2) → m * (m + 1) / 2 ≡ w
triangle m w h = grind (arith, h)

-- The quotient of the code is at least a sixth of a difficulty that the mean reaches.
quotient_floor :
    (d harmonic target w solves : ℕ)
    → d ≤ harmonic
    → d * (target * w) ≤ u256_max
    → solves ≤ w * (6 * target)
    → 0 < solves
    → d / 6 ≤ sat_mul u256_max harmonic (target * w) / solves
quotient_floor d harmonic target w solves h fits k p =
    let sixth : d / 6 * solves ≤ d / 6 * (w * (6 * target)) = mul-le-mul_left (d / 6) k in
    let whole : d / 6 * 6 * (target * w) ≤ d * (target * w) =
      mul-le-mul_right (target * w) (div-mul-le_self d 6) in
    let same : d / 6 * (w * (6 * target)) ≡ d / 6 * 6 * (target * w) = grind arith in
    (le-div_iff_mul-le {k = solves} p).1
      (omega (arith, sixth, whole, same, fits, mul-le-mul_right (target * w) h))

last_at_least : (d x : ℕ) (xs : List (ℕ × ℕ)) → d ≤ x → AreAtLeast d xs → d ≤ last_difficulty x xs
unfolding AreAtLeast last_difficulty
last_at_least d x [] h all = h
last_at_least d x (y ∷ xs) h (k, all) = last_at_least d y.0 xs k all

next_floor :
    (d target m last w : ℕ) (sums : ℕ × ℕ)
    → 0 < d
    → d ≤ last
    → sums.1 ≤ u256_max / d
    → sums.0 ≤ w * (6 * target)
    → m * (m + 1) / 2 ≡ w
    → d * (target * w) ≤ u256_max
    → d / 6 ≤ next_of_sums target m last sums
unfolding next_of_sums
next_floor d target m last w sums p h inverse solve weight fits = elim (Bool-cases (sums.1 == 0)) [
  | inl e ↦ rw e (omega (arith, div-le_self d 6))
  | inr e ↦
      let positive : 0 < sums.1 = ground arith in
      let harmonic : d ≤ u256_max / sums.1 =
        (le-div_iff_mul-le {k = sums.1} positive).1
          (grind (arith, mul-le-mul_left d inverse, div-mul-le_self u256_max d)) in
      elim (Bool-cases (sums.0 == 0)) [
        | inl z ↦ rw (e, z) (omega (arith, harmonic))
        | inr z ↦
            rw (e, z, weight)
              (quotient_floor d (u256_max / sums.1) target w sums.0 harmonic fits solve
                (ground arith))
      ]
]

top_le : (target : ℕ) → sat_mul u64_max 6 target ≤ 6 * target
top_le target = omega arith

-- When every difficulty of a window of two or more entries is at least some `d` that is not 0, and `d` times the weighted target fits into 256 bits: the next
-- difficulty is at least a sixth of `d`, whatever the timestamps are.
pub lwma3_next_difficulty_floor :
    (d target : ℕ) (first second : ℕ × ℕ) (entries : List (ℕ × ℕ))
    → 0 < d
    → AreAtLeast d (second ∷ entries)
    → d * (target * (suc (length entries) * (suc (length entries) + 1) / 2)) ≤ u256_max
    → d / 6 ≤ lwma3_next_difficulty (first ∷ (second ∷ entries)) target
unfolding lwma3_next_difficulty AreAtLeast
lwma3_next_difficulty_floor d target first second entries p (h, all) fits =
    let m = suc (length entries) in
    let top = sat_mul u64_max 6 target in
    let w = weights 1 (second ∷ entries) in
    let weight : m * (m + 1) / 2 ≡ w = triangle m w (weights_sum 1 (second ∷ entries)) in
    let sums = lwma_sums m top 1 first.1 (second ∷ entries) 0 0 in
    next_floor d target m (last_difficulty second.0 entries) w sums p
      (last_at_least d second.0 entries h all)
      (omega (
        arith,
        inverses_le m top 1 first.1 d (second ∷ entries) 0 0 p (h, all),
        mul_comm m (u256_max / d / m),
        div-mul-le_self (u256_max / d) m,
      ))
      (omega (
        arith,
        solves_le m top 1 first.1 (second ∷ entries) 0 0,
        mul-le-mul_left w (top_le target),
      ))
      weight (rw weight at fits)
