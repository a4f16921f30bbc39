-- ===== src/Faucet/Difficulty.antt =====
-- The difficulty of the faucet grows with the logarithm of the number of claims.
use native.Mathlib.Nat.{pow-succ', div-le_self}
use anarchy.Base.{
  ℕ, zero, suc, ◌+◌, ◌-◌, ◌*◌, ◌/◌, ◌^◌, ◌≡◌, ◌≤◌, ◌<◌, refl, arith, min, sat_add, u8_max, u64_max,
  ◌==◌, ap, ◌∙◌, Bool-cases, inl, inr,
}
use anarchy.Faucet.{Config, bit_length, leading_zeros, calculate_difficulty}

bit_length_zero : (rounds : ℕ) → bit_length rounds 0 ≡ 0
unfolding bit_length
bit_length_zero zero = refl
bit_length_zero (suc rounds) = refl

-- The doubling step of the bounds.
doubled :
    (n p q : ℕ)
    → q ≡ 2 * p
    → (n / 2 < p)
    → (0 < n / 2 → p ≤ 2 * (n / 2))
    → (n / 2 ≡ 0 → p ≡ 1)
    → 0 < n
    → (n < q) × (q ≤ 2 * n)
doubled n p q e below above one positive = ground arith

bit_length_bounds :
    (rounds n : ℕ)
    → n < 2 ^ rounds
    → (n < 2 ^ bit_length rounds n)
      × (0 < n → 2 ^ bit_length rounds n ≤ 2 * n)
      × (bit_length rounds n ≤ rounds)
unfolding bit_length
bit_length_bounds zero n h = (omega arith, λ p. omega arith, omega arith)
bit_length_bounds (suc rounds) n h = elim (Bool-cases (n == 0)) [
  | inl none_left ↦
      let z : n ≡ 0 = ground (arith, none_left) in
      rw none_left (omega arith, λ p. omega arith, omega arith)
  | inr some_left ↦
      let b = bit_length rounds (n / 2) in
      let (below, above, short) =
        bit_length_bounds rounds (n / 2) (omega (arith, h, pow-succ' 2 rounds)) in
      let (lower, upper) =
        doubled n (2 ^ b) (2 ^ suc b) (pow-succ' 2 b) below above
          (λ e. rw (e, bit_length_zero rounds) refl) (ground (arith, some_left)) in
      rw some_left (lower, λ p. upper, omega (arith, short))
]

positive_power : (b n : ℕ) → n < 2 ^ b → 0 < n → 0 < b
positive_power zero n h p = absurd (ground arith)
positive_power (suc b) n h p = omega arith

-- The number of leading zeros of a positive number gives its logarithm.
leading_zeros_log :
    (n : ℕ)
    → 0 < n
    → n < 2 ^ 64
    → (log : ℕ) × (64 - leading_zeros n ≡ suc log) × (log < 64) × (2 ^ log ≤ n) × (n < 2 ^ suc log)
unfolding leading_zeros
leading_zeros_log n positive h =
    let b = bit_length 64 n in
    let (below, above, short) = bit_length_bounds 64 n h in
    let some_bits : 0 < b = positive_power b n below positive in
    let same : b ≡ suc (b - 1) = omega (arith, some_bits) in
    let twice : 2 ^ b ≡ 2 * 2 ^ (b - 1) = ap (λ k. 2 ^ k) same ∙ pow-succ' 2 (b - 1) in
    (
      b - 1,
      omega (arith, short, some_bits),
      omega (arith, short, some_bits),
      omega (arith, above positive, twice),
      omega (arith, below, twice, pow-succ' 2 (b - 1)),
    )

module _ {World : Type 0} (config : Config World) where
  -- With a scaling factor that is not 0 and a largest difficulty of at most a byte: the difficulty
  -- exceeds the base by the binary logarithm of one plus the claims divided by the factor, rounded
  -- down, up to the largest difficulty.
  pub calculate_difficulty_log :
      (claims : ℕ)
      → 0 < config.difficulty_scaling_factor
      → claims < u64_max
      → config.max_difficulty ≤ u8_max
      → (log : ℕ) × (2 ^ log ≤ 1 + claims / config.difficulty_scaling_factor)
        × (1 + claims / config.difficulty_scaling_factor < 2 ^ suc log)
        × (calculate_difficulty config claims
            ≡ min (config.base_difficulty + log) config.max_difficulty)
  unfolding calculate_difficulty
  calculate_difficulty_log claims positive fits byte =
      let ratio = 1 + claims / config.difficulty_scaling_factor in
      let small = div-le_self claims config.difficulty_scaling_factor in
      let (log, e, short, below, above) =
        leading_zeros_log ratio (omega arith) (omega (arith, small, fits)) in
      let exact : sat_add u64_max 1 (claims / config.difficulty_scaling_factor) ≡ ratio =
        omega (arith, small, fits) in
      (log, below, above, rw (exact, e) (ground (arith, short)))
