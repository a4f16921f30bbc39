-- ===== src/Decay/Bounds.antt =====
-- The loop against the exact power.
use anarchy.Base.{
  ap, sym, ◌⊎◌, inl, inr, ℕ, zero, suc, ◌+◌, ◌*◌, ◌/◌, ◌%◌, ◌^◌, ◌<◌, ◌≤◌, ◌≡◌, refl, arith, none,
  some, min, ltb, ◌==◌, if◌then◌else◌, ◌||◌,
}
use anarchy.Decay.{
  LoopEnd, vanished, out_of_fuel, finished, one, scale, mul_fixed, power_loop, scaled_score, apply,
}
use native.Mathlib.Nat.{
  zero-mul, pow-le-pow_right, pow-lt-pow_left, le_of_mul-le-mul_right, mul-lt-mul_of_pos_left,
  pow-zero, pow-suc, pow-le-pow_left, mul-le-mul_right, mul-le-mul_left,
}
use anarchy.Decay.Squaring.{squared_power, outcome, outcome-power_loop}
use anarchy.Decay.Power.{mul_pow, pow_double}

mul_fixed-le : (a b : ℕ) → mul_fixed a b * one ≤ a * b
unfolding mul_fixed
mul_fixed-le a b = omega arith

chain : (q r X Y Z : ℕ) → q * X ≤ r * Z → Z * X ≤ Y * Y → q * (X * X) ≤ r * (Y * Y)
chain q r X Y Z h k = grind (arith, mul-le-mul_right X h, mul-le-mul_left r k)

-- One round of the loop: with the product of the next round bounded, so is that of this one.
round :
    (q b r b' m B : ℕ) → b' * B ≤ b * b → q * B ^ m ≤ r * b' ^ m → q * B ^ (m + m) ≤ r * b ^ (m + m)
round q b r b' m B h k =
    let squares : b' ^ m * B ^ m ≤ b ^ m * b ^ m =
      rw (sym (mul_pow b' B m), sym (mul_pow b b m)) (pow-le-pow_left h m) in
    rw (pow_double B m, pow_double b m) (chain q r (B ^ m) (b ^ m) (b' ^ m) k squares)

-- One more factor, where the bit is set.
factor : (q r r' b B X Y : ℕ) → q * X ≤ r' * Y → r' * B ≤ r * b → q * (X * B) ≤ r * (Y * b)
factor q r r' b B X Y h k = grind (arith, mul-le-mul_right B h, mul-le-mul_right Y k)

parity : (n : ℕ) → ((n ≡ n / 2 + n / 2) × (n % 2 ≡ 0)) ⊎ ((n ≡ suc (n / 2 + n / 2)) × (n % 2 ≡ 1))
parity n = grind arith

-- What a round of the loop does when it does not end early.
power_loop-step :
    (f n b r q : ℕ)
    → power_loop (suc f) n b r ≡ finished q
    → ((n ≡ 0) × (q ≡ r))
      ⊎ (power_loop f
            (n / 2)
            (if ltb 0 (n / 2) then mul_fixed b b else b)
            (if n % 2 == 1 then mul_fixed r b else r)
          ≡ finished q)
unfolding power_loop
power_loop-step f n b r q e = ground arith

-- Where no bit is left the base does not matter.
base_or_last :
    (m b c r q : ℕ) → q * one ^ m ≤ r * (if ltb 0 m then c else b) ^ m → q * one ^ m ≤ r * c ^ m
base_or_last zero b c r q h = grind (arith, pow-zero b, pow-zero c)
base_or_last (suc m) b c r q h = ground arith

-- The bits of `n` put together again.
rounds :
    (n b r r' q : ℕ)
    → (if n % 2 == 1 then r' * one else r') ≤ (if n % 2 == 1 then r * b else r)
    → q * one ^ (n / 2) ≤ r' * mul_fixed b b ^ (n / 2)
    → q * one ^ n ≤ r * b ^ n
rounds n b r r' q less h =
    let m = n / 2 in
    let doubled = round q b r' (mul_fixed b b) m one (mul_fixed-le b b) h in
    elim (parity n) [
      | inl (even, bit) ↦ rw even (grind (arith, doubled, mul-le-mul_right (b ^ (m + m)) less, bit))
      | inr (odd, bit) ↦
          rw (odd, pow-suc one (m + m), pow-suc b (m + m))
            (factor q r r' b one (one ^ (m + m)) (b ^ (m + m)) doubled (ground arith))
    ]

-- The result of the loop is at most the exact power: every product is rounded down.
power_loop-le : (f n b r q : ℕ) → power_loop f n b r ≡ finished q → q * one ^ n ≤ r * b ^ n
unfolding power_loop
power_loop-le zero n b r q e = absurd (ground (arith, e))
power_loop-le (suc f) n b r q e = elim (power_loop-step f n b r q e) [
  | inl (none_left, same) ↦ rw (none_left, same) (grind (arith, pow-zero one, pow-zero b))
  | inr next ↦
      let r' = if n % 2 == 1 then mul_fixed r b else r in
      let ih = power_loop-le f (n / 2) (if ltb 0 (n / 2) then mul_fixed b b else b) r' q next in
      rounds n b r r' q (ground (arith, mul_fixed-le r b))
        (base_or_last (n / 2) b (mul_fixed b b) r' q ih)
]

LoopEnd-cases : (e : LoopEnd) → (outcome e ≡ none) ⊎ ((e ≡ vanished) ⊎ ((q : ℕ) × (e ≡ finished q)))
unfolding outcome
LoopEnd-cases vanished = inr (inl refl)
LoopEnd-cases out_of_fuel = inl refl
LoopEnd-cases (finished q) = inr (inr (q, refl))

-- The loop on an exponent of at most `f` bits ends within one round more than these, for a u32 within
-- the 33 that it is given, and its early returns do not change its value: that is the value of
-- squaring and multiplying through all `f` bits, and at most the exact one in fixed point, the
-- start value times the power of the base.
pub power_loop_ends :
    (f n b r : ℕ)
    → n < 2 ^ f
    → (outcome (power_loop (suc f) n b r) ≡ some (squared_power f n b r))
      × (squared_power f n b r * one ^ n ≤ r * b ^ n)
unfolding outcome
power_loop_ends f n b r h = (value, bound (LoopEnd-cases (power_loop (suc f) n b r)))
  where
    value : outcome (power_loop (suc f) n b r) ≡ some (squared_power f n b r)
    value = outcome-power_loop f n b r h

    bound :
        (outcome (power_loop (suc f) n b r) ≡ none)
          ⊎ ((power_loop (suc f) n b r ≡ vanished)
              ⊎ ((q : ℕ) × (power_loop (suc f) n b r ≡ finished q)))
        → squared_power f n b r * one ^ n ≤ r * b ^ n
    bound (inl e) = absurd (ground (arith, value, e))
    bound (inr (inl e)) =
        let zero_value : squared_power f n b r ≡ 0 = ground (arith, value, ap outcome e) in
        rw zero_value (omega arith)
    bound (inr (inr (q, e))) =
        let same : squared_power f n b r ≡ q = ground (arith, value, ap outcome e) in
        rw same (power_loop-le (suc f) n b r q e)

scaled_score-le : (score q : ℕ) → scaled_score score (finished q) * one ≤ score * q
scaled_score-le score q = omega arith

positive_pow : (a n : ℕ) → 0 < a → 0 < a ^ n
positive_pow a n h =
    omega (arith, pow-zero a, pow-le-pow_right {n = a} h {i = 0} {j = n} (omega arith))

-- The common factors of both sides taken off, for `M`, `S` and `P` the three powers.
cancel :
    (new score q M S P : ℕ)
    → 0 < S
    → new * one ≤ score * q
    → q * (M * S) ≤ one * (P * S)
    → new * M ≤ score * P
cancel new score q M S P positive h k =
    let less : q * M ≤ one * P = le_of_mul-le-mul_right {k = S} (grind (arith, k)) positive in
    le_of_mul-le-mul_right {k = one}
      (grind (arith, mul-le-mul_right M h, mul-le-mul_left score less)) (omega arith)

decayed-le :
    (score p n : ℕ)
    → n < 2 ^ 32
    → scaled_score score (power_loop 33 n (p * scale) one) * 1_000_000 ^ n ≤ score * p ^ n
decayed-le score p n h = elim (LoopEnd-cases (power_loop 33 n (p * scale) one)) [
  | inl e ↦ absurd (ground (arith, (power_loop_ends 32 n (p * scale) one h).0, e))
  | inr (inl e) ↦ rw e (omega arith)
  | inr (inr (q, e)) ↦ rw e (
      cancel (scaled_score score (finished q)) score q (1_000_000 ^ n) (scale ^ n) (p ^ n)
        (positive_pow scale n (omega arith)) (scaled_score-le score q)
        (rw (sym (mul_pow 1_000_000 scale n), sym (mul_pow p scale n))
          (power_loop-le 33 n (p * scale) one q e)))
]

-- The early exits of `apply`, for `d` the decayed score and `M` and `P` the two powers.
branches :
    (score p n d M P : ℕ)
    → (n ≡ 0 → M ≡ P)
    → (p ≡ 1_000_000 → M ≡ P)
    → d * M ≤ score * P
    → (if n == 0 || score == 0
          then score
          else (if p == 1_000_000 then score else (if p == 0 then 0 else d)))
        * M
      ≤ score * P
branches score p n d M P zero_steps whole h =
    let same : M ≡ P → score * M ≡ score * P = λ e. ap (λ x. score * x) e in
    grind (arith, same, zero_steps, whole, h, zero-mul M, zero-mul P)

-- For at most as many steps as a u32 counts, the decayed score is at most the exact one, the
-- score times the rate to the number of steps, with the rate in millionths: the rounding of the
-- fixed point never favours a post.
pub apply-le :
    (score delta rate_parts max_steps : ℕ)
    → min delta max_steps < 2 ^ 32
    → let steps = min delta max_steps in
      apply score delta rate_parts max_steps * 1_000_000 ^ steps ≤ score * rate_parts ^ steps
unfolding apply
apply-le score delta p top h =
    let n = min delta top in
    branches score p n (scaled_score score (power_loop 33 n (p * scale) one)) (1_000_000 ^ n)
      (p ^ n) (λ e. rw e (omega (arith, pow-zero 1_000_000, pow-zero p)))
      (λ e. ap (λ x. x ^ n) (sym e)) (decayed-le score p n h)

-- With a rate below 1, a positive score falls by at least one at every decay of at least one step
-- (and at most as many as a u32 counts), however short.
pub apply-lt :
    (score delta rate_parts max_steps : ℕ)
    → 0 < score
    → 0 < min delta max_steps
    → min delta max_steps < 2 ^ 32
    → rate_parts < 1_000_000
    → apply score delta rate_parts max_steps < score
apply-lt score delta p top positive some_steps h rate =
    let n = min delta top in
    let powers : p ^ n < 1_000_000 ^ n = pow-lt-pow_left rate (ground arith) in
    grind (
      arith,
      apply-le score delta p top h,
      mul-lt-mul_of_pos_left powers positive,
      mul-le-mul_right (1_000_000 ^ n),
    )
