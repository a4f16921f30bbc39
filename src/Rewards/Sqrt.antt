-- ===== src/Rewards/Sqrt.antt =====
-- Newton's loop in `sqrt_ppm` computes the integer square root.
use mathlib.Core.WellFounded.{Acc}
use anarchy.Base.{
  ℕ, true, false, ◌%◌, ◌^◌, ◌⊎◌, refl, none, some, if◌then◌else◌, dite, ◌+◌, ◌-◌, ◌*◌, ◌/◌, ◌<◌,
  ◌≤◌, ◌≡◌, inl, inr, arith, dec_lt, ◌==◌, Bool-cases, sat_mul, u128_max,
}
use anarchy.Base.Order.{lt_wf}
use anarchy.Rewards.{newton, scaled_sqrt, sqrt_ppm, root, one_million}

-- `r` is the integer square root of `s`.
abbrev pub IsSqrt : ℕ → ℕ → Type 0
IsSqrt s r = (r * r ≤ s) × (s < (r + 1) * (r + 1))

four_mul-le_apart : (a b d : ℕ) → b ≡ a + d → 4 * (a * b) ≤ (a + b) * (a + b)
four_mul-le_apart a b d e = rw e (omega arith)

-- The arithmetic mean against the geometric one.
four_mul-le : (a b : ℕ) → 4 * (a * b) ≤ (a + b) * (a + b)
four_mul-le a b = elim (dec_lt a b) [
  | yes h ↦ four_mul-le_apart a b (b - a) (omega arith)
  | no h ↦ omega (arith, four_mul-le_apart b a (a - b) (omega arith))
]

pub square_mono : (a b : ℕ) → a ≤ b → a * a ≤ b * b
square_mono a b h = grind arith

step_bound : (s q y z : ℕ) → s < (q + 1) * y → q + y ≤ 2 * z + 1 → s < (z + 1) * (z + 1)
step_bound s q y z h k =
    omega (arith, four_mul-le (q + 1) y, square_mono (q + 1 + y) (2 * z + 2) (omega arith))

-- One step of Newton's method does not fall below the root.
newton_step : (s y : ℕ) → 0 < y → s < ((s / y + y) / 2 + 1) * ((s / y + y) / 2 + 1)
newton_step s y h = step_bound s (s / y) y ((s / y + y) / 2) (grind arith) (omega arith)

-- When the next guess is not smaller, the guess is not above the root.
newton_stop : (s y : ℕ) → y ≤ (s / y + y) / 2 → y * y ≤ s
newton_stop s y h = grind arith

-- The next guess is positive.
newton_pos : (s y : ℕ) → 0 < s → 0 < y → 0 < (s / y + y) / 2
newton_pos s y hs hy = grind arith

-- The loop ends with the root.
newton-IsSqrt :
    (s z y : ℕ) (w : Acc ◌<◌ y)
    → 0 < s
    → 0 < y
    → s < (y + 1) * (y + 1)
    → z ≡ (s / y + y) / 2
    → (r : ℕ) × (newton s z y w ≡ some r) × IsSqrt s r
unfolding newton
newton-IsSqrt s z y (Acc.intro _ smaller) hs hy above e =
    go (λ h. newton-IsSqrt s ((s / z + z) / 2) z (smaller z h) hs) (dec_lt z y)
  where
    go :
        ((h : z < y)
          → 0 < z
          → s < (z + 1) * (z + 1)
          → (s / z + z) / 2 ≡ (s / z + z) / 2
          → (r : ℕ) × (newton s ((s / z + z) / 2) z (smaller z h) ≡ some r) × IsSqrt s r)
        → (d : Dec (z < y))
        → (r : ℕ) × (dite d
              (λ h.
                let rest = newton s ((s / z + z) / 2) z (smaller z h) in
                if z == 0 then none else rest)
              (λ _. some y)
            ≡ some r)
          × IsSqrt s r
    go ih (no h) = (y, refl, (newton_stop s y (omega (arith, e, h)), above))
    go ih (yes h) =
        let positive : 0 < z = omega (arith, e, newton_pos s y hs hy) in
        let still : s < (z + 1) * (z + 1) = rw e (newton_step s y hy) in
        let some_z : (z == 0) ≡ false = ground (arith, positive) in
        rw some_z (ih h positive still refl)

self_div : (s : ℕ) → 0 < s → (s + 1) / 2 ≡ (s / s + s) / 2
self_div s h = grind arith

-- The loop from its start values.
newton_start :
    (s : ℕ)
    → 0 < s
    → s < u128_max
    → (r : ℕ) × (newton s ((s + 1) % 2 ^ 128 / 2) s (lt_wf.apply s) ≡ some r) × IsSqrt s r
newton_start s h fits =
    newton-IsSqrt s ((s + 1) % 2 ^ 128 / 2) s (lt_wf.apply s) h h (omega arith)
      (omega (arith, self_div s h))

newton_panics : (s z y : ℕ) (w : Acc ◌<◌ y) → z ≡ 0 → 0 < y → newton s z y w ≡ none
unfolding newton
newton_panics s z y (Acc.intro _ smaller) e h = go (dec_lt z y)
  where
    go :
        (d : Dec (z < y))
        → dite d
            (λ h'.
              let rest = newton s ((s / z + z) / 2) z (smaller z h') in
              if z == 0 then none else rest)
            (λ _. some y)
          ≡ none
    go (yes k) = let nil : (z == 0) ≡ true = ground (arith, e) in rw nil refl
    go (no k) = absurd (k (omega (arith, e, h)))

scaled_sqrt-IsSqrt : (s : ℕ) → s < u128_max → (r : ℕ) × (scaled_sqrt s ≡ some r) × IsSqrt s r
unfolding scaled_sqrt
scaled_sqrt-IsSqrt s h = elim (Bool-cases (s == 0)) [
  | inl e ↦ rw e (0, refl, ground (arith, e))
  | inr e ↦ rw e (newton_start s (ground (arith, e)) h)
]

scaled_sqrt_full : (s : ℕ) → s ≡ u128_max → scaled_sqrt s ≡ none
unfolding scaled_sqrt
scaled_sqrt_full s e =
    let positive : (s == 0) ≡ false = ground (arith, e) in
    rw positive (
      newton_panics s ((s + 1) % 2 ^ 128 / 2) s (lt_wf.apply s) (omega (arith, e))
        (omega (arith, e)))

-- As long as its argument times a million is below the largest u128, `sqrt_ppm` ends with the integer
-- square root of that product; from there on it panics.
pub sqrt_ppm-IsSqrt :
    (x : ℕ)
    → ((x * one_million < u128_max)
        × ((r : ℕ) × (sqrt_ppm x ≡ some r) × IsSqrt (x * one_million) r))
      ⊎ ((u128_max ≤ x * one_million) × (sqrt_ppm x ≡ none))
unfolding sqrt_ppm
sqrt_ppm-IsSqrt x = elim (dec_lt (x * one_million) u128_max) [
  | yes h ↦
      let whole : sat_mul u128_max x one_million ≡ x * one_million = omega arith in
      inl (h, rw whole (scaled_sqrt-IsSqrt (x * one_million) h))
  | no h ↦
      let full : sat_mul u128_max x one_million ≡ u128_max = omega (arith, h) in
      inr (omega (arith, h), scaled_sqrt_full (sat_mul u128_max x one_million) full)
]

-- The root of a share of at most 1.
pub root-IsSqrt : (x : ℕ) → x ≤ one_million → IsSqrt (x * one_million) (root x)
unfolding root
root-IsSqrt x h = elim (sqrt_ppm-IsSqrt x) [
  | inl (small, (r, e, square)) ↦ rw e square
  | inr (large, e) ↦ absurd (omega (arith, large))
]

-- There is one integer square root.
pub IsSqrt-unique : (s a b : ℕ) → IsSqrt s a → IsSqrt s b → a ≡ b
IsSqrt-unique s a b h k = grind (arith, square_mono (a + 1) b, square_mono (b + 1) a)

pub IsSqrt-mono : (s t a b : ℕ) → s ≤ t → IsSqrt s a → IsSqrt t b → a ≤ b
IsSqrt-mono s t a b le h k = grind (arith, square_mono (b + 1) a)
