-- ===== src/Decay/Squaring.antt =====
-- The loop against squaring and multiplying through every bit of the exponent, without early exits.
use anarchy.Base.{
  ◌⊎◌, inl, inr, ℕ, zero, suc, ◌/◌, ◌%◌, ◌^◌, ◌<◌, ◌≡◌, refl, sym, ap, ◌∙◌, arith, Option, none,
  some, ltb, ◌==◌, if◌then◌else◌,
}
use anarchy.Decay.{LoopEnd, vanished, out_of_fuel, finished, mul_fixed, power_loop}
use native.Mathlib.Nat.{pow-zero, pow-suc}

-- The product over the lowest `bits` bits of `n`.
unfoldable pub squared_power : (bits n base result : ℕ) → ℕ
squared_power zero n base result = result
squared_power (suc bits) n base result =
    squared_power bits (n / 2) (mul_fixed base base)
      (if n % 2 == 1 then mul_fixed result base else result)

-- The value of an end of the loop; an early return is that of 0.
unfoldable pub outcome : LoopEnd → Option ℕ
outcome vanished = some 0
outcome out_of_fuel = none
outcome (finished result) = some result

zero-mul_fixed : (b : ℕ) → mul_fixed 0 b ≡ 0
unfolding mul_fixed
zero-mul_fixed b = ground arith

mul_fixed-zero : (a : ℕ) → mul_fixed a 0 ≡ 0
unfolding mul_fixed
mul_fixed-zero a = ground arith

squared_power-no_bits : (f b r : ℕ) → squared_power f 0 b r ≡ r
unfolding squared_power
squared_power-no_bits zero b r = refl
squared_power-no_bits (suc f) b r = squared_power-no_bits f (mul_fixed b b) r

squared_power-zero_result : (f n b : ℕ) → squared_power f n b 0 ≡ 0
unfolding squared_power
squared_power-zero_result zero n b = refl
squared_power-zero_result (suc f) n b =
    ground (arith, zero-mul_fixed b, squared_power-zero_result f (n / 2) (mul_fixed b b))

squared_power-zero_base : (f n r : ℕ) → 0 < n → n < 2 ^ f → squared_power f n 0 r ≡ 0
unfolding squared_power
squared_power-zero_base zero n r h k = absurd (omega (arith, pow-zero 2))
squared_power-zero_base (suc f) n r h k = ground (
  arith,
  mul_fixed-zero 0,
  mul_fixed-zero r,
  squared_power-zero_result f (n / 2) 0,
  (λ (p : 0 < n / 2). squared_power-zero_base f (n / 2) r p (omega (arith, pow-suc 2 f))),
)

-- Where the last bit is used up the base does not matter.
squared_power-last :
    (f m b r : ℕ)
    → squared_power f m (if ltb 0 m then mul_fixed b b else b) r
      ≡ squared_power f m (mul_fixed b b) r
squared_power-last f zero b r =
    squared_power-no_bits f b r ∙ sym (squared_power-no_bits f (mul_fixed b b) r)
squared_power-last f (suc m) b r = ground arith

-- The rounds of the loop.
power_loop-round :
    (f n b r : ℕ)
    → let r' = if n % 2 == 1 then mul_fixed r b else r in
      let b' = if ltb 0 (n / 2) then mul_fixed b b else b in
      ((n ≡ 0) × (power_loop (suc f) n b r ≡ finished r))
      ⊎ (((0 < n) × (r' ≡ 0) × (power_loop (suc f) n b r ≡ vanished))
          ⊎ (((0 < n / 2) × (b' ≡ 0) × (power_loop (suc f) n b r ≡ vanished))
              ⊎ ((0 < n) × (power_loop (suc f) n b r ≡ power_loop f (n / 2) b' r'))))
unfolding power_loop
power_loop-round f n b r = ground arith

-- On an exponent of at most `f` bits the loop ends within one round more, with the same value.
pub outcome-power_loop :
    (f n b r : ℕ) → n < 2 ^ f → outcome (power_loop (suc f) n b r) ≡ some (squared_power f n b r)
unfolding outcome squared_power
outcome-power_loop zero n b r h = elim (power_loop-round zero n b r) [
  | inl (none_left, e) ↦ rw e refl
  | inr (inl (p, q, e)) ↦ absurd (omega (arith, p, h, pow-zero 2))
  | inr (inr (inl (p, q, e))) ↦ absurd (omega (arith, p, h, pow-zero 2))
  | inr (inr (inr (p, q))) ↦ absurd (omega (arith, p, h, pow-zero 2))
]
outcome-power_loop (suc f) n b r h =
    let r' = if n % 2 == 1 then mul_fixed r b else r in
    let b' = if ltb 0 (n / 2) then mul_fixed b b else b in
    let less : n / 2 < 2 ^ f = omega (arith, h, pow-suc 2 f) in
    let last = squared_power-last f (n / 2) b r' in
    elim (power_loop-round (suc f) n b r) [
      | inl (none_left, e) ↦ rw (e, none_left) (sym (ap some (squared_power-no_bits (suc f) b r)))
      | inr (inl (p, z, e)) ↦
          rw (e, z) (sym (ap some (squared_power-zero_result f (n / 2) (mul_fixed b b))))
      | inr (inr (inl (p, z, e))) ↦
          rw (e, ← last, z) (sym (ap some (squared_power-zero_base f (n / 2) r' p less)))
      | inr (inr (inr (p, e))) ↦ rw (e, ← last) (outcome-power_loop f (n / 2) b' r' less)
    ]
