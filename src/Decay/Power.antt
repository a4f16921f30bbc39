-- ===== src/Decay/Power.antt =====
-- Powers of products, for the step of the squaring loop.
use anarchy.Base.{ℕ, zero, suc, ◌+◌, ◌*◌, ◌^◌, ◌≡◌, arith}
use native.Mathlib.Nat.{pow-zero, pow-suc}

interchange : (a b c d : ℕ) → a * b * (c * d) ≡ a * c * (b * d)
interchange a b c d = grind arith

pub mul_pow : (a b n : ℕ) → (a * b) ^ n ≡ a ^ n * b ^ n
mul_pow a b zero = grind (arith, pow-zero (a * b), pow-zero a, pow-zero b)
mul_pow a b (suc n) =
    rw (pow-suc (a * b) n, pow-suc a n, pow-suc b n, mul_pow a b n)
      (interchange (a ^ n) (b ^ n) a b)

swap_last : (p a : ℕ) → p * p * a * a ≡ p * a * (p * a)
swap_last p a = grind arith

pub pow_double : (a m : ℕ) → a ^ (m + m) ≡ a ^ m * a ^ m
pow_double a zero = grind (arith, pow-zero a)
pow_double a (suc m) =
    let two : suc m + suc m ≡ suc (suc (m + m)) = omega arith in
    rw (two, pow-suc a (suc (m + m)), pow-suc a (m + m), pow-suc a m, pow_double a m)
      (swap_last (a ^ m) a)
