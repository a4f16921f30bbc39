-- ===== src/Base/Division.antt =====
-- Quotients of natural numbers: how they move with either number.
use Prim.Native.Nat.{ℕ, ◌/◌, ◌≤◌, ◌<◌}
use native.Mathlib.Omega.{arith}
use native.Mathlib.Nat.{le-div_iff_mul-le, mul-le-mul_left, div-mul-le_self}

pub div_mono : (a b d : ℕ) → a ≤ b → a / d ≤ b / d
div_mono a b d h = grind arith

pub div-anti : (x a b : ℕ) → 0 < a → a ≤ b → x / b ≤ x / a
div-anti x a b h k =
    (le-div_iff_mul-le {k = a} h).1 (omega (arith, mul-le-mul_left (x / b) k, div-mul-le_self x b))
