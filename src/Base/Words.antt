-- ===== src/Base/Words.antt =====
-- Unsigned machine integers: the largest values, and the saturating operations of Rust.
-- `saturating_sub` is `-` on ℕ, which stops at 0.
use Prim.Native.Nat.{ℕ, ◌+◌, ◌*◌, min}

abbrev pub u8_max : ℕ
u8_max = 255

abbrev pub u16_max : ℕ
u16_max = 65535

abbrev pub u32_max : ℕ
u32_max = 4294967295

abbrev pub u64_max : ℕ
u64_max = 18446744073709551615

abbrev pub u128_max : ℕ
u128_max = 340282366920938463463374607431768211455

-- The largest value comes first: `sat_add u32_max a b` is `a.saturating_add(b)` on `u32`.
abbrev pub sat_add : ℕ → ℕ → ℕ → ℕ
sat_add top a b = min (a + b) top

abbrev pub sat_mul : ℕ → ℕ → ℕ → ℕ
sat_mul top a b = min (a * b) top
