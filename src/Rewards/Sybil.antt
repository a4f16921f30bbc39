-- ===== src/Rewards/Sybil.antt =====
-- The square root of the bond share under a split of the bond over several accounts.
use anarchy.Base.{ℕ, ◌+◌, ◌*◌, ◌<◌, ◌≤◌, arith}
use anarchy.Rewards.{root, one_million}
use anarchy.Rewards.Sqrt.{IsSqrt, root-IsSqrt, square_mono}

-- Integer square roots are subadditive up to one unit.
IsSqrt-add : (s t u a b c : ℕ) → u ≤ s + t → IsSqrt s a → IsSqrt t b → IsSqrt u c → c ≤ a + b + 1
IsSqrt-add s t u a b c h hs ht hu = grind (arith, square_mono (a + b + 2) c)

-- Splitting a share of at most 1 in two never lowers the sum of the square roots by more than one unit.
pub root-add : (x y : ℕ) → x + y ≤ one_million → root (x + y) ≤ root x + root y + 1
root-add x y h =
    IsSqrt-add (x * one_million) (y * one_million) ((x + y) * one_million) (root x) (root y)
      (root (x + y)) (omega arith) (root-IsSqrt x (omega (arith, h)))
      (root-IsSqrt y (omega (arith, h))) (root-IsSqrt (x + y) h)

IsSqrt-quarter : (s t a b : ℕ) → t ≤ 4 * s → IsSqrt s a → IsSqrt t b → b ≤ 2 * a + 1
IsSqrt-quarter s t a b h hs ht = grind (arith, square_mono (2 * a + 2) b)

root_quarter : (x : ℕ) → 4 * x ≤ one_million → root (4 * x) ≤ 2 * root x + 1
root_quarter x h =
    IsSqrt-quarter (x * one_million) (4 * x * one_million) (root x) (root (4 * x)) (omega arith)
      (root-IsSqrt x (omega (arith, h))) (root-IsSqrt (4 * x) h)

root_pos : (x : ℕ) → 0 < x → x ≤ one_million → 999 < root x
root_pos x h top = grind (arith, root-IsSqrt x top, square_mono (root x + 1) 1000)

-- Four accounts with a quarter of a positive bond share each have, together, almost twice the
-- square root of the one account that holds the whole share: at least twice, less two units, and
-- always strictly more than once.
pub root_split :
    (x : ℕ)
    → 0 < x
    → 4 * x ≤ one_million
    → (2 * root (4 * x) ≤ 4 * root x + 2) × (root (4 * x) < 4 * root x)
root_split x h top = omega (arith, root_quarter x top, root_pos x h (omega (arith, top)))
