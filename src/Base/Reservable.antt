-- ===== src/Base/Reservable.antt =====
-- The reservable currency that the stake pallet calls (a pallet of the runtime framework), by the
-- operations that are called and what their documentation says of the reserved balance.
use Prim.Native.Nat.{ℕ, ◌+◌, ◌-◌, min}
use mathlib.Core.Path.{◌≡◌}
use mathlib.Core.Option.{Option, some}
use anarchy.Base.Tests.{◌==◌, if◌then◌else◌}

-- Balances are numbers, accounts are compared only.
pub record Currency (Ledger : Type 0) : Type 0 where
  -- `reserve`: `none` when the free balance does not suffice.
  pub reserve : ℕ → ℕ → Ledger → Option Ledger
  -- `unreserve` and `slash_reserved`, which take what there is when the amount is not reserved.
  pub unreserve : ℕ → ℕ → Ledger → Ledger
  pub slash_reserved : ℕ → ℕ → Ledger → Ledger
  -- The observations that the laws are about.
  pub reserved_balance : ℕ → Ledger → ℕ
  pub free_balance : ℕ → Ledger → ℕ

-- The documented effect of each operation on the two balances of every account.
pub record IsReservable {Ledger : Type 0} (c : Currency Ledger) : Type 0 where
  pub reserve-reserved :
      (who amount : ℕ) (l : Ledger) {l' : Ledger}
      → c.reserve who amount l ≡ some l'
      → (x : ℕ)
      → c.reserved_balance x l'
        ≡ (if who == x then c.reserved_balance x l + amount else c.reserved_balance x l)
  pub unreserve-reserved :
      (who amount : ℕ) (l : Ledger) (x : ℕ)
      → c.reserved_balance x (c.unreserve who amount l)
        ≡ (if who == x then c.reserved_balance x l - amount else c.reserved_balance x l)
  pub slash_reserved-reserved :
      (who amount : ℕ) (l : Ledger) (x : ℕ)
      → c.reserved_balance x (c.slash_reserved who amount l)
        ≡ (if who == x then c.reserved_balance x l - amount else c.reserved_balance x l)
  pub unreserve-free :
      (who amount : ℕ) (l : Ledger) (x : ℕ)
      → c.free_balance x (c.unreserve who amount l) ≡ (
          if who == x
          then c.free_balance x l + min amount (c.reserved_balance x l)
          else c.free_balance x l)
  pub slash_reserved-free :
      (who amount : ℕ) (l : Ledger) (x : ℕ)
      → c.free_balance x (c.slash_reserved who amount l) ≡ c.free_balance x l
