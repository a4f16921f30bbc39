-- ===== src/Base/Balances.antt =====
-- A currency that keeps the free and the reserved balance of every account: it shows that the laws of
-- `Reservable` can hold, and the tests use it.
use Prim.Native.Nat.{ℕ, ◌+◌, ◌-◌, min}
use mathlib.Core.Option.{none, some}
use native.Mathlib.Omega.{arith}
use anarchy.Base.Tests.{if◌then◌else◌, ltb}
use anarchy.Base.Maps.{update}
use anarchy.Base.Reservable.{Currency, IsReservable}

pub record Balances : Type 0 where
  pub free : ℕ → ℕ
  pub held : ℕ → ℕ

abbrev pub currency : Currency Balances
currency = record {
  reserve = λ who amount l.
      if ltb (l.free who) amount
      then none
      else some (record {
        free = update who (l.free who - amount) l.free;
        held = update who (l.held who + amount) l.held;
      });
  unreserve = λ who amount l. record {
    free = update who (l.free who + min amount (l.held who)) l.free;
    held = update who (l.held who - amount) l.held;
  };
  slash_reserved = λ who amount l. record l { held = update who (l.held who - amount) l.held };
  reserved_balance = λ who l. l.held who;
  free_balance = λ who l. l.free who;
}

pub currency-IsReservable : IsReservable currency
currency-IsReservable = record {
  reserve-reserved = λ who amount l {l'} h x. ground arith;
  unreserve-reserved = λ who amount l x. ground arith;
  slash_reserved-reserved = λ who amount l x. ground arith;
  unreserve-free = λ who amount l x. ground arith;
  slash_reserved-free = λ who amount l x. ground arith;
}
