-- ===== src/Stake/Tests.antt =====
-- The theorems on bonds at a currency that keeps the two balances of every account.
use anarchy.Base.{u128_max, ℕ, ◌+◌, ◌*◌, ◌/◌, ◌≤◌, ◌<◌, ◌≡◌, refl, arith, none, [], lookup}
use anarchy.Base.Dispatch.{ok, err, commit}
use anarchy.Base.Balances.{Balances, currency, currency-IsReservable}
use anarchy.Stake.{Config, State, bond, do_slash_bond, release_still_pending, bond_amount_for}
use anarchy.Stake.Invariant.{IsSound, bond-IsSound}
use anarchy.Stake.Slash.{Slashes, do_slash_bond-Slashes}
use anarchy.Stake.Release.{leave, bond-leave}

abbrev config : Config
config = record {
  bond_per_gb = 1000;
  min_declared_capacity = 1_073_741_824;
  bond_release_delay = 100;
  slash_burn_share = 300_000;
  mul_floor = λ parts x. parts * x / 1_000_000;
}

burn_floor : (x : ℕ) → 300_000 * x / 1_000_000 ≤ x
burn_floor x = omega arith

abbrev start : State Balances
start = record {
  bonds = [];
  total_active_bond = 0;
  block_number = 5;
  ledger = record { free = λ a. 5000; held = λ a. 7 };
  events = [];
}

start-IsSound : IsSound currency start
start-IsSound = record { unique = tt; total_exact = refl; backed = λ x. omega arith }

abbrev capacity : ℕ
capacity = 2_147_483_648

room : start.total_active_bond + bond_amount_for config currency capacity ≤ u128_max
unfolding bond_amount_for
room = omega arith

abbrev bonded : State Balances
bonded = commit start (bond config currency 4 capacity start)

bonds : bond config currency 4 capacity start ≡ ok bonded
unfolding bond
bonds = refl

bonded-IsSound : IsSound currency bonded
bonded-IsSound =
    bond-IsSound config currency currency-IsReservable 4 capacity start start-IsSound room

do_slash_bond-Slashes_example :
    Slashes config currency currency-IsReservable burn_floor 4 300 bonded
      (do_slash_bond config currency 4 300 bonded).0
      (do_slash_bond config currency 4 300 bonded).1
do_slash_bond-Slashes_example =
    do_slash_bond-Slashes config currency currency-IsReservable burn_floor 4 300 bonded
      bonded-IsSound

bond-leave_example :
    (50 < 20 + 100
      → leave config currency currency-IsReservable 4 20 50 bonded ≡ err release_still_pending)
    × (20 + 100 ≤ 50
        → (t : State Balances) × (leave config currency currency-IsReservable 4 20 50 bonded ≡ ok t)
          × (lookup 4 t.bonds ≡ none)
          × (t.total_active_bond ≡ start.total_active_bond)
          × ((x : ℕ)
              → currency.reserved_balance x t.ledger ≡ currency.reserved_balance x start.ledger))
bond-leave_example =
    bond-leave config currency currency-IsReservable 4 capacity 20 50 start start-IsSound room
      (omega arith) bonds
