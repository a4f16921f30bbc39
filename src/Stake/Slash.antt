-- ===== src/Stake/Slash.antt =====
-- What a slash does: the bond, the total and the two balances after `do_slash_bond`.
use anarchy.Base.{
  ℕ, ◌+◌, ◌-◌, ◌≡◌, ◌≤◌, refl, sym, some, arith, ◌==◌, if◌then◌else◌, min, lookup, insert, erase,
  HasUniqueKeys, total, insert-HasUniqueKeys, erase-HasUniqueKeys, total-insert, total-erase,
  Option-cases, Bool-cases, inl, inr, Table,
}
use anarchy.Base.Reservable.{Currency, IsReservable}
use anarchy.Stake.{Config, Bond, State, amount_of, do_slash_bond, settle_slash}
use anarchy.Stake.Invariant.{IsSound, amount, amount_of-insert, amount_of-erase}

-- The table after a slash, as one function.
abbrev slashed_bonds : ℕ → ℕ → Bond → Table Bond → Table Bond
slashed_bonds who slash b d =
    if b.amount - slash == 0
    then erase who d
    else insert who (record b { amount = b.amount - slash }) d

slashed_bonds_unique :
    (who slash : ℕ) (b : Bond) (d : Table Bond)
    → HasUniqueKeys d
    → HasUniqueKeys (slashed_bonds who slash b d)
slashed_bonds_unique who slash b d u = ground (
  arith,
  erase-HasUniqueKeys who d u,
  insert-HasUniqueKeys who (record b { amount = b.amount - slash }) d u,
)

slashed_bonds-total :
    (who slash : ℕ) (b : Bond) (d : Table Bond)
    → lookup who d ≡ some b
    → slash ≤ b.amount
    → total amount (slashed_bonds who slash b d) + slash ≡ total amount d
slashed_bonds-total who slash b d e h = ground (
  arith,
  total-erase amount who b d e,
  total-insert amount who (record b { amount = b.amount - slash }) b d e,
)

slashed_bonds-amount :
    (x who slash : ℕ) (b : Bond) (d : Table Bond)
    → HasUniqueKeys d
    → amount_of (lookup x (slashed_bonds who slash b d))
      ≡ (if x == who then b.amount - slash else amount_of (lookup x d))
slashed_bonds-amount x who slash b d u = ground (
  arith,
  amount_of-erase x who d u,
  amount_of-insert x who (record b { amount = b.amount - slash }) d,
)

module _ {Ledger : Type 0} (config : Config) (c : Currency Ledger) (laws : IsReservable c)
    (floor : (x : ℕ) → config.mul_floor config.slash_burn_share x ≤ x) where
  settle_slash-reserved :
      (who burn back : ℕ) (l : Ledger) (x : ℕ)
      → c.reserved_balance x (settle_slash config c who burn back l)
        ≡ (if who == x then c.reserved_balance x l - burn - back else c.reserved_balance x l)
  unfolding settle_slash
  settle_slash-reserved who burn back l x = ground (
    arith,
    laws.slash_reserved-reserved who burn l x,
    laws.unreserve-reserved who back (c.slash_reserved who burn l) x,
    laws.unreserve-reserved who back l x,
  )

  settle_slash-free :
      (who burn back : ℕ) (l : Ledger) (x : ℕ)
      → burn + back ≤ c.reserved_balance who l
      → c.free_balance x (settle_slash config c who burn back l)
        ≡ (if who == x then c.free_balance x l + back else c.free_balance x l)
  unfolding settle_slash
  settle_slash-free who burn back l x h = ground (
    arith,
    laws.slash_reserved-free who burn l x,
    laws.slash_reserved-reserved who burn l who,
    laws.unreserve-free who back (c.slash_reserved who burn l) x,
    laws.unreserve-free who back l x,
  )

  -- A slash, also of an account without a bond or by more than its bond, keeps the invariant.
  pub do_slash_bond-IsSound :
      (who asked : ℕ) (s : State Ledger)
      → IsSound c s
      → IsSound c (do_slash_bond config c who asked s).0
  unfolding do_slash_bond
  do_slash_bond-IsSound who asked s v = elim (Option-cases (lookup who s.bonds)) [
    | inl e ↦
        rw (e, do_slash_bond)
          (record { unique = v.unique; total_exact = v.total_exact; backed = v.backed })
    | inr (b, e) ↦ elim (Bool-cases (min b.amount asked == 0)) [
      | inl nothing ↦
          rw (e, do_slash_bond, nothing)
            (record { unique = v.unique; total_exact = v.total_exact; backed = v.backed })
      | inr real ↦
          let slash = min b.amount asked in
          let burn = config.mul_floor config.slash_burn_share slash in
          rw (e, do_slash_bond, real)
            (record {
              unique = slashed_bonds_unique who slash b s.bonds v.unique;
              total_exact =
                  omega
                    (arith, slashed_bonds-total who slash b s.bonds e (omega arith), v.total_exact);
              backed = λ x. ground (
                arith,
                slashed_bonds-amount x who slash b s.bonds v.unique,
                settle_slash-reserved who burn (slash - burn) s.ledger x,
                v.backed x,
                floor slash,
              );
            })
    ]
  ]

  -- What a slash of `asked` has done to the pallet and the ledger.
  pub record Slashes (who asked : ℕ) (s t : State Ledger) (slash : ℕ) : Type 0 where
    pub taken : slash ≡ min (amount_of (lookup who s.bonds)) asked
    pub bond_less :
        (x : ℕ)
        → amount_of (lookup x t.bonds) ≡ (
            if x == who then amount_of (lookup x s.bonds) - slash else amount_of (lookup x s.bonds))
    pub total_less : t.total_active_bond + slash ≡ s.total_active_bond
    pub reserved_less :
        (x : ℕ)
        → c.reserved_balance x t.ledger ≡ (
            if x == who
            then c.reserved_balance x s.ledger - slash
            else c.reserved_balance x s.ledger)
    pub free_more :
        (x : ℕ)
        → c.free_balance x t.ledger ≡ (
            if x == who
            then c.free_balance x s.ledger
              + (slash - config.mul_floor config.slash_burn_share slash)
            else c.free_balance x s.ledger)

  slash_nothing :
      (who asked : ℕ) (s t : State Ledger)
      → min (amount_of (lookup who s.bonds)) asked ≡ 0
      → t.bonds ≡ s.bonds
      → t.total_active_bond ≡ s.total_active_bond
      → t.ledger ≡ s.ledger
      → Slashes who asked s t 0
  slash_nothing who asked s t z bonds total_ ledger = record {
    taken = sym z;
    bond_less = λ x. rw bonds (ground arith);
    total_less = omega arith;
    reserved_less = λ x. rw ledger (ground arith);
    free_more = λ x. rw ledger (ground (arith, floor 0));
  }

  -- A slash in a sound state takes the amount asked for, or the whole bond where that is less: it
  -- lowers the bond, the total and the reserved balance of that account by it, gives all but the
  -- burnt share back to the free balance of the same account, and touches no other account.
  pub do_slash_bond-Slashes :
      (who asked : ℕ) (s : State Ledger)
      → IsSound c s
      → Slashes who asked s
          (do_slash_bond config c who asked s).0
          (do_slash_bond config c who asked s).1
  unfolding do_slash_bond
  do_slash_bond-Slashes who asked s v = elim (Option-cases (lookup who s.bonds)) [
    | inl e ↦
        rw (e, do_slash_bond) (slash_nothing who asked s _ (rw e (omega arith)) refl refl refl)
    | inr (b, e) ↦ elim (Bool-cases (min b.amount asked == 0)) [
      | inl nothing ↦
          rw (e, do_slash_bond, nothing)
            (slash_nothing who asked s _ (rw e (ground arith)) refl refl refl)
      | inr real ↦
          let slash = min b.amount asked in
          let burn = config.mul_floor config.slash_burn_share slash in
          rw (e, do_slash_bond, real)
            (record {
              taken = rw e refl;
              bond_less =
                  λ x. ground (arith, slashed_bonds-amount x who slash b s.bonds v.unique, e);
              total_less =
                  omega
                    (arith, slashed_bonds-total who slash b s.bonds e (omega arith), v.total_exact);
              reserved_less = λ x.
                  ground
                    (arith, settle_slash-reserved who burn (slash - burn) s.ledger x, floor slash);
              free_more = λ x. ground (
                arith,
                settle_slash-free who burn (slash - burn) s.ledger x,
                floor slash,
                v.backed who,
                e,
              );
            })
    ]
  ]
