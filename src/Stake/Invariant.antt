-- ===== src/Stake/Invariant.antt =====
-- The invariant of the bonds, and that the three calls keep it.
use anarchy.Base.{
  ℕ, ◌+◌, ◌-◌, ◌≡◌, ◌≤◌, refl, some, List, arith, leb, ◌==◌, if◌then◌else◌, sat_add, u128_max,
  u32_max, lookup, insert, erase, HasUniqueKeys, total, lookup-insert, lookup-erase_ne,
  lookup-erase_self, insert-HasUniqueKeys, erase-HasUniqueKeys, total-insert, total-insert_new,
  total-erase, Option-cases, inl, inr, Bool-cases,
}
use anarchy.Base.Dispatch.{commit}
use anarchy.Stake.{
  Config, Bond, State, new_bond, amount_of, bond, bond_amount_for, request_release,
  finalize_release,
}
use anarchy.Base.Reservable.{Currency, IsReservable}

abbrev pub amount : Bond → ℕ
amount b = b.amount

-- One bond to an account, a total that is their sum, and each bond covered by the reserved balance.
pub record IsSound {Ledger : Type 0} (c : Currency Ledger) (s : State Ledger) : Type 0 where
  pub unique : HasUniqueKeys s.bonds
  pub total_exact : s.total_active_bond ≡ total amount s.bonds
  pub backed : (x : ℕ) → amount_of (lookup x s.bonds) ≤ c.reserved_balance x s.ledger

pub amount_of-insert :
    (x who : ℕ) (b : Bond) (s : List (ℕ × Bond))
    → amount_of (lookup x (insert who b s))
      ≡ (if x == who then b.amount else amount_of (lookup x s))
amount_of-insert x who b s = ground (arith, lookup-insert x who b s)

pub amount_of-erase :
    (x who : ℕ) (s : List (ℕ × Bond))
    → HasUniqueKeys s
    → amount_of (lookup x (erase who s)) ≡ (if x == who then 0 else amount_of (lookup x s))
amount_of-erase x who s u = ground (arith, lookup-erase_ne x who s, lookup-erase_self who s u)

module _ {Ledger : Type 0} (config : Config) (c : Currency Ledger) (laws : IsReservable c) where
  -- A bond, refused or accepted, keeps the invariant (one bond to an account, the total their
  -- sum, each covered by the reserved balance) when the total has room for its amount.
  pub bond-IsSound :
      (who cap : ℕ) (s : State Ledger)
      → IsSound c s
      → s.total_active_bond + bond_amount_for config c cap ≤ u128_max
      → IsSound c (commit s (bond config c who cap s))
  unfolding bond
  bond-IsSound who cap s v fits = elim (Option-cases (lookup who s.bonds)) [
    | inr (b, e) ↦ rw e v
    | inl e ↦ elim (Bool-cases (leb config.min_declared_capacity cap)) [
      | inr low ↦ rw (e, low) v
      | inl enough ↦ elim (Option-cases (c.reserve who (bond_amount_for config c cap) s.ledger)) [
        | inl poor ↦ rw (e, enough, poor) v
        | inr (l, r) ↦
            rw (e, enough, r)
              (record {
                unique = insert-HasUniqueKeys who _ s.bonds v.unique;
                total_exact = omega (arith, total-insert_new amount who _ s.bonds e, v.total_exact);
                backed = λ x. ground (
                  arith,
                  amount_of-insert x who
                      (new_bond (bond_amount_for config c cap) cap s.block_number) s.bonds,
                  laws.reserve-reserved who (bond_amount_for config c cap) s.ledger r x,
                  v.backed x,
                );
              })
      ]
    ]
  ]

  -- A request of release, refused or accepted, keeps the invariant.
  pub request_release-IsSound :
      (who : ℕ) (s : State Ledger)
      → IsSound c s
      → IsSound c (commit s (request_release config c who s))
  unfolding request_release
  request_release-IsSound who s v = elim (Option-cases (lookup who s.bonds)) [
    | inl e ↦ rw e v
    | inr (b, e) ↦ elim (Option-cases b.release_requested_at) [
      | inr (t, r) ↦ rw (e, r) v
      | inl r ↦
          let marked : Bond = record b { release_requested_at = some s.block_number } in
          rw (e, r)
            (record {
              unique = insert-HasUniqueKeys who marked s.bonds v.unique;
              total_exact =
                  omega (arith, total-insert amount who marked b s.bonds e, v.total_exact);
              backed = λ x. ground (arith, amount_of-insert x who marked s.bonds, v.backed x);
            })
    ]
  ]

  -- Erasing a bond and giving its amount back keeps the invariant.
  release-IsSound :
      (who : ℕ) (b : Bond) (s t : State Ledger)
      → IsSound c s
      → lookup who s.bonds ≡ some b
      → t.bonds ≡ erase who s.bonds
      → t.total_active_bond ≡ s.total_active_bond - b.amount
      → t.ledger ≡ c.unreserve who b.amount s.ledger
      → IsSound c t
  release-IsSound who b s t v e bonds total_ ledger = record {
    unique = rw bonds (erase-HasUniqueKeys who s.bonds v.unique);
    total_exact =
        rw (bonds, total_) (omega (arith, total-erase amount who b s.bonds e, v.total_exact));
    backed = λ x.
        rw (bonds, ledger)
          (ground (
            arith,
            amount_of-erase x who s.bonds v.unique,
            laws.unreserve-reserved who b.amount s.ledger x,
            v.backed x,
          ));
  }

  -- The end of a release, refused or accepted, keeps the invariant.
  pub finalize_release-IsSound :
      (who : ℕ) (s : State Ledger)
      → IsSound c s
      → IsSound c (commit s (finalize_release config c who s))
  unfolding finalize_release
  finalize_release-IsSound who s v = elim (Option-cases (lookup who s.bonds)) [
    | inl e ↦ rw e v
    | inr (b, e) ↦ elim (Option-cases b.release_requested_at) [
      | inl r ↦ rw (e, r) v
      | inr (t, r) ↦
          elim (Bool-cases (leb (sat_add u32_max t config.bond_release_delay) s.block_number)) [
            | inr early ↦ rw (e, r, early) v
            | inl due ↦ rw (e, r, due) (release-IsSound who b s _ v e refl refl refl)
          ]
    ]
  ]
