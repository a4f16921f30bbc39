-- ===== src/Stake/Release.antt =====
-- The life of a bond: it is locked, released after the delay, and given back whole.
use anarchy.Base.{
  ℕ, ◌+◌, ◌-◌, ◌≡◌, ◌≤◌, ◌<◌, refl, none, some, arith, leb, sat_add, u32_max, u128_max, lookup,
  insert, erase, ◌∷◌, lookup-insert, lookup-erase_self, insert-HasUniqueKeys, Option-cases,
  Bool-cases, inl, inr,
}
use anarchy.Base.Dispatch.{Result, ok, err, ◌>>=◌}
use anarchy.Base.Reservable.{Currency, IsReservable}
use anarchy.Stake.{
  Config, Bond, State, Error, release_still_pending, bond, bond_amount_for, request_release,
  finalize_release, new_bond, released, release_requested,
}
use anarchy.Stake.Invariant.{IsSound}

-- The state at another block.
abbrev pub at_block : {Ledger : Type 0} → ℕ → State Ledger → State Ledger
at_block n s = record s { block_number = n }

module _ {Ledger : Type 0} (config : Config) (c : Currency Ledger) (laws : IsReservable c) where
  -- Request the release at block `n`, and finalise it at block `m`.
  pub leave : (who n m : ℕ) → State Ledger → Result Error (State Ledger)
  leave who n m s = do
    requested ← request_release config c who (at_block n s)
    finalize_release config c who (at_block m requested)

  -- What a state keeps of a bond that has just been made.
  bond-inverse :
      (who cap : ℕ) (s : State Ledger) {s' : State Ledger}
      → bond config c who cap s ≡ ok s'
      → (l : Ledger) × (lookup who s.bonds ≡ none)
        × (c.reserve who (bond_amount_for config c cap) s.ledger ≡ some l)
        × (s'.ledger ≡ l)
        × (s'.bonds
            ≡ insert who (new_bond (bond_amount_for config c cap) cap s.block_number) s.bonds)
        × (s'.total_active_bond
            ≡ sat_add u128_max s.total_active_bond (bond_amount_for config c cap))
  unfolding bond
  bond-inverse who cap s h =
      elim (Option-cases (c.reserve who (bond_amount_for config c cap) s.ledger)) [
        | inl poor ↦ ground arith
        | inr (l, r) ↦ (l, ground arith, r, ground arith, ground arith, ground arith)
      ]

  module _ (who n m : ℕ) (s : State Ledger) (b : Bond) (held : lookup who s.bonds ≡ some b)
      (quiet : b.release_requested_at ≡ none) (fits : n + config.bond_release_delay ≤ u32_max) where
    abbrev marked : Bond
    marked = record b { release_requested_at = some n }

    found : lookup who (insert who marked s.bonds) ≡ some marked
    found = ground (arith, lookup-insert who who marked s.bonds)

    leave_early : m < n + config.bond_release_delay → leave who n m s ≡ err release_still_pending
    unfolding leave request_release finalize_release
    leave_early h = rw (held, quiet, found) (ground arith)

    abbrev left : State Ledger
    left = record s {
      ledger = c.unreserve who b.amount s.ledger;
      bonds = erase who (insert who marked s.bonds);
      total_active_bond = s.total_active_bond - b.amount;
      block_number = m;
      events =
          released who b.amount
          ∷ release_requested who (sat_add u32_max n config.bond_release_delay)
          ∷ s.events;
    }

    leave_due :
        n + config.bond_release_delay ≤ m
        → (t : State Ledger) × (leave who n m s ≡ ok t)
          × (t.bonds ≡ erase who (insert who marked s.bonds))
          × (t.total_active_bond ≡ s.total_active_bond - b.amount)
          × (t.ledger ≡ c.unreserve who b.amount s.ledger)
    unfolding leave request_release finalize_release
    leave_due h = elim (Bool-cases (leb (sat_add u32_max n config.bond_release_delay) m)) [
      | inl due ↦ (left, rw (held, quiet, found, due) refl, refl, refl, refl)
      | inr early ↦ absurd (ground arith)
    ]

  -- When the total has room for the amount and the delay fits into the block numbers: a bond made
  -- in a sound state cannot leave before the delay has passed since the request; after it the
  -- exit succeeds, and the account has no bond, the total of all bonds and every reserved balance
  -- are what they were before the bond.
  pub bond-leave :
      (who cap n m : ℕ) (s : State Ledger) {s' : State Ledger}
      → IsSound c s
      → s.total_active_bond + bond_amount_for config c cap ≤ u128_max
      → n + config.bond_release_delay ≤ u32_max
      → bond config c who cap s ≡ ok s'
      → (m < n + config.bond_release_delay → leave who n m s' ≡ err release_still_pending)
        × (n + config.bond_release_delay ≤ m
            → (t : State Ledger) × (leave who n m s' ≡ ok t)
              × (lookup who t.bonds ≡ none)
              × (t.total_active_bond ≡ s.total_active_bond)
              × ((x : ℕ) → c.reserved_balance x t.ledger ≡ c.reserved_balance x s.ledger))
  bond-leave who cap n m s {s'} v room fits h =
      let amount = bond_amount_for config c cap in
      let made : Bond = new_bond amount cap s.block_number in
      let later : Bond = record made { release_requested_at = some n } in
      let (l, fresh, r, ledger, bonds, total_) = bond-inverse who cap s h in
      let held : lookup who s'.bonds ≡ some made =
        rw bonds (ground (arith, lookup-insert who who made s.bonds)) in
      (
        leave_early who n m s' made held refl fits,
        λ due.
            let (t, e, t_bonds, t_total, t_ledger) = leave_due who n m s' made held refl fits due in
            (
              t,
              e,
              rw (t_bonds, bonds)
                  (lookup-erase_self who _
                    (insert-HasUniqueKeys who later _ (insert-HasUniqueKeys who made _ v.unique))),
              omega arith,
              λ x.
                  rw (t_ledger, ledger)
                    (ground (
                      arith,
                      laws.unreserve-reserved who amount l x,
                      laws.reserve-reserved who amount s.ledger r x,
                    )),
            ),
      )
