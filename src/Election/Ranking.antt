-- ===== src/Election/Ranking.antt =====
-- The ranking of the authors of a window: it counts their blocks and is in order.
use anarchy.Base.{
  ℕ, suc, ◌+◌, ◌≡◌, ◌≤◌, ◌<◌, ◌⊎◌, refl, true, false, arith, List, [], ◌∷◌, ◌==◌, if◌then◌else◌,
  inl, inr, Bool-cases,
}
use anarchy.Election.Counts.{AllOf, entries, IsSorted, count_authors-IsSorted, entries_once}
use anarchy.Election.{bump, count_authors, ranks_before, insert_ranked, rank}

-- How many blocks the entries of an account have together, and how many it has in the window.
unfoldable pub votes : (who : ℕ) → List (ℕ × ℕ) → ℕ
votes who [] = 0
votes who (p ∷ ps) = let rest = votes who ps in if p.0 == who then p.1 + rest else rest

unfoldable pub blocks_of : (who : ℕ) → List ℕ → ℕ
blocks_of who [] = 0
blocks_of who (a ∷ xs) = let rest = blocks_of who xs in if a == who then suc rest else rest

votes-bump :
    (who a : ℕ) (ps : List (ℕ × ℕ))
    → votes who (bump a ps) ≡ votes who ps + (if a == who then 1 else 0)
unfolding votes bump
votes-bump who a [] = ground arith
votes-bump who a (p ∷ ps) = ground (arith, votes-bump who a ps)

votes-count_authors :
    (who : ℕ) (xs : List ℕ) (ps : List (ℕ × ℕ))
    → votes who (count_authors xs ps) ≡ votes who ps + blocks_of who xs
unfolding count_authors blocks_of
votes-count_authors who [] ps = omega arith
votes-count_authors who (a ∷ xs) ps =
    ground (arith, votes-count_authors who xs (bump a ps), votes-bump who a ps)

votes-insert_ranked :
    (who : ℕ) (p : ℕ × ℕ) (ps : List (ℕ × ℕ)) → votes who (insert_ranked p ps) ≡ votes who (p ∷ ps)
unfolding votes insert_ranked
votes-insert_ranked who p [] = refl
votes-insert_ranked who p (q ∷ ps) = ground (arith, votes-insert_ranked who p ps)

votes-rank : (who : ℕ) (ps : List (ℕ × ℕ)) → votes who (rank ps) ≡ votes who ps
unfolding votes rank
votes-rank who [] = refl
votes-rank who (p ∷ ps) = ground (arith, votes-insert_ranked who p (rank ps), votes-rank who ps)

-- An entry that belongs behind another: it has fewer blocks, or as many and no smaller account.
IsBehind : (first later : ℕ × ℕ) → Type 0
IsBehind first later = (later.1 < first.1) ⊎ ((later.1 ≡ first.1) × (first.0 ≤ later.0))

-- Every later entry of a ranking belongs behind every earlier one.
pub IsRanked : List (ℕ × ℕ) → Type 0
IsRanked [] = Unit
IsRanked (p ∷ ps) = AllOf (IsBehind p) ps × IsRanked ps

not_before : (p q : ℕ × ℕ) → ranks_before q p ≡ false → IsBehind p q
unfolding ranks_before IsBehind
not_before p q h = ground arith

is_before : (p q : ℕ × ℕ) → ranks_before q p ≡ true → IsBehind q p
unfolding ranks_before IsBehind
is_before p q h = ground arith

IsBehind-trans : (p q r : ℕ × ℕ) → IsBehind p q → IsBehind q r → IsBehind p r
unfolding IsBehind
IsBehind-trans p q r h k = ground arith

IsBehind-AllOf :
    (p q : ℕ × ℕ) (ps : List (ℕ × ℕ)) → IsBehind p q → AllOf (IsBehind q) ps → AllOf (IsBehind p) ps
unfolding AllOf
IsBehind-AllOf p q [] h all = tt
IsBehind-AllOf p q (r ∷ ps) h (x, all) = (IsBehind-trans p q r h x, IsBehind-AllOf p q ps h all)

insert-IsBehind :
    (first p : ℕ × ℕ) (ps : List (ℕ × ℕ))
    → IsBehind first p
    → AllOf (IsBehind first) ps
    → AllOf (IsBehind first) (insert_ranked p ps)
unfolding AllOf insert_ranked
insert-IsBehind first p [] h all = (h, tt)
insert-IsBehind first p (q ∷ ps) h (x, all) = elim (Bool-cases (ranks_before q p)) [
  | inl e ↦ rw e (x, insert-IsBehind first p ps h all)
  | inr e ↦ rw e (h, (x, all))
]

insert-IsRanked : (p : ℕ × ℕ) (ps : List (ℕ × ℕ)) → IsRanked ps → IsRanked (insert_ranked p ps)
unfolding IsRanked AllOf insert_ranked
insert-IsRanked p [] h = (tt, tt)
insert-IsRanked p (q ∷ ps) (all, h) = elim (Bool-cases (ranks_before q p)) [
  | inl e ↦ rw e (insert-IsBehind q p ps (is_before p q e) all, insert-IsRanked p ps h)
  | inr e ↦ rw e ((not_before p q e, IsBehind-AllOf p q ps (not_before p q e) all), (all, h))
]

rank-IsRanked : (ps : List (ℕ × ℕ)) → IsRanked (rank ps)
unfolding rank IsRanked
rank-IsRanked [] = tt
rank-IsRanked (p ∷ ps) = insert-IsRanked p (rank ps) (rank-IsRanked ps)

entries-insert_ranked :
    (who : ℕ) (p : ℕ × ℕ) (ps : List (ℕ × ℕ))
    → entries who (insert_ranked p ps) ≡ entries who (p ∷ ps)
unfolding entries insert_ranked
entries-insert_ranked who p [] = refl
entries-insert_ranked who p (q ∷ ps) = ground (arith, entries-insert_ranked who p ps)

entries-rank : (who : ℕ) (ps : List (ℕ × ℕ)) → entries who (rank ps) ≡ entries who ps
unfolding entries rank
entries-rank who [] = refl
entries-rank who (p ∷ ps) =
    ground (arith, entries-insert_ranked who p (rank ps), entries-rank who ps)

-- The ranking of a window has at most one entry for an account, which gives the number of its
-- blocks in the window, and is in order: more blocks first, and of equal numbers the smaller
-- account first.
pub rank-count_authors :
    (window : List ℕ)
    → ((who : ℕ) → entries who (rank (count_authors window [])) ≤ 1)
      × ((who : ℕ) → votes who (rank (count_authors window [])) ≡ blocks_of who window)
      × IsRanked (rank (count_authors window []))
unfolding votes IsSorted
rank-count_authors window = (
  λ who. omega (
    arith,
    entries-rank who (count_authors window []),
    entries_once who (count_authors window []) (count_authors-IsSorted window [] tt),
  ),
  λ who. omega (arith, votes-rank who (count_authors window []), votes-count_authors who window []),
  rank-IsRanked (count_authors window []),
)
