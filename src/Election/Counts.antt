-- ===== src/Election/Counts.antt =====
-- The count of blocks by account has one entry for each account.
use anarchy.Base.{
  ℕ, suc, ◌≡◌, ◌≤◌, ◌<◌, refl, arith, List, [], ◌∷◌, ltb, ◌==◌, if◌then◌else◌, inl, inr, Bool-cases,
}
use anarchy.Election.{bump, count_authors}

-- Every element of a list has a property.
unfoldable pub AllOf : {A : Type 0} → (A → Type 0) → List A → Type 0
AllOf P [] = Unit
AllOf P (x ∷ xs) = P x × AllOf P xs

-- How many entries an account has.
unfoldable pub entries : (who : ℕ) → List (ℕ × ℕ) → ℕ
entries who [] = 0
entries who (p ∷ ps) = let rest = entries who ps in if p.0 == who then suc rest else rest

-- The accounts of a map in order, without repetition.
unfoldable pub IsSorted : List (ℕ × ℕ) → Type 0
IsSorted [] = Unit
IsSorted (p ∷ ps) = AllOf (λ q. p.0 < q.0) ps × IsSorted ps

above_trans :
    (a b : ℕ) (ps : List (ℕ × ℕ)) → a < b → AllOf (λ q. b < q.0) ps → AllOf (λ q. a < q.0) ps
unfolding AllOf
above_trans a b [] h all = tt
above_trans a b (p ∷ ps) h (x, all) = (omega (arith, x), above_trans a b ps h all)

bump-above :
    (low a : ℕ) (ps : List (ℕ × ℕ))
    → low < a
    → AllOf (λ q. low < q.0) ps
    → AllOf (λ q. low < q.0) (bump a ps)
unfolding AllOf bump
bump-above low a [] h all = (h, tt)
bump-above low a (p ∷ ps) h (x, all) = elim (Bool-cases (a == p.0)) [
  | inl e ↦ rw e (x, all)
  | inr e ↦ elim (Bool-cases (ltb a p.0)) [
    | inl l ↦ rw (e, l) (h, (x, all))
    | inr l ↦ rw (e, l) (x, bump-above low a ps h all)
  ]
]

bump-IsSorted : (a : ℕ) (ps : List (ℕ × ℕ)) → IsSorted ps → IsSorted (bump a ps)
unfolding IsSorted AllOf bump
bump-IsSorted a [] h = (tt, tt)
bump-IsSorted a (p ∷ ps) (all, h) = elim (Bool-cases (a == p.0)) [
  | inl e ↦ rw e (all, h)
  | inr e ↦ elim (Bool-cases (ltb a p.0)) [
    | inl l ↦
        rw (e, l) ((ground (arith, l), above_trans a p.0 ps (ground (arith, l)) all), (all, h))
    | inr l ↦ rw (e, l) (bump-above p.0 a ps (ground (arith, e, l)) all, bump-IsSorted a ps h)
  ]
]

pub count_authors-IsSorted :
    (xs : List ℕ) (ps : List (ℕ × ℕ)) → IsSorted ps → IsSorted (count_authors xs ps)
unfolding count_authors
count_authors-IsSorted [] ps h = h
count_authors-IsSorted (a ∷ xs) ps h = count_authors-IsSorted xs (bump a ps) (bump-IsSorted a ps h)

entries_above :
    (who low : ℕ) (ps : List (ℕ × ℕ)) → who ≤ low → AllOf (λ q. low < q.0) ps → entries who ps ≡ 0
unfolding entries AllOf
entries_above who low [] h all = refl
entries_above who low (p ∷ ps) h (x, all) = ground (arith, h, x, entries_above who low ps h all)

pub entries_once : (who : ℕ) (ps : List (ℕ × ℕ)) → IsSorted ps → entries who ps ≤ 1
unfolding entries IsSorted
entries_once who [] h = omega arith
entries_once who (p ∷ ps) (all, h) = elim (Bool-cases (p.0 == who)) [
  | inl e ↦ rw e (omega (arith, entries_above who p.0 ps (ground (arith, e)) all))
  | inr e ↦ rw e (entries_once who ps h)
]
