-- ===== src/Storage/Occurrences.antt =====
-- How often an entry stands in the lists of holders and of holdings, under the operations that
-- `declare_holding`, `revoke_holding` and `do_release_fragment` make on them.
use anarchy.Base.{
  ℕ, zero, suc, ◌+◌, ◌≡◌, refl, inl, inr, Bool, true, false, none, some, List, [], ◌∷◌, ◌++◌, arith,
  ◌==◌, if◌then◌else◌, contains, Option-cases, ltb,
}
use anarchy.Storage.Types.{PeerId, peer_eq, peer_eq_iff, update_peer}
use anarchy.Storage.Holdings.{has_peer, position, swap_remove, last_of, all_but_last}
use anarchy.Storage.Repair.{without}
use anarchy.Storage.Release.{prune_holdings}

-- 1 for a test that holds.
abbrev pub one_if : Bool → ℕ
one_if true = 1
one_if false = 0

-- The number of entries that pass a test.
abbrev pub count {ℓ} : {A : Type ℓ} → (A → Bool) → List A → ℕ
count test [] = 0
count test (x ∷ xs) = one_if (test x) + count test xs

module _ {ℓ} {A : Type ℓ} (test : A → Bool) where
  pub count-append :
      (xs : List A) (y : A) → count test (xs ++ y ∷ []) ≡ count test xs + one_if (test y)
  count-append [] y = omega arith
  count-append (x ∷ xs) y = omega (arith, count-append xs y)

  count-last :
      (y : A) (ys : List A)
      → one_if (test (last_of y ys)) + count test (all_but_last y ys)
        ≡ one_if (test y) + count test ys
  unfolding last_of all_but_last
  count-last y [] = refl
  count-last y (z ∷ zs) = omega (arith, count-last z zs)

module _ {ℓ} {A : Type ℓ} (found : A → Bool) where
  position_zero : (x : A) (xs : List A) → position found (x ∷ xs) ≡ some 0 → found x ≡ true
  unfolding position
  position_zero x xs e = elim (Option-cases (position found xs)) [
    | inl p ↦ ground (arith, p)
    | inr (j, p) ↦ ground (arith, p)
  ]

  position-suc :
      (x : A) (xs : List A) (i : ℕ)
      → position found (x ∷ xs) ≡ some (suc i)
      → position found xs ≡ some i
  unfolding position
  position-suc x xs i e = elim (Option-cases (position found xs)) [
    | inl p ↦ ground (arith, p)
    | inr (j, p) ↦ ground (arith, p)
  ]

-- A removal at the position of the first entry that passes `found` takes one such entry away.
module _ {ℓ} {A : Type ℓ} (test found : A → Bool) (k : ℕ)
    (fixes : (x : A) → found x ≡ true → one_if (test x) ≡ k) where
  pub count-swap_remove :
      (i : ℕ) (xs : List A)
      → position found xs ≡ some i
      → count test (swap_remove i xs) + k ≡ count test xs
  unfolding position swap_remove
  count-swap_remove i [] e = cc
  count-swap_remove zero (x ∷ []) e = omega (arith, fixes x (position_zero found x [] e))
  count-swap_remove zero (x ∷ y ∷ ys) e =
      omega (arith, fixes x (position_zero found x (y ∷ ys) e), count-last test y ys)
  count-swap_remove (suc i) (x ∷ xs) e =
      omega (arith, count-swap_remove i xs (position-suc found x xs i e))

-- An entry that is counted is found.
pub position-count {ℓ} :
    {A : Type ℓ} (test : A → Bool) (xs : List A) → position test xs ≡ none → count test xs ≡ 0
unfolding position
position-count test [] e = refl
position-count test (x ∷ xs) e = elim (Option-cases (position test xs)) [
  | inl p ↦ ground (arith, position-count test xs p, p)
  | inr (j, p) ↦ ground (arith, p)
]

-- The tests for one peer and for one fragment.
abbrev pub is_peer : PeerId → PeerId → Bool
is_peer p q = peer_eq q p

abbrev pub is_fragment : ℕ → ℕ → Bool
is_fragment f x = x == f

pub has_peer-count : (p : PeerId) (xs : List PeerId) → has_peer p xs ≡ ltb 0 (count (is_peer p) xs)
unfolding has_peer
has_peer-count p [] = refl
has_peer-count p (x ∷ xs) = ground (arith, has_peer-count p xs)

pub contains-count : (f : ℕ) (xs : List ℕ) → contains f xs ≡ ltb 0 (count (is_fragment f) xs)
unfolding contains
contains-count f [] = refl
contains-count f (x ∷ xs) = ground (arith, contains-count f xs)

pub count-without :
    (f g : ℕ) (xs : List ℕ)
    → count (is_fragment g) (without f xs) ≡ (if f == g then 0 else count (is_fragment g) xs)
unfolding without
count-without f g [] = ground arith
count-without f g (x ∷ xs) = ground (arith, count-without f g xs)

-- Pruning clears the fragment at the peers of the list, and changes nothing else.
pub count-prune_holdings :
    (f g : ℕ) (ps : List PeerId) (held : PeerId → List ℕ) (q : PeerId)
    → count (is_fragment g) (prune_holdings f ps held q) ≡ (
        if f == g
        then (if ltb 0 (count (is_peer q) ps) then 0 else count (is_fragment g) (held q))
        else count (is_fragment g) (held q))
unfolding prune_holdings
count-prune_holdings f g [] held q = ground arith
count-prune_holdings f g (p ∷ ps) held q = ground (
  arith,
  count-prune_holdings f g ps (update_peer p (without f (held p)) held) q,
  count-without f g (held p),
  peer_eq_iff p q,
)
