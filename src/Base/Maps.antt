-- ===== src/Base/Maps.antt =====
-- Storage maps. `Table` is a finite map as an association list, where a sum over all entries is
-- needed; elsewhere a map is a function of its key, and `update` writes one entry.
use Prim.Native.Nat.{ℕ, ◌+◌}
use mathlib.Core.Path.{◌≡◌, refl}
use mathlib.Core.Logic.{◌≢◌}
use mathlib.Core.Bool.{Bool, true, false}
use mathlib.Core.Option.{Option, none, some}
use mathlib.Core.List.{List, [], ◌∷◌}
use native.Mathlib.Omega.{arith}
use anarchy.Base.Tests.{◌==◌, if◌then◌else◌}

abbrev pub is_some {ℓ} : {A : Type ℓ} → Option A → Bool
is_some none = false
is_some (some _) = true

abbrev pub update {ℓ} : {V : Type ℓ} → ℕ → V → (ℕ → V) → ℕ → V
update k v m j = if k == j then v else m j

abbrev pub Table : Type 0 → Type 0
Table V = List (ℕ × V)

module _ {V : Type 0} where
  abbrev pub erase : ℕ → Table V → Table V
  erase key [] = []
  erase key (entry ∷ rest) = if key == entry.0 then rest else entry ∷ erase key rest

  abbrev pub lookup : ℕ → Table V → Option V
  lookup key [] = none
  lookup key ((at, value) ∷ rest) = if key == at then some value else lookup key rest

  abbrev pub insert : ℕ → V → Table V → Table V
  insert key value [] = (key, value) ∷ []
  insert key value (entry ∷ rest) =
      if key == entry.0 then (key, value) ∷ rest else entry ∷ insert key value rest

  -- No key stands twice.
  abbrev pub HasUniqueKeys : Table V → Type 0
  HasUniqueKeys [] = Unit
  HasUniqueKeys ((k, v) ∷ d) = (lookup k d ≡ none) × HasUniqueKeys d

  pub lookup-insert :
      (j k : ℕ) (v : V) (d : Table V)
      → lookup j (insert k v d) ≡ (if j == k then some v else lookup j d)
  lookup-insert j k v [] = ground arith
  lookup-insert j k v (e ∷ d) = ground (arith, lookup-insert j k v d)

  pub lookup-erase_self :
      (key : ℕ) (t : Table V) → HasUniqueKeys t → lookup key (erase key t) ≡ none
  lookup-erase_self key [] u = refl
  lookup-erase_self key (entry ∷ rest) u = ground (arith, lookup-erase_self key rest u.1)

  pub lookup-erase_ne :
      (other key : ℕ) (t : Table V) → other ≢ key → lookup other (erase key t) ≡ lookup other t
  lookup-erase_ne other key [] apart = refl
  lookup-erase_ne other key (entry ∷ rest) apart =
      ground (arith, lookup-erase_ne other key rest apart)

  pub insert-HasUniqueKeys :
      (k : ℕ) (v : V) (d : Table V) → HasUniqueKeys d → HasUniqueKeys (insert k v d)
  insert-HasUniqueKeys k v [] h = (refl, tt)
  insert-HasUniqueKeys k v (e ∷ d) h =
      ground (arith, insert-HasUniqueKeys k v d h.1, lookup-insert e.0 k v d)

  pub erase-HasUniqueKeys : (k : ℕ) (d : Table V) → HasUniqueKeys d → HasUniqueKeys (erase k d)
  erase-HasUniqueKeys k [] h = tt
  erase-HasUniqueKeys k (e ∷ d) h =
      ground (arith, erase-HasUniqueKeys k d h.1, lookup-erase_ne e.0 k d)

-- The sum of a number read off each entry.
module _ {V : Type 0} (weight : V → ℕ) where
  abbrev pub total : Table V → ℕ
  total [] = 0
  total ((_, v) ∷ d) = weight v + total d

  pub total-insert :
      (k : ℕ) (v old : V) (d : Table V)
      → lookup k d ≡ some old
      → total (insert k v d) + weight old ≡ total d + weight v
  total-insert k v old [] e = cc
  total-insert k v old (x ∷ d) e = ground (arith, total-insert k v old d)

  pub total-insert_new :
      (k : ℕ) (v : V) (d : Table V) → lookup k d ≡ none → total (insert k v d) ≡ total d + weight v
  total-insert_new k v [] e = omega arith
  total-insert_new k v (x ∷ d) e = ground (arith, total-insert_new k v d)

  pub total-erase :
      (k : ℕ) (old : V) (d : Table V)
      → lookup k d ≡ some old
      → total (erase k d) + weight old ≡ total d
  total-erase k old [] e = cc
  total-erase k old (x ∷ d) e = ground (arith, total-erase k old d)
