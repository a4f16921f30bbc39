-- ===== src/Storage/Eviction.antt =====
-- The candidates for eviction are sorted, and the holder that is evicted has the lowest score.
use anarchy.Base.{
  ℕ, ◌<◌, ◌≤◌, ◌≡◌, refl, ◌∙◌, Bool, true, false, ◌||◌, some, List, [], ◌∷◌, arith, ◌==◌, map,
  if◌then◌else◌, contains, length, Option-cases, inl, inr, ◌%◌,
}
use anarchy.Base.Dispatch.{ok}
use anarchy.Storage.Types.{State, KzgFragment, EvictionCandidate, ProofRecord, no_record}
use anarchy.Storage.Repair.{
  evict_stale_holder, candidate_of, sort_by_score, insert_candidate, first_account, without,
}

-- Every score of the list is at least `k`.
abbrev pub AllFrom : ℕ → List EvictionCandidate → Type 0
AllFrom k [] = Unit
AllFrom k (d ∷ ds) = (k ≤ d.priority_score) × AllFrom k ds

abbrev pub IsSorted : List EvictionCandidate → Type 0
IsSorted [] = Unit
IsSorted (d ∷ ds) = AllFrom d.priority_score ds × IsSorted ds

-- An account is among the candidates.
abbrev pub has_account : ℕ → List EvictionCandidate → Bool
has_account a [] = false
has_account a (d ∷ ds) = d.account_id == a || has_account a ds

-- Each candidate carries the score of its account.
abbrev pub IsScored : (ℕ → ℕ) → List EvictionCandidate → Type 0
IsScored score [] = Unit
IsScored score (d ∷ ds) = (d.priority_score ≡ score d.account_id) × IsScored score ds

AllFrom-weaken : (j k : ℕ) (ds : List EvictionCandidate) → j ≤ k → AllFrom k ds → AllFrom j ds
AllFrom-weaken j k [] h all = tt
AllFrom-weaken j k (d ∷ ds) h all = (omega arith, AllFrom-weaken j k ds h all.1)

insert_candidate-AllFrom :
    (k : ℕ) (c : EvictionCandidate) (ds : List EvictionCandidate)
    → k ≤ c.priority_score
    → AllFrom k ds
    → AllFrom k (insert_candidate c ds)
unfolding insert_candidate
insert_candidate-AllFrom k c [] h all = (h, tt)
insert_candidate-AllFrom k c (d ∷ ds) h all =
    ground (arith, insert_candidate-AllFrom k c ds h all.1)

insert_candidate-IsSorted :
    (c : EvictionCandidate) (ds : List EvictionCandidate)
    → IsSorted ds
    → IsSorted (insert_candidate c ds)
unfolding insert_candidate
insert_candidate-IsSorted c [] s = (tt, tt)
insert_candidate-IsSorted c (d ∷ ds) s = ground (
  arith,
  insert_candidate-IsSorted c ds s.1,
  insert_candidate-AllFrom d.priority_score c ds,
  AllFrom-weaken c.priority_score d.priority_score ds,
)

sort_by_score-IsSorted : (cs : List EvictionCandidate) → IsSorted (sort_by_score cs)
unfolding sort_by_score
sort_by_score-IsSorted [] = tt
sort_by_score-IsSorted (c ∷ cs) =
    insert_candidate-IsSorted c (sort_by_score cs) (sort_by_score-IsSorted cs)

has_account-insert_candidate :
    (a : ℕ) (c : EvictionCandidate) (ds : List EvictionCandidate)
    → has_account a (insert_candidate c ds) ≡ has_account a (c ∷ ds)
unfolding insert_candidate
has_account-insert_candidate a c [] = refl
has_account-insert_candidate a c (d ∷ ds) = ground (arith, has_account-insert_candidate a c ds)

has_account-sort_by_score :
    (a : ℕ) (cs : List EvictionCandidate) → has_account a (sort_by_score cs) ≡ has_account a cs
unfolding sort_by_score
has_account-sort_by_score a [] = refl
has_account-sort_by_score a (c ∷ cs) =
    ground
      (arith, has_account-insert_candidate a c (sort_by_score cs), has_account-sort_by_score a cs)

insert_candidate-IsScored :
    (score : ℕ → ℕ) (c : EvictionCandidate) (ds : List EvictionCandidate)
    → c.priority_score ≡ score c.account_id
    → IsScored score ds
    → IsScored score (insert_candidate c ds)
unfolding insert_candidate
insert_candidate-IsScored score c [] h all = (h, tt)
insert_candidate-IsScored score c (d ∷ ds) h all =
    ground (arith, insert_candidate-IsScored score c ds h all.1)

sort_by_score-IsScored :
    (score : ℕ → ℕ) (cs : List EvictionCandidate)
    → IsScored score cs
    → IsScored score (sort_by_score cs)
unfolding sort_by_score
sort_by_score-IsScored score [] all = tt
sort_by_score-IsScored score (c ∷ cs) all =
    insert_candidate-IsScored score c (sort_by_score cs) all.0
      (sort_by_score-IsScored score cs all.1)

AllFrom-le :
    (k b : ℕ) (score : ℕ → ℕ) (ds : List EvictionCandidate)
    → AllFrom k ds
    → IsScored score ds
    → has_account b ds ≡ true
    → k ≤ score b
AllFrom-le k b score [] all scored h = cc
AllFrom-le k b score (d ∷ ds) all scored h = ground (arith, AllFrom-le k b score ds all.1 scored.1)

contains-without :
    (a b : ℕ) (xs : List ℕ) → contains b (without a xs) ≡ (if a == b then false else contains b xs)
unfolding contains without
contains-without a b [] = ground arith
contains-without a b (x ∷ xs) = ground (arith, contains-without a b xs)

-- The candidates of a list of holders.
module _ (record_of : ℕ → ProofRecord) where
  abbrev pub score_of : ℕ → ℕ
  score_of a = (candidate_of a (record_of a)).priority_score

  abbrev candidates : List ℕ → List EvictionCandidate
  candidates holders = map (λ a. candidate_of a (record_of a)) holders

  candidates-IsScored : (holders : List ℕ) → IsScored score_of (candidates holders)
  unfolding candidate_of
  candidates-IsScored [] = tt
  candidates-IsScored (a ∷ as_) = (refl, candidates-IsScored as_)

  has_account-candidates :
      (b : ℕ) (holders : List ℕ) → has_account b (candidates holders) ≡ contains b holders
  unfolding candidate_of contains
  has_account-candidates b [] = refl
  has_account-candidates b (a ∷ as_) = ground (arith, has_account-candidates b as_)

  -- The first candidate is a holder, and no holder has a lower score.
  first_account_lowest :
      (holders : List ℕ) (a : ℕ)
      → first_account (sort_by_score (candidates holders)) ≡ some a
      → (contains a holders ≡ true)
        × ((b : ℕ) → contains b holders ≡ true → score_of a ≤ score_of b)
  first_account_lowest holders a e =
      go (sort_by_score (candidates holders)) e (sort_by_score-IsSorted (candidates holders))
        (sort_by_score-IsScored score_of (candidates holders) (candidates-IsScored holders))
        (λ b. has_account-sort_by_score b (candidates holders) ∙ has_account-candidates b holders)
    where
      go :
          (ds : List EvictionCandidate)
          → first_account ds ≡ some a
          → IsSorted ds
          → IsScored score_of ds
          → ((b : ℕ) → has_account b ds ≡ contains b holders)
          → (contains a holders ≡ true)
            × ((b : ℕ) → contains b holders ≡ true → score_of a ≤ score_of b)
      go [] f sorted scored same = cc
      go (d ∷ ds) f sorted scored same = (
        ground (arith, same a),
        λ b h. ground (arith, same b, AllFrom-le d.priority_score b score_of ds sorted.0 scored.1),
      )

module _ {Bonds Tokens : Type 0} where
  -- What an eviction has done to the fragment `f`, with the account that it has chosen.
  pub record Evicts (h a : ℕ) (f : KzgFragment) (s t : State Bonds Tokens) : Type 0 where
    pub was_holder : contains a f.holders ≡ true
    pub lowest :
        (b : ℕ)
        → contains b f.holders ≡ true
        → score_of (s.proof_records h) a ≤ score_of (s.proof_records h) b
    pub excess : f.fragment_count < length f.holders % 256
    pub stored : t.kzg_fragments h ≡ some (record f { holders = without a f.holders })
    pub removed :
        (b : ℕ)
        → contains b (without a f.holders) ≡ (if a == b then false else contains b f.holders)
    pub forgotten : t.proof_records h a ≡ no_record

  -- An eviction that succeeds takes out exactly one account, a holder with the lowest priority score,
  -- together with its proof record, and only when there are more holders than fragments (the number
  -- of holders counted modulo 256).
  pub evict_stale_holder-Evicts :
      (h : ℕ) (s : State Bonds Tokens) {t : State Bonds Tokens}
      → evict_stale_holder h s ≡ ok t
      → (f : KzgFragment) × (a : ℕ) × (s.kzg_fragments h ≡ some f) × Evicts h a f s t
  unfolding evict_stale_holder
  evict_stale_holder-Evicts h s {t} e = elim (Option-cases (s.kzg_fragments h)) [
    | inl none_there ↦ absurd (ground arith)
    | inr (f, there) ↦
        elim (Option-cases
          (first_account (sort_by_score (candidates (s.proof_records h) f.holders)))) [
            | inl nobody ↦ absurd (ground arith)
            | inr (a, first) ↦
                let (held, lowest) = first_account_lowest (s.proof_records h) f.holders a first in
                (
                  f,
                  a,
                  there,
                  record {
                    was_holder = held;
                    lowest = lowest;
                    excess = ground arith;
                    stored = ground arith;
                    removed = λ b. contains-without a b f.holders;
                    forgotten = ground arith;
                  },
                )
          ]
  ]
