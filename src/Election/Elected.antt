-- ===== src/Election/Elected.antt =====
-- Whom the rotation elects: authors of the window with registered keys.
use anarchy.Base.{
  ℕ, zero, suc, ◌≡◌, ◌≤◌, refl, sym, subst, ap, true, arith, Option, none, some, List, [], ◌∷◌, ltb,
  ◌==◌, length, inl, inr, Bool-cases, Option-cases, contains,
}
use anarchy.Election.{
  Config, State, bump, count_authors, ranks_before, insert_ranked, rank, select, new_set,
}
use anarchy.Election.Counts.{AllOf}

AllOf-bump :
    (P : ℕ → Type 0) (a : ℕ) (ps : List (ℕ × ℕ))
    → P a
    → AllOf (λ p. P p.0) ps
    → AllOf (λ p. P p.0) (bump a ps)
unfolding AllOf bump
AllOf-bump P a [] h all = (h, tt)
AllOf-bump P a (p ∷ ps) h (x, all) = elim (Bool-cases (a == p.0)) [
  | inl e ↦ rw e (x, all)
  | inr e ↦ elim (Bool-cases (ltb a p.0)) [
    | inl l ↦ rw (e, l) (h, (x, all))
    | inr l ↦ rw (e, l) (x, AllOf-bump P a ps h all)
  ]
]

AllOf-count_authors :
    (P : ℕ → Type 0) (xs : List ℕ) (ps : List (ℕ × ℕ))
    → AllOf P xs
    → AllOf (λ p. P p.0) ps
    → AllOf (λ p. P p.0) (count_authors xs ps)
unfolding AllOf count_authors
AllOf-count_authors P [] ps h all = all
AllOf-count_authors P (a ∷ xs) ps (x, h) all =
    AllOf-count_authors P xs (bump a ps) h (AllOf-bump P a ps x all)

AllOf-insert :
    (P : ℕ × ℕ → Type 0) (p : ℕ × ℕ) (ps : List (ℕ × ℕ))
    → P p
    → AllOf P ps
    → AllOf P (insert_ranked p ps)
unfolding AllOf insert_ranked
AllOf-insert P p [] h all = (h, tt)
AllOf-insert P p (q ∷ ps) h (x, all) = elim (Bool-cases (ranks_before q p)) [
  | inl e ↦ rw e (x, AllOf-insert P p ps h all)
  | inr e ↦ rw e (h, (x, all))
]

AllOf-rank : (P : ℕ × ℕ → Type 0) (ps : List (ℕ × ℕ)) → AllOf P ps → AllOf P (rank ps)
unfolding AllOf rank
AllOf-rank P [] all = tt
AllOf-rank P (p ∷ ps) (x, all) = AllOf-insert P p (rank ps) x (AllOf-rank P ps all)

-- Keys in a set: registered by an account with a property, of weight 1.
pub Elects : (P : ℕ → Type 0) (keys : ℕ → Option ℕ) → ℕ × ℕ → Type 0
Elects P keys e = (e.1 ≡ 1) × ((who : ℕ) × (keys who ≡ some e.0) × P who)

select-none :
    (k : ℕ) (keys : ℕ → Option ℕ) (p : ℕ × ℕ) (ps : List (ℕ × ℕ))
    → keys p.0 ≡ none
    → select (suc k) keys (p ∷ ps) ≡ select (suc k) keys ps
unfolding select
select-none k keys p ps e =
    ap (λ o. elim o [ none ↦ select (suc k) keys ps | some key ↦ (key, 1) ∷ select k keys ps ]) e

select-some :
    (k key : ℕ) (keys : ℕ → Option ℕ) (p : ℕ × ℕ) (ps : List (ℕ × ℕ))
    → keys p.0 ≡ some key
    → select (suc k) keys (p ∷ ps) ≡ (key, 1) ∷ select k keys ps
unfolding select
select-some k key keys p ps e =
    ap (λ o. elim o [ none ↦ select (suc k) keys ps | some key ↦ (key, 1) ∷ select k keys ps ]) e

select-Elects :
    (P : ℕ → Type 0) (k : ℕ) (keys : ℕ → Option ℕ) (ps : List (ℕ × ℕ))
    → AllOf (λ p. P p.0) ps
    → (length (select k keys ps) ≤ k) × AllOf (Elects P keys) (select k keys ps)
unfolding AllOf select Elects
select-Elects P k keys [] all = (omega arith, tt)
select-Elects P zero keys (p ∷ ps) all = (omega arith, tt)
select-Elects P (suc k) keys (p ∷ ps) (x, all) =
    let Good : List (ℕ × ℕ) → Type 0 = λ l. (length l ≤ suc k) × AllOf (Elects P keys) l in
    elim (Option-cases (keys p.0)) [
      | inl e ↦ subst Good (sym (select-none k keys p ps e)) (select-Elects P (suc k) keys ps all)
      | inr (key, e) ↦
          let rest = select-Elects P k keys ps all in
          subst Good (sym (select-some k key keys p ps e))
            (omega (arith, rest.0), ((refl, (p.0, e, x)), rest.1))
    ]

-- Every element of the end of a list is in the list.
own_blocks :
    (all xs : List ℕ)
    → ((who : ℕ) → contains who xs ≡ true → contains who all ≡ true)
    → AllOf (λ who. contains who all ≡ true) xs
unfolding AllOf contains
own_blocks all [] h = tt
own_blocks all (x ∷ xs) h =
    (h x (ground arith), own_blocks all xs (λ who e. h who (ground (arith, e))))

-- The new set has at most the number of authorities that is set, each with weight 1 and with a key
-- that an author of the window has registered.
pub new_set-Elects :
    {World : Type 0} (config : Config World) (s : State World)
    → (length (new_set config s) ≤ config.authority_count)
      × AllOf
          (Elects (λ who. contains who s.recent_authors ≡ true) s.authority_keys)
          (new_set config s)
unfolding new_set AllOf
new_set-Elects config s =
    let P : ℕ → Type 0 = λ who. contains who s.recent_authors ≡ true in
    let window = s.recent_authors in
    select-Elects P config.authority_count s.authority_keys (rank (count_authors window [])) (
      AllOf-rank (λ p. P p.0) (count_authors window [])
        (AllOf-count_authors P window [] (own_blocks window window (λ who e. e)) tt))
