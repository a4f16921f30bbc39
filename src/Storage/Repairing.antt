-- ===== src/Storage/Repairing.antt =====
-- What a confirmed repair has checked and written, and the state of a fragment after it.
use anarchy.Base.{
  ℕ, ◌+◌, ◌<◌, ◌≡◌, true, false, some, List, [], ◌∷◌, ◌++◌, arith, ltb, if◌then◌else◌, contains,
  length, length-append, min, u128_max, Option-cases, inl, inr,
}
use anarchy.Base.Dispatch.{ok}
use anarchy.Storage.Types.{
  Env, State, KzgFragment, at_risk, FragmentStateKind, active, lost, repairing, kind_eq,
}
use anarchy.Storage.Repair.{
  confirm_repair, update_fragment_state, kind_of, kind_for, repaired_record,
}

kind_eq_sound : (j k : FragmentStateKind) → kind_eq j k ≡ true → j ≡ k
kind_eq_sound active k e = ground arith
kind_eq_sound at_risk k e = ground arith
kind_eq_sound repairing k e = ground arith
kind_eq_sound lost k e = ground arith

module _ {Bonds Tokens : Type 0} where
  -- After an update the stored state of a fragment is that of its number of holders: active from 5
  -- holders on, at risk with 3 or 4, lost below.
  pub update_fragment_state-kind :
      (h : ℕ) (s : State Bonds Tokens) (f : KzgFragment)
      → s.kzg_fragments h ≡ some f
      → kind_of ((update_fragment_state h s).fragment_states h) ≡ kind_for (length f.holders)
  unfolding update_fragment_state
  update_fragment_state-kind h s f e =
      ground (arith, kind_eq_sound (kind_for (length f.holders)) (kind_of (s.fragment_states h)), e)

module _ {Bonds Tokens : Type 0} (env : Env Bonds Tokens) where
  -- What a repair by the account `n` with the share `i` has done.
  pub record Repairs (n h i : ℕ) (value proof : List ℕ) (f : KzgFragment) (s t : State Bonds Tokens)
      : Type 0 where
    pub was_at_risk : kind_of (s.fragment_states h) ≡ at_risk
    pub verified : env.verify_kzg_proof f.commitment i value proof ≡ some true
    pub was_outside : contains n f.holders ≡ false
    pub room : length f.holders < 16
    pub added : t.kzg_fragments h ≡ some (record f { holders = f.holders ++ n ∷ [] })
    pub recorded : t.proof_records h n ≡ repaired_record s.block_number i
    pub paid : t.pending_rewards n ≡ (
        if ltb 0 (s.repair_reward_pools h)
        then min (s.pending_rewards n + s.repair_reward_pools h) u128_max
        else s.pending_rewards n)
    pub emptied : t.repair_reward_pools h ≡ 0
    pub kind : kind_of (t.fragment_states h) ≡ kind_for (length f.holders + 1)

  -- A repair that is confirmed had an at-risk fragment, a proof that verifies and an account that was
  -- no holder; it makes the account a holder with a fresh record, pays it the whole repair pool of
  -- the content, and sets the state of the fragment by its new number of holders.
  pub confirm_repair-Repairs :
      (n h i : ℕ) (value proof : List ℕ) (s : State Bonds Tokens) {t : State Bonds Tokens}
      → confirm_repair env n h i value proof s ≡ ok t
      → (f : KzgFragment) × (s.kzg_fragments h ≡ some f) × Repairs n h i value proof f s t
  unfolding confirm_repair update_fragment_state
  confirm_repair-Repairs n h i value proof s {t} e = elim (Option-cases (s.kzg_fragments h)) [
    | inl none_there ↦ absurd (ground arith)
    | inr (f, there) ↦ (
      f,
      there,
      record {
        was_at_risk = ground (arith, kind_eq_sound (kind_of (s.fragment_states h)) at_risk);
        verified = ground arith;
        was_outside = ground arith;
        room = ground arith;
        added = ground arith;
        recorded = ground arith;
        paid = ground arith;
        emptied = ground arith;
        kind = ground (
          arith,
          length-append f.holders (n ∷ []),
          kind_eq_sound (kind_for (length (f.holders ++ n ∷ []))) (kind_of (s.fragment_states h)),
        );
      },
    )
  ]
