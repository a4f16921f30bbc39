-- ===== src/Storage/Deadlines.antt =====
-- Expiry of challenges at the end of a block, and the slashing that follows.
use anarchy.Base.{
  ℕ, ◌+◌, ◌/◌, ◌≡◌, refl, Bool, true, false, ◌&&◌, ◌||◌, none, List, [], ◌∷◌, arith, ◌==◌, leb,
  if◌then◌else◌, min, u32_max, u128_max, Option-cases, inl, inr,
}
use anarchy.Base.Dispatch.{ok, err}
use anarchy.Storage.Types.{Env, State, Challenge, already_slashed}
use anarchy.Storage.Repair.{do_slash_node}
use anarchy.Storage.Challenges.{on_finalize, expire_all, expire_one, expire_challenge, clear_block}

-- Whether an entry of the index is there.
abbrev pub is_due : ℕ → ℕ → List (ℕ × ℕ) → Bool
is_due h i [] = false
is_due h i ((g, j) ∷ es) = (g == h && j == i) || is_due h i es

module _ {Bonds Tokens : Type 0} (env : Env Bonds Tokens) where
  -- A node is slashed for a content once: the call marks the record, halves the pending reward and
  -- puts what it takes into the repair pool of the content (up to the largest u128), and a second
  -- call is refused.
  pub do_slash_node_once :
      (n h : ℕ) (s : State Bonds Tokens) {t : State Bonds Tokens}
      → do_slash_node env n h s ≡ ok t
      → ((t.proof_records h n).slashed ≡ true)
        × (t.pending_rewards n + s.pending_rewards n / 2 ≡ s.pending_rewards n)
        × (t.repair_reward_pools h
            ≡ min (s.repair_reward_pools h + s.pending_rewards n / 2) u128_max)
        × (do_slash_node env n h t ≡ err already_slashed)
  unfolding do_slash_node
  do_slash_node_once n h s e = (ground arith, ground arith, ground arith, ground arith)

  -- An expired challenge is removed and counted as a failure; the node is slashed for the content
  -- exactly when this is at least its third failure in a row, or when it was slashed before.
  pub expire_challenge_strikes :
      (h i : ℕ) (c : Challenge) (s : State Bonds Tokens)
      → let r = s.proof_records h c.challenged_node in
        let t = expire_challenge env h i c s in
        (t.pending_challenges h i ≡ none)
        × ((t.proof_records h c.challenged_node).failure_count ≡ min (r.failure_count + 1) u32_max)
        × ((t.proof_records h c.challenged_node).slashed ≡ (r.slashed || leb 2 r.failure_count))
  unfolding expire_challenge do_slash_node
  expire_challenge_strikes h i c s = (ground arith, ground arith, ground arith)

  expire_one-pending :
      (e : ℕ × ℕ) (h i : ℕ) (s : State Bonds Tokens)
      → (expire_one env e s).pending_challenges h i
        ≡ (if e.0 == h && e.1 == i then none else s.pending_challenges h i)
  unfolding expire_one expire_challenge do_slash_node
  expire_one-pending (g, j) h i s = elim (Option-cases (s.pending_challenges g j)) [
    | inl e ↦ ground (arith, e)
    | inr (c, e) ↦ ground (arith, e)
  ]

  expire_all-pending :
      (es : List (ℕ × ℕ)) (h i : ℕ) (s : State Bonds Tokens)
      → (expire_all env es s).pending_challenges h i
        ≡ (if is_due h i es then none else s.pending_challenges h i)
  unfolding expire_all
  expire_all-pending [] h i s = refl
  expire_all-pending ((g, j) ∷ es) h i s =
      ground (
        arith,
        expire_all-pending es h i (expire_one env (g, j) s),
        expire_one-pending (g, j) h i s,
      )

  -- The end of a block removes the pending challenges that the index lists for that block, whatever
  -- deadline they carry, and no others.
  pub on_finalize-pending :
      (h i : ℕ) (s : State Bonds Tokens)
      → (on_finalize env s).pending_challenges h i ≡ (
          if is_due h i (s.challenges_by_deadline s.block_number)
          then none
          else s.pending_challenges h i)
  unfolding on_finalize
  on_finalize-pending h i s =
      expire_all-pending (s.challenges_by_deadline s.block_number) h i (clear_block env s)
