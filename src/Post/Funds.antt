-- ===== src/Post/Funds.antt =====
-- Where the cost of a post goes.
use anarchy.Base.{ℕ, ◌+◌, ◌*◌, ◌%◌, ◌^◌, ◌≡◌, ◌≤◌, arith, some, u128_max, min, u32_max}
use native.Mathlib.Nat.{mul-le-mul_right, add-mul}
use anarchy.Base.Dispatch.{ok}
use anarchy.Post.Types.{Config, State}
use anarchy.Post.{Draft, create_post, total_cost, distributable, distribute}
use anarchy.Post.Undo.{created}

-- What the calls of other pallets do to an amount of money: everything in accounts and in pools. The
-- burn takes its amount away, a deposit adds at most its amount, and the others do not touch it;
-- `mul_floor` rounds the share down.
pub record IsAccounted {World : Type 0} (config : Config World) (wealth : World → ℕ) : Type 0 where
  pub burn_from-wealth :
      (who cost : ℕ) (w w' : World)
      → config.burn_from who cost w ≡ some w'
      → wealth w' + cost ≡ wealth w
  pub reward_pool-wealth :
      (a : ℕ) (w : World) → wealth (config.do_deposit_to_reward_pool a w) ≤ wealth w + a
  pub reaction_pool-wealth :
      (a : ℕ) (w : World) → wealth (config.do_deposit_to_reaction_pool a w) ≤ wealth w + a
  pub record_gas-wealth : (b : ℕ) (w : World) → wealth (config.record_gas b w) ≡ wealth w
  pub register-wealth :
      (id size who at : ℕ) (w w' : World)
      → config.do_register_fragment id size who at w ≡ some w'
      → wealth w' ≡ wealth w
  pub on_post_created-wealth :
      (id : ℕ) (w : World) → wealth (config.on_post_created id w) ≡ wealth w
  pub mul_floor-floor : (p x : ℕ) → config.mul_floor p x * 1_000_000 ≤ p * x

-- Two shares of at most the whole.
two_shares : (p q x : ℕ) → p + q ≤ 1_000_000 → p * x + q * x ≤ 1_000_000 * x
two_shares p q x h = omega (arith, mul-le-mul_right x h, add-mul p q x)

module _ {World : Type 0} (config : Config World) (wealth : World → ℕ)
    (laws : IsAccounted config wealth) where
  shares-le :
      (x : ℕ)
      → config.storage_share_permill + config.reaction_share_permill ≤ 1_000_000
      → config.mul_floor config.storage_share_permill x
          + config.mul_floor config.reaction_share_permill x
        ≤ x
  shares-le x h = omega (
    arith,
    two_shares config.storage_share_permill config.reaction_share_permill x h,
    laws.mul_floor-floor config.storage_share_permill x,
    laws.mul_floor-floor config.reaction_share_permill x,
  )

  distribute-wealth :
      (size : ℕ) (w : World)
      → config.storage_share_permill + config.reaction_share_permill ≤ 1_000_000
      → wealth (distribute config size w) ≤ wealth w + distributable config size
  unfolding distribute
  distribute-wealth size w h =
      let x = distributable config size in
      let storage = config.mul_floor config.storage_share_permill x in
      let reaction = config.mul_floor config.reaction_share_permill x in
      let filled = config.do_deposit_to_reward_pool storage w in
      omega (
        arith,
        shares-le x h,
        laws.reward_pool-wealth storage w,
        laws.reaction_pool-wealth reaction filled,
        laws.record_gas-wealth (size % 2 ^ 32) (config.do_deposit_to_reaction_pool reaction filled),
      )

  -- When the shares of the two pools are at most the whole: the creation of a post makes no money.
  -- All accounts and pools together lose at least the base fee for the bytes, as long as the cost
  -- fits into u128.
  pub create_post-wealth :
      (who : ℕ) (d : Draft) (s t : State World)
      → config.storage_share_permill + config.reaction_share_permill ≤ 1_000_000
      → config.post_base_cost
          + d.total_size * config.post_byte_cost
          + d.total_size * config.current_base_fee s.world
        ≤ u128_max
      → create_post config who d s ≡ ok t
      → wealth t.world + d.total_size * config.current_base_fee s.world ≤ wealth s.world
  unfolding total_cost distributable
  create_post-wealth who d s t h fits accepted =
      let c = created config who d s t accepted in
      rw c.result (
        omega (
          arith,
          fits,
          laws.burn_from-wealth who (total_cost config d.total_size s.world) s.world c.burnt
              c.burns,
          distribute-wealth d.total_size c.burnt h,
          laws.register-wealth d.merkle_root (min d.total_size u32_max) who s.block_number
              (distribute config d.total_size c.burnt) c.registered c.registers,
          laws.on_post_created-wealth s.next_post_id c.registered,
        ))
