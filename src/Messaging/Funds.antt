-- ===== src/Messaging/Funds.antt =====
-- Where the cost of a message goes.
use anarchy.Base.{ℕ, ◌+◌, ◌*◌, ◌%◌, ◌^◌, ◌≡◌, ◌≤◌, arith, some}
use native.Mathlib.Nat.{mul-le-mul_right, add-mul}
use anarchy.Base.Dispatch.{ok}
use anarchy.Messaging.{Config, State, Message, send_dm, distribute}
use anarchy.Messaging.Sent.{sent, shared_cost, full_cost}

-- What the calls of other pallets do to an amount of money: everything in accounts and in pools. The
-- burn takes its amount away, a deposit adds at most its amount, and the others do not touch it;
-- `mul_floor` rounds the share down.
pub record IsAccounted {World : Type 0} (config : Config World) (wealth : World → ℕ) : Type 0 where
  pub burn_from-wealth :
      (who cost : ℕ) (w w' : World)
      → config.burn_from who cost w ≡ some w'
      → wealth w' + cost ≡ wealth w
  pub reward_pool-wealth :
      (a : ℕ) (w : World) → wealth (config.do_deposit_to_reward_pool a w) ≤ wealth w + a
  pub stealth_pool-wealth :
      (a : ℕ) (w : World) → wealth (config.do_deposit_to_stealth_reward_pool a w) ≤ wealth w + a
  pub receive-wealth :
      (key : ℕ) (w : World) → wealth (config.record_recipient_receive key w) ≡ wealth w
  pub record_gas-wealth : (b : ℕ) (w : World) → wealth (config.record_gas b w) ≡ wealth w
  pub mul_floor-floor : (p x : ℕ) → config.mul_floor p x * 1_000_000 ≤ p * x

module _ {World : Type 0} (config : Config World) (wealth : World → ℕ)
    (laws : IsAccounted config wealth) where
  distribute-wealth :
      (shared : ℕ) (m : Message) (w : World)
      → config.storage_share_permill + config.stealth_share_permill ≤ 1_000_000
      → wealth (distribute config shared m w) ≤ wealth w + shared
  unfolding distribute
  distribute-wealth shared m w h =
      let storage = config.mul_floor config.storage_share_permill shared in
      let stealth = config.mul_floor config.stealth_share_permill shared in
      let filled = config.do_deposit_to_reward_pool storage w in
      let paid = config.do_deposit_to_stealth_reward_pool stealth filled in
      omega (
        arith,
        mul-le-mul_right shared h,
        add-mul config.storage_share_permill config.stealth_share_permill shared,
        laws.mul_floor-floor config.storage_share_permill shared,
        laws.mul_floor-floor config.stealth_share_permill shared,
        laws.reward_pool-wealth storage w,
        laws.stealth_pool-wealth stealth filled,
        laws.receive-wealth m.ephemeral_pubkey paid,
        laws.record_gas-wealth (m.ciphertext_len % 2 ^ 32)
            (config.record_recipient_receive m.ephemeral_pubkey paid),
      )

  -- When the shares of the two pools are at most the whole: a message that is sent makes no money. All
  -- accounts and pools together lose at least the base fee for its bytes.
  pub send_dm-wealth :
      (who : ℕ) (m : Message) (s t : State World)
      → config.storage_share_permill + config.stealth_share_permill ≤ 1_000_000
      → send_dm config who m s ≡ ok t
      → wealth t.world + m.ciphertext_len * config.current_base_fee s.world ≤ wealth s.world
  send_dm-wealth who m s t h accepted =
      let c = sent config who m s t accepted in
      rw c.result (
        omega (
          arith,
          laws.burn_from-wealth who (full_cost config m s.world) s.world c.burnt c.burns,
          distribute-wealth (shared_cost config m) m c.burnt h,
        ))
