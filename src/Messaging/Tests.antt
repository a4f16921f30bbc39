-- ===== src/Messaging/Tests.antt =====
-- The theorems on messages at a chain whose other pallets are one amount of money.
use anarchy.Base.{
  ℕ, ◌+◌, ◌-◌, ◌*◌, ◌/◌, ◌≡◌, ◌⊎◌, refl, arith, none, some, List, [], ◌∷◌, if◌then◌else◌, ltb,
  none-some, contains,
}
use anarchy.Base.Dispatch.{ok, err, commit}
use anarchy.Messaging.{
  Config, State, Message, Error, send_dm, message_cost, checked_add, checked_mul,
}
use anarchy.Messaging.Sent.{Reason, Sends, send_dm-Sends}
use anarchy.Messaging.Run.{Call, run, publish_call, revoke_call, send_call, next_block}
use anarchy.Messaging.Unique.{IsUnique, occurrences, run-IsUnique}
use anarchy.Messaging.Funds.{IsAccounted}

abbrev config : Config ℕ
config = record {
  max_dispatches_per_block = 2;
  dm_base_cost = 1_000;
  dm_byte_cost = 8;
  max_dm_ciphertext_len = 262_144;
  storage_share_permill = 500_000;
  stealth_share_permill = 200_000;
  mul_floor = λ parts x. parts * x / 1_000_000;
  current_base_fee = λ money. 3;
  record_gas = λ bytes money. money;
  burn_from = λ who amount money. if ltb money amount then none else some (money - amount);
  do_deposit_to_reward_pool = λ amount money. money + amount;
  do_deposit_to_stealth_reward_pool = λ amount money. money + amount;
  record_recipient_receive = λ key money. money;
}

abbrev start : State ℕ
start = record {
  dm_reception_keys = λ who. none;
  dm_dispatches_by_block = λ block. [];
  next_message_id = 0;
  dm_messages_by_root = λ root. none;
  block_number = 5;
  world = 1_000_000;
  events = [];
}

abbrev message : Message
message = record {
  recipient_stealth = 9;
  ephemeral_pubkey = 31;
  merkle_root = 77;
  k = 2;
  n = 3;
  ciphertext_len = 1_024;
}

abbrev after : State ℕ
after = commit start (send_dm config 4 message start)

sent : send_dm config 4 message start ≡ ok after
unfolding send_dm message_cost contains checked_add checked_mul
sent = refl

-- The cost is 1_000 + 1_024 * 8 + 1_024 * 3; half and a fifth of the first two go to the pools.
cost : after.world ≡ 1_000_000 - 12_264 + 4_596 + 1_838
unfolding send_dm message_cost contains checked_add checked_mul
cost = refl

start-IsUnique : IsUnique config start
unfolding occurrences
start-IsUnique = record {
  bounded = λ b. omega arith;
  indexed = λ root b h. refl;
  once = λ root b. omega arith;
  one_block = λ root b c h k. absurd (omega (arith, h));
  numbered = λ root id h. absurd (none-some h);
  distinct = λ root other id h k. absurd (none-some h);
}

-- The second message has the root of the first one.
abbrev calls : List (Call ℕ)
calls =
    publish_call 9 (record { scan_pub = 5; spend_pub = 6 })
    ∷ send_call 4 message
    ∷ next_block
    ∷ send_call 5 message
    ∷ revoke_call 9
    ∷ []

send_dm-Sends_example :
    ((e : Error) × (send_dm config 4 message start ≡ err e) × Reason config 4 message start e)
    ⊎ ((t : State ℕ) × (send_dm config 4 message start ≡ ok t) × Sends config 4 message start t)
send_dm-Sends_example = send_dm-Sends config 4 message start

run-IsUnique_example : IsUnique config (run config calls start)
run-IsUnique_example = run-IsUnique config calls start start-IsUnique

config-IsAccounted : IsAccounted config (λ money. money)
config-IsAccounted = record {
  burn_from-wealth = λ who cost w w' h. ground arith;
  reward_pool-wealth = λ a w. omega arith;
  stealth_pool-wealth = λ a w. omega arith;
  receive-wealth = λ key w. refl;
  record_gas-wealth = λ b w. refl;
  mul_floor-floor = λ p x. grind arith;
}
