-- ===== src/Lib.antt =====
-- Anarchy: the economic core of the chain, modelled and verified.
--
-- Anarchy is a chain that stores posts as fragments on storage nodes. The parts that are modelled
-- are pallets of its runtime, under apps/blockchain/pallets, with the wiring of some of them in the
-- runtime, the check of a proof of work, and the padding of messages in the wasm engine. Storage
-- nodes lock a bond in the stake pallet; with it they register in the storage pallet, declare which
-- fragments they hold, are challenged to prove it, and are paid from a reward pool; a node that
-- fails three challenges in a row is slashed, which the stake pallet executes. The end of a block
-- fills the pool through the block reward pallet, and moves the fee per byte of the base fee
-- pallet. A post burns its cost and registers its fragment; reactions to it, each with a proof of
-- work, pay its author; a message between accounts is paid the same way as a post. The popularity
-- pallet scores posts and has those deleted whose score stays low. The faucet mints a first amount
-- for a proof of work, up to a cap. The recipients of messages share a pool of the stealth pallet,
-- and the most frequent recent authors of blocks become the finality authorities.
--
-- Which file models what:
--   Base         names and lemmas that all parts share: machine integers with their saturating
--                operations, bounded vectors, association lists, fallible calls, and the interface
--                of a reservable currency.
--   Rewards      storage/src/rewards.rs: `calculate_reward` to `calculate_reward_v3` and `sqrt_ppm`.
--   Stake        storage_stake/src/lib.rs: `bond`, `request_release`, `finalize_release` and
--                `do_slash_bond`; a state is the two storage items with the block number, the ledger
--                and the events.
--   Storage      storage/src/lib.rs, pow.rs and rate_limit.rs. Storage.Types has the storage items,
--                events and errors; Storage.Nodes, Holdings, Challenges, Repair and Release have
--                the calls and the hook `on_finalize`, each under the name of its function;
--                Storage.Run has all of them as steps, with the end of a block and with changes by
--                other pallets, so that an invariant holds along any sequence of them.
--   BaseFee      base_fee/src/lib.rs: `on_finalize`, `record_gas` and the genesis.
--   BlockReward  block_reward/src/lib.rs: `current_reward` and `on_finalize`.
--   Decay        popularity/src/decay.rs: `apply`.
--   Popularity   popularity/src/lib.rs: `on_post_created`, `on_reaction` and the two passes of
--                `on_finalize`; the post and storage pallets and the order of iteration over a
--                storage map are parameters.
--   ProofOfWork  primitives/pow/src/lib.rs: `compute_challenge` and `verify_proof`.
--   Reaction     reaction/src/lib.rs: `react`, `lock_for_rewards`, `unlock_reactor`, `compute_reward`,
--                `adjust_difficulty`, `on_finalize` and the interface for the post pallet. Settle
--                and Accepted say what a reaction does; Once, Budget, Locks, Formula and
--                Difficulty are named for what they prove.
--   Post         post/src/lib.rs: `create_post` and `delete_post`; the other pallets are parameters.
--   Chain        The post pallet on the storage, reaction and base fee pallets, and the popularity
--                pallet on the posts, as apps/blockchain/runtime/src/lib.rs connects them.
--   Padding      packages/wasm-engine/src/dm/padding.rs: the sizes of messages and their padding.
--   EconomicParams
--                economic_params/src/lib.rs: the calls of governance and the values in effect.
--   Faucet       faucet/src/lib.rs: `claim`, its validation and the difficulty of its proof of work.
--   Messaging    messaging/src/lib.rs and types.rs: `publish_dm_key`, `revoke_dm_key` and `send_dm`.
--   Stealth      stealth/src/lib.rs: `send_to_stealth`, `claim_stealth_reward` and the interface for the
--                messaging pallet. Claimed says what a claim does, Covered what all of them do.
--   Election     grandpa_authority_election/src/lib.rs: the two calls, `on_finalize` and `rotate`; the
--                framework's pallet that the set is handed to is a parameter.
--   Difficulty   difficulty/src/lib.rs and lwma.rs: `adjust` and `lwma3_next_difficulty`.
--
-- How the code is read:
--   A call takes the state to a new state or an error; an error leaves the state as it was, which is
--   what a transactional call does. A `ValueQuery` map is a total function and an `OptionQuery` map a
--   function into options. Accounts, hashes and block numbers are numbers. Unsigned integers are
--   natural numbers with the saturation or the cast of the source written out; block numbers are u32
--   and balances u128.
--   The arguments of a call are those that decode: the lengths of bounded vectors, such as the URL of a
--   node, are checked before the call is dispatched. A panic is `none` where the code can reach it, as
--   in `sqrt_ppm` at the largest u128.
--   The loop of `sqrt_ppm` is recursion on the order of its bound, without fuel; that of the decay has
--   33 rounds of fuel, one for each bit of its exponent and one for the last test of its condition.
--   The loops over lists and over the observation period are structural.
--   Parameters, since their code is not in the repository: the currency and the token, the hash
--   `blake2_256`, `mul_floor` of a permill, and the author of a block. The pairing check of a KZG proof
--   is a parameter too: it is a few calls of a curve library.
--
-- Not modelled: weights, benchmarks, RPC queries, the signature of a transaction (a call is given
-- its signer), the nickname pallet, the node, the storage daemon, the rest of the wasm engine and
-- the frontend.
pub mod Base
pub mod BaseFee
pub mod BlockReward
pub mod Chain
pub mod Decay
pub mod EconomicParams
pub mod Difficulty
pub mod Election
pub mod Faucet
pub mod Messaging
pub mod Stealth
pub mod Padding
pub mod Popularity
pub mod Post
pub mod ProofOfWork
pub mod Reaction
pub mod Rewards
pub mod Stake
pub mod Storage
