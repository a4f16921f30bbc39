-- ===== src/Storage.antt =====
-- The storage pallet (apps/blockchain/pallets/storage/src): nodes, holdings, KZG fragments,
-- challenges, rewards, slashing and repair. The operations stand in the first children, what is
-- proved about them in the later ones.
pub mod Types
pub mod Pow
pub mod Work
pub mod Nodes
pub mod Holdings
pub mod Repair
pub mod Challenges
pub mod Release
pub mod Run
pub mod Holders
pub mod Frame
pub mod Lasting
pub mod Registrations
pub mod Registry
pub mod Occurrences
pub mod Agreement
pub mod Deadlines
pub mod Stale
pub mod Eviction
pub mod Repairing
pub mod Payouts
pub mod Erasure
pub mod Tests
