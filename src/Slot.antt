-- ===== src/Slot.antt =====
-- src/page/slot.rs: a slot, its lifecycle, and the operations on it, each atomic access apart.
pub mod Memory
pub mod Attempts
pub mod Ops
pub mod Spec
pub mod Loop
pub mod Access
pub mod Rounds
pub mod Removal
pub mod Waiting
pub mod Spinning
pub mod Quiet
pub mod Clearing
pub mod Insert
pub mod Story
pub mod Lives
pub mod Generations
pub mod Exchanges
pub mod Interleaved
