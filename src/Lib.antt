-- ===== src/Lib.antt =====
-- A model of sharded-slab, a concurrent slab of values in pre-allocated storage, and proofs about
-- it.
--
-- A slab has a shard per thread; a shard has pages, each twice as large as the one before; a page
-- has slots. A value's key packs the address of its slot within the shard, the thread and the
-- generation of the slot. A thread puts values in its own shard only, and any thread accesses and
-- removes values in any shard. The word `lifecycle` of a slot packs its state, the number of guards
-- that refer to it and its generation, and every operation on a slot is a loop of compare-exchanges
-- on this word. Freed slots go on one of two free lists of their page: the local one of the page's
-- own thread, or the remote one, a stack that other threads push on.
--
-- The files, with the code that they model:
--   Word, Pack: `Pack` (src/lib.rs), at every width of word and field.
--   Config: src/cfg.rs. `Config` is an implementation of the trait, with the pointer width.
--     `IsConfig` says that the constants evaluate without overflow, which the compiler sees to, and
--     that `validate` passes.
--   Key: `unpack_addr`, `unpack_tid` and `unpack_gen` (src/cfg.rs), the packing of a key in
--     `Slab::insert` and `Slab::vacant_entry` (src/lib.rs), `Addr::index` (src/page/mod.rs) and the
--     sizes of the pages in `Shard::new` (src/shard.rs).
--   Lifecycle: `State`, `Lifecycle`, `RefCount`, `Generation`, `LifecycleGen` (src/page/slot.rs).
--     `Life` in Lifecycle/Encode is what a word stands for.
--   Slot: src/page/slot.rs. Memory has the state and the loop that the operations share, Attempts
--     the body of each loop, Ops the operations. The other modules are proofs: Spec on one round,
--     Loop and Access on whole loops (a `Moment` of Base is what some of the others' changes have
--     made of the slot, with the rest still to come), Rounds, Removal and Waiting on
--     `release_with`, Quiet, Clearing, Insert, Story, Lives and Generations on operations that no
--     thread interferes with, and Exchanges and Interleaved on the exchanges of several threads in
--     any order.
--   Stack: `TransferStack` (src/page/stack.rs) and `Local` (src/page/mod.rs). Concurrent has the
--     steps of `push` and `pop_all` of several threads.
--   Page: `Shared` (src/page/mod.rs). Chain, Free, Alloc, Fresh, Front and Removal are about its
--     two free lists, Held about a page as a map of its slots in use.
--   Shard: src/shard.rs. Shard/Array is its `Array`, Shard/Highest is about `Array::current`.
--     Located is the slot that a key stands for, Room a shard with a free slot, First a shard that
--     is yet to be made, Full one with no free slot, Refused a key that finds no slot, Threads the
--     calls that differ by the thread, Spinning one that waits. Guards has the drop of the guards
--     of src/lib.rs and src/pool.rs.
--   Slab: `Slab`, `Entry` and `VacantEntry` (src/lib.rs); Slab/Calls is about its calls on one
--     slot, PageMap about a page as a map under `insert` and `take`; First, Trip, Taken, Vacant,
--     Reused, Removed, Refused and Full are about calls one after another. Valid says when a whole
--     slab is well-formed, and History is about any calls of any threads, with the entries that are
--     alive: `Reachable` has the calls as steps, each of which ends before the next begins. It leaves
--     out `vacant_entry`, whose slot is on no list until the entry is inserted, and the iterator.
--     `coming` in History tells the keys of the generation in which a free slot will be handed out
--     next, which a slot that `take` has emptied would accept.
--   Pool: src/pool.rs. Calls and Guarded are about its calls and guards on one slot, Created, Trip,
--     Cleared, Exclusive, Owned, Refused and Full about calls one after another.
--   Iter: src/iter.rs, with `IterMut` (src/shard.rs) and `Slab::unique_iter` (src/lib.rs).
--   Tid: src/tid.rs. System has the steps of several threads, Ids and Unique are about their ids.
--   Tests: concrete configurations, slots and pages.
--
-- What other threads do is a list of functions, in the field or argument `others`: the first is
-- applied to the slot, or to the head of the stack, before the next atomic access, and so on, and
-- when the list is used up the others are done. A theorem says which changes it allows. The atomics
-- are taken as sequentially consistent. A call ends as an `Outcome`: it returns, panics, or `spins`,
-- that is, does not leave a loop within the fuel.
--
-- Only the loop of `release_with` needs fuel: it waits for references to be dropped. It has one
-- round for each change by another thread and two more: a failed exchange uses up a change, and once
-- they are used up one round reads the slot's word and the next exchanges it. Every other loop ends
-- with the list of the others' changes.
--
-- The model is of a release build: the `debug_assert`s are left out, and arithmetic on `usize` wraps
-- around. Output, backing off and memory orderings are not modelled. Traits of the item type
-- (`Clear`, `Default`) and free lists are records of functions. `me`, where a function takes it, is
-- the id that the registry has given to the calling thread.
--
-- A guard is a pointer to a slot. The model names the slot by the index of its shard and the key of
-- the guard, and finds it there when the guard is used or dropped.
--
-- Not modelled are the memory that the drop of a shard frees; src/sync.rs, which chooses the
-- implementations of the atomics; src/macros.rs, which prints and panics (`panic_in_drop!` does not
-- panic on a thread that is unwinding, which `next_id` in Tid writes out); the implementations of
-- `Clear` for the collections of the standard library (src/clear.rs), which call its functions; and
-- the formatting and comparison of the guards.
pub mod Base
pub mod Word
pub mod Pack
pub mod Config
pub mod Key
pub mod Lifecycle
pub mod Slot
pub mod Stack
pub mod Page
pub mod Shard
pub mod Slab
pub mod Pool
pub mod Iter
pub mod Tid
pub mod Tests
