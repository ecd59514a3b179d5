-- ===== src/Stack.antt =====
-- src/page/stack.rs: `TransferStack`, the free list that other threads push on, and `Local` of
-- src/page/mod.rs, the one of the shard's own thread.
pub mod Laws
pub mod Concurrent
use sharded_slab.Base.{ℕ, List, [], ◌∷◌, Option, none, some, ◌==◌, if◌then◌else◌}
use sharded_slab.Config.{Config, null_addr}
use sharded_slab.Slot.Memory.{Slot}
use sharded_slab.Slot.Ops.{FreeList}

-- The head as one thread sees it: `others` lists what the other threads do to it before each of the
-- thread's next accesses.
pub record TransferStack : Type 0 where
  pub head : ℕ
  pub others : List (ℕ → ℕ)

-- `TransferStack::new`
unfoldable pub new : Config → TransferStack
unfolding null_addr
new c = record { head = null_addr c; others = [] }

unfoldable pub load_head : TransferStack → TransferStack
load_head st = go st.others st.head
  where
    go : List (ℕ → ℕ) → ℕ → TransferStack
    go [] head = record { head = head; others = [] }
    go (f ∷ fs) head = record { head = f head; others = fs }

-- `pop_all`: the swap is one access.
unfoldable pub pop_all : Config → TransferStack → Option ℕ × TransferStack
unfolding null_addr load_head
pop_all c st =
    let st' = load_head st in
    (if st'.head == null_addr c then none else some st'.head, record st' { head = null_addr c })

-- The slot's `set_next`.
abbrev pub set_next : {T : Type 0} → ℕ → Slot T → Slot T
set_next n slot = record slot { next = n }

-- The loop of `push` with `slot.set_next(next)` for `before(next)`, from a head that has just been
-- read. A failed exchange reads it again.
unfoldable pub push_loop : {T : Type 0} → ℕ → List (ℕ → ℕ) → ℕ → Slot T → Slot T × TransferStack
push_loop new_head [] next slot = (set_next next slot, record { head = new_head; others = [] })
push_loop new_head (f ∷ fs) next slot =
    let retry = push_loop new_head fs (f next) (set_next next slot) in
    if f next == next then (set_next next slot, record { head = new_head; others = fs }) else retry

-- `FreeList::push` for `TransferStack`
unfoldable pub push : {T : Type 0} → ℕ → Slot T → TransferStack → Slot T × TransferStack
unfolding push_loop load_head
push new_head slot st = let st' = load_head st in push_loop new_head st'.others st'.head slot

abbrev pub remote_list : {T : Type 0} → FreeList T TransferStack
remote_list = record { push = push }

-- `FreeList::push` for `Local`, whose one field is its head.
abbrev pub push_local : {T : Type 0} → ℕ → Slot T → ℕ → Slot T × ℕ
push_local new_head slot head = (set_next head slot, new_head)

abbrev pub local_list : {T : Type 0} → FreeList T ℕ
local_list = record { push = push_local }
