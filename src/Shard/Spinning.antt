-- ===== src/Shard/Spinning.antt =====
-- Functions of src/shard.rs on a slot that they wait for.
use sharded_slab.Base.{ℕ, ◌≡◌, refl, Bool, true, false, []}
use sharded_slab.Config.{Config}
use sharded_slab.Key.{unpack_gen}
use sharded_slab.Slot.Memory.{World, Outcome, spins}
use sharded_slab.Slot.Ops.{FreeList}
use sharded_slab.Slot.Quiet.{quiet}
use sharded_slab.Stack.{TransferStack, local_list, remote_list}
use sharded_slab.Page.Ops.{on_slot}
use sharded_slab.Shard.{on_local, on_remote}
use sharded_slab.Shard.Array.{Array, get_shard, on_shard}
use sharded_slab.Shard.Located.{Located, offset}
use sharded_slab.Shard.Threads.{either_thread}

module _ {T A : Type 0} {c : Config} {idx key : ℕ} {array : Array T} (z : Located c idx key array)
    (missing : A)
    (op : (F : Type 0) → FreeList T F → ℕ → ℕ → F → World T → Outcome (A × F × World T))
    (e : (F : Type 0) (fl : FreeList T F) (free : F)
      → op F fl (unpack_gen c key) (offset z) free (quiet z.slot) ≡ spins) where
  on_slot-spins :
      (F : Type 0) (fl : FreeList T F) (free : F)
      → on_slot c missing (op F fl (unpack_gen c key)) z.addr [] free z.page ≡ spins
  unfolding on_slot
  on_slot-spins F fl free = rw (on_slot, z.allocated, z.found, e F fl free) refl

  either-spins : (own : Bool) → either_thread c key missing op own z.shard ≡ spins
  unfolding on_local on_remote
  either-spins true =
      rw (on_local, z.split, z.paged)
        (rw (z.split, z.listed) (rw (z.split, on_slot-spins ℕ local_list z.local) refl))
  either-spins false =
      rw (on_remote, z.split, z.paged)
        (rw (z.split, on_slot-spins TransferStack remote_list z.page.remote) refl)

  pub on_shard-spins :
      (own : Bool) → on_shard missing (either_thread c key missing op own) idx array ≡ spins
  unfolding on_shard get_shard
  on_shard-spins own = rw (on_shard, get_shard, z.held, either-spins own) refl
