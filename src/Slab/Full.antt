-- ===== src/Slab/Full.antt =====
-- What `Slab::insert` and `Slab::vacant_entry` (src/lib.rs) do where no slot is free.
use sharded_slab.Base.{ℕ, ◌≡◌, refl, [], none}
use sharded_slab.Config.{Config}
use sharded_slab.Slot.Memory.{returns}
use sharded_slab.Slot.Story.{option_clear}
use sharded_slab.Shard.Full.{NoRoom, array_left, init_shard-NoRoom}
use sharded_slab.Slab.{Slab, insert_init, slab_insert, vacant_init, vacant_entry}

-- Where every page of the thread's shard is exhausted, `insert` and `vacant_entry` answer `None`.
-- They leave every slot and every local list of the shard as it was.
pub slab_insert-NoRoom :
    {T : Type 0} {c : Config} (me : ℕ) (slab : Slab T) (value : T) (full : NoRoom c me slab)
    → (slab_insert c me value (λ page. []) [] slab ≡ returns (none, array_left full))
      × (vacant_entry c me (λ page. []) [] slab ≡ returns (none, array_left full))
unfolding slab_insert vacant_entry
slab_insert-NoRoom {T} {c} me slab value full = (
  rw (slab_insert, full.found_shard, init_shard-NoRoom full option_clear (insert_init c value))
      refl,
  rw (vacant_entry, full.found_shard, init_shard-NoRoom full option_clear (vacant_init c me)) refl,
)
