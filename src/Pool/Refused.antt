-- ===== src/Pool/Refused.antt =====
-- What `Pool` (src/pool.rs) answers to a key that it does not hold.
use sharded_slab.Base.{ℕ, ◌≡◌, refl, ◌∙◌, false, ◌==◌, [], none, arith}
use sharded_slab.Config.{Config}
use sharded_slab.Config.Valid.{IsConfig}
use sharded_slab.Key.{unpack_tid, unpack_gen}
use sharded_slab.Slot.Memory.{returns}
use sharded_slab.Slot.Ops.{Clear, get, try_clear_storage}
use sharded_slab.Slot.Spec.{accessible}
use sharded_slab.Slot.Access.{mark_answer}
use sharded_slab.Slot.Quiet.{get-quiet}
use sharded_slab.Slot.Clearing.{try_clear_storage-refused}
use sharded_slab.Page.Ops.{mark_clear}
use sharded_slab.Shard.{mark_clear_local, mark_clear_remote}
use sharded_slab.Shard.Located.{offset}
use sharded_slab.Shard.Refused.{
  Refuses, absent, stale, with_shard_slot-Absent, either_thread-Absent, with_shard_slot-kept,
  either_thread-kept,
}
use sharded_slab.Pool.{Pool, get_guard, pool_get, pool_get_owned, pool_clear}

module _ {T : Type 0} {c : Config} (v : IsConfig c) {key : ℕ} {pool : Pool T} where
  guard_refused :
      Refuses c (unpack_tid c key) key pool → get_guard c key [] pool ≡ returns (none, pool)
  unfolding get_guard
  guard_refused (absent a) = with_shard_slot-Absent (get c (unpack_gen c key)) a
  guard_refused (stale z l i word other) =
      let refused : accessible c (unpack_gen c key) l ≡ false = ground (arith, other) in
      with_shard_slot-kept z (get c (unpack_gen c key)) none
        (get-quiet v z.slot l i word (unpack_gen c key) ∙ rw refused refl)

  module _ (cl : Clear T) (you : ℕ) where
    clear_refused :
        Refuses c (unpack_tid c key) key pool
        → pool_clear c cl you key [] pool ≡ returns (false, pool)
    unfolding pool_clear mark_clear_local mark_clear_remote mark_clear
    clear_refused (absent a) =
        either_thread-Absent false
          (λ F fl gen offset free w. try_clear_storage c fl cl gen offset free w)
          (unpack_tid c key == you) a
    clear_refused (stale z l i word other) =
        let refused : mark_answer (unpack_gen c key) l ≡ none = ground (arith, other) in
        either_thread-kept z false false
          (λ F fl gen offset free w. try_clear_storage c fl cl gen offset free w)
          (λ F fl free.
            try_clear_storage-refused v fl cl (offset z) free z.slot l i word (unpack_gen c key)
              refused)
          (unpack_tid c key == you)

    -- A key whose shard, page or slot does not exist, or whose generation is not the slot's, finds
    -- nothing and clears nothing on any thread, and the pool is left as it was.
    pub pool_refused :
        Refuses c (unpack_tid c key) key pool
        → (pool_get c key [] pool ≡ returns (none, pool))
          × (pool_get_owned c key [] pool ≡ returns (none, pool))
          × (pool_clear c cl you key [] pool ≡ returns (false, pool))
    unfolding pool_get pool_get_owned
    pool_refused r = (
      rw (pool_get, guard_refused r) refl,
      rw (pool_get_owned, guard_refused r) refl,
      clear_refused r,
    )
