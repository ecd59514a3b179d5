-- ===== src/Pool/Calls.antt =====
-- The calls of src/pool.rs on a key that finds a slot, with no other thread interfering.
use sharded_slab.Base.{ℕ, ◌≡◌, refl, ◌∙◌, true, false, ◌==◌, [], none, some}
use sharded_slab.Config.{Config}
use sharded_slab.Config.Valid.{IsConfig}
use sharded_slab.Key.{unpack_tid, unpack_gen}
use sharded_slab.Lifecycle.Encode.{Life, IsLife, encode}
use sharded_slab.Slot.Memory.{store}
use sharded_slab.Slot.Ops.{Clear, get, try_clear_storage}
use sharded_slab.Slot.Spec.{accessible, with_ref}
use sharded_slab.Slot.Access.{mark_answer, marked_life}
use sharded_slab.Slot.Quiet.{get-quiet}
use sharded_slab.Slot.Clearing.{
  cleared, try_clear_storage-refused, try_clear_storage-marked, try_clear_storage-cleared,
}
use sharded_slab.Page.Ops.{mark_clear}
use sharded_slab.Shard.{mark_clear_local, mark_clear_remote}
use sharded_slab.Shard.Located.{Located, offset}
use sharded_slab.Shard.Threads.{Left, Moved-Left, freed-Moved, kept-Moved, with_shard_slot-Left}
use sharded_slab.Pool.{Pool, Ref, get_guard, pool_get, pool_clear}

module _ {T : Type 0} {c : Config} (v : IsConfig c) {key : ℕ} {pool : Pool T}
    (z : Located c (unpack_tid c key) key pool) (l : Life) (i : IsLife c l)
    (word : z.slot.lifecycle ≡ encode c l) where
  abbrev pub ref_to : Ref
  ref_to = record { inner = tt; shard = unpack_tid c key; key = key }

  -- `get` of a slot that may be accessed counts one reference more.
  pub pool_get-found :
      accessible c (unpack_gen c key) l ≡ true
      → Left c
          (unpack_tid c key)
          key
          (store (encode c (with_ref l)) z.slot)
          (some ref_to)
          (pool_get c key [] pool)
  unfolding pool_get get_guard
  pool_get-found allowed =
      let r =
        with_shard_slot-Left z (get c (unpack_gen c key)) none (some tt)
          (store (encode c (with_ref l)) z.slot)
          (get-quiet v z.slot l i word (unpack_gen c key) ∙ rw allowed refl) in
      record {
        array = r.array;
        returned = rw (pool_get, get_guard, r.returned) refl;
        located = r.located;
        alike = r.alike;
      }

  pub pool_get-refused :
      accessible c (unpack_gen c key) l ≡ false
      → Left c (unpack_tid c key) key z.slot none (pool_get c key [] pool)
  unfolding pool_get get_guard
  pool_get-refused refused =
      let r =
        with_shard_slot-Left z (get c (unpack_gen c key)) none none z.slot
          (get-quiet v z.slot l i word (unpack_gen c key) ∙ rw refused refl) in
      record {
        array = r.array;
        returned = rw (pool_get, get_guard, r.returned) refl;
        located = r.located;
        alike = r.alike;
      }

  module _ (cl : Clear T) (me : ℕ) where
    -- `clear` at another generation than the slot's, or while the slot is being removed.
    pub pool_clear-refused :
        mark_answer (unpack_gen c key) l ≡ none
        → Left c (unpack_tid c key) key z.slot false (pool_clear c cl me key [] pool)
    unfolding pool_clear mark_clear_local mark_clear_remote mark_clear
    pool_clear-refused e =
        let m =
          kept-Moved z false false
            (λ F fl gen offset free w. try_clear_storage c fl cl gen offset free w) z.slot
            (λ F fl free.
              try_clear_storage-refused v fl cl (offset z) free z.slot l i word (unpack_gen c key)
                e)
            (unpack_tid c key == me) in
        Moved-Left z m false false _ m.returned

    -- `clear` of a slot with references marks it.
    pub pool_clear-marked :
        mark_answer (unpack_gen c key) l ≡ some false
        → Left c
            (unpack_tid c key)
            key
            (store (encode c (marked_life (unpack_gen c key) l)) z.slot)
            true
            (pool_clear c cl me key [] pool)
    unfolding pool_clear mark_clear_local mark_clear_remote mark_clear
    pool_clear-marked e =
        let m =
          kept-Moved z false true
            (λ F fl gen offset free w. try_clear_storage c fl cl gen offset free w)
            (store (encode c (marked_life (unpack_gen c key) l)) z.slot)
            (λ F fl free.
              try_clear_storage-marked v fl cl (offset z) free z.slot l i word (unpack_gen c key) e)
            (unpack_tid c key == me) in
        Moved-Left z m false true _ m.returned

    -- `clear` of a slot without references frees it.
    pub pool_clear-cleared :
        mark_answer (unpack_gen c key) l ≡ some true
        → Left c
            (unpack_tid c key)
            key
            (cleared c cl z.slot (marked_life (unpack_gen c key) l))
            true
            (pool_clear c cl me key [] pool)
    unfolding pool_clear mark_clear_local mark_clear_remote mark_clear
    pool_clear-cleared e =
        let (m, heads, same_tid) =
          freed-Moved z false true
            (λ F fl gen offset free w. try_clear_storage c fl cl gen offset free w)
            (cleared c cl z.slot (marked_life (unpack_gen c key) l))
            (λ F fl free.
              try_clear_storage-cleared v fl cl (offset z) free z.slot l i word (unpack_gen c key)
                e)
            (unpack_tid c key == me) in
        Moved-Left z m false true _ m.returned
