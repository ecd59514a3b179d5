-- ===== src/Slab/Refused.antt =====
-- What `Slab` (src/lib.rs) answers to a key that it does not hold.
use sharded_slab.Base.{ℕ, ◌≡◌, ◌≢◌, refl, ap, false, ◌==◌, [], Option, none, arith}
use sharded_slab.Config.{Config}
use sharded_slab.Config.Valid.{IsConfig}
use sharded_slab.Key.{unpack_tid, unpack_gen}
use sharded_slab.Lifecycle.Encode.{Life, IsLife, encode}
use sharded_slab.Slot.Memory.{Slot, returns}
use sharded_slab.Slot.Ops.{FreeList, remove_value, try_remove_value}
use sharded_slab.Slot.Spec.{accessible}
use sharded_slab.Slot.Access.{mark_answer}
use sharded_slab.Slot.Quiet.{quiet, get-quiet, mark_release-quiet, untouched}
use sharded_slab.Slot.Clearing.{release_with_stale}
use sharded_slab.Page.Ops.{take, remove}
use sharded_slab.Shard.{take_local, take_remote, remove_local, remove_remote}
use sharded_slab.Shard.Located.{offset}
use sharded_slab.Shard.Refused.{
  Refuses, absent, stale, with_shard_slot-Absent, either_thread-Absent, with_shard_slot-kept,
  either_thread-kept,
}
use sharded_slab.Slab.{
  Slab, get_entry, get_owned_entry, slab_get, slab_get_owned, slab_take, slab_remove, contains,
}

not_marked :
    {T : Type 0} {c : Config} (v : IsConfig c) (F : Type 0) (fl : FreeList (Option T) F) (o : ℕ)
    (free : F) (s : Slot (Option T)) (gen : ℕ) (l : Life)
    → IsLife c l
    → s.lifecycle ≡ encode c l
    → gen ≢ l.gen
    → try_remove_value c fl gen o free (quiet s) ≡ returns (false, free, quiet s)
unfolding try_remove_value
not_marked {T} {c} v F fl o free s gen l i word other =
    let refused : mark_answer gen l ≡ none = ground (arith, other) in
    rw (mark_release-quiet v s l i word gen, refused)
      (ap (λ t. returns (false, free, quiet t)) (untouched c s l word gen refused))

module _ {T : Type 0} {c : Config} (v : IsConfig c) (you : ℕ) {key : ℕ} {slab : Slab T} where
  get_refused :
      Refuses c (unpack_tid c key) key slab → slab_get c you key [] slab ≡ returns (none, slab)
  unfolding slab_get get_entry
  get_refused (absent a) = with_shard_slot-Absent (get_entry c key) a
  get_refused (stale z l i word other) =
      let refused : accessible c (unpack_gen c key) l ≡ false = ground (arith, other) in
      with_shard_slot-kept z (get_entry c key) none
        (rw (get_entry, get-quiet v z.slot l i word (unpack_gen c key), refused) refl)

  get_owned_refused :
      Refuses c (unpack_tid c key) key slab
      → slab_get_owned c you key [] slab ≡ returns (none, slab)
  unfolding slab_get_owned get_owned_entry
  get_owned_refused (absent a) = with_shard_slot-Absent (get_owned_entry c key) a
  get_owned_refused (stale z l i word other) =
      let refused : accessible c (unpack_gen c key) l ≡ false = ground (arith, other) in
      with_shard_slot-kept z (get_owned_entry c key) none
        (rw (get_owned_entry, get-quiet v z.slot l i word (unpack_gen c key), refused) refl)

  pub take_refused :
      Refuses c (unpack_tid c key) key slab → slab_take c you key [] slab ≡ returns (none, slab)
  unfolding slab_take take_local take_remote take remove_value
  take_refused (absent a) =
      either_thread-Absent none (λ F fl gen offset free w. remove_value c fl gen offset free w)
        (unpack_tid c key == you) a
  take_refused (stale z l i word other) =
      either_thread-kept z none none (λ F fl gen offset free w. remove_value c fl gen offset free w)
        (λ F fl free.
          release_with_stale v fl _ (unpack_gen c key) (offset z) free z.slot l i word other)
        (unpack_tid c key == you)

  pub remove_refused :
      Refuses c (unpack_tid c key) key slab → slab_remove c you key [] slab ≡ returns (false, slab)
  unfolding slab_remove remove_local remove_remote remove
  remove_refused (absent a) =
      either_thread-Absent false (λ F fl gen offset free w. try_remove_value c fl gen offset free w)
        (unpack_tid c key == you) a
  remove_refused (stale z l i word other) =
      either_thread-kept z false false
        (λ F fl gen offset free w. try_remove_value c fl gen offset free w)
        (λ F fl free. not_marked v F fl (offset z) free z.slot (unpack_gen c key) l i word other)
        (unpack_tid c key == you)

  -- A key whose shard, page or slot does not exist, or whose generation is not the slot's, finds
  -- nothing and removes nothing on any thread, and the slab is left as it was.
  pub slab_refused :
      Refuses c (unpack_tid c key) key slab
      → (slab_get c you key [] slab ≡ returns (none, slab))
        × (slab_get_owned c you key [] slab ≡ returns (none, slab))
        × (slab_take c you key [] slab ≡ returns (none, slab))
        × (slab_remove c you key [] slab ≡ returns (false, slab))
        × (contains c you key [] [] [] slab ≡ returns (false, slab))
  unfolding contains
  slab_refused r = (
    get_refused r,
    get_owned_refused r,
    take_refused r,
    remove_refused r,
    rw (contains, get_refused r) refl,
  )
