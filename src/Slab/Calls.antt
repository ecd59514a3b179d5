-- ===== src/Slab/Calls.antt =====
-- The calls of src/lib.rs on a key that finds a slot, with no other thread interfering.
use sharded_slab.Base.{ℕ, ◌≤◌, ◌≡◌, refl, ap, ◌∙◌, true, false, ◌==◌, [], none, some}
use sharded_slab.Config.{Config}
use sharded_slab.Config.Valid.{IsConfig}
use sharded_slab.Key.{unpack_tid, unpack_gen}
use sharded_slab.Lifecycle.{State}
use sharded_slab.Lifecycle.Encode.{Life, IsLife, encode}
use sharded_slab.Slot.Memory.{returns, store}
use sharded_slab.Slot.Ops.{release, remove_value, try_remove_value}
use sharded_slab.Slot.Spec.{accessible, with_ref, without_ref, last_marked}
use sharded_slab.Slot.Access.{mark_answer, marked_life}
use sharded_slab.Slot.Quiet.{
  quiet, get-quiet, release-quiet, mark_release-quiet, emptied, remove_value-quiet,
}
use sharded_slab.Slot.Story.{option_clear}
use sharded_slab.Slot.Lives.{life, no_ref-IsLife}
use sharded_slab.Page.Ops.{take, remove}
use sharded_slab.Shard.{take_local, take_remote, remove_local, remove_remote}
use sharded_slab.Shard.Located.{Located, offset}
use sharded_slab.Shard.Threads.{Left, with_shard_slot-Left, Moved-Left, freed-Moved, kept-Moved}
use sharded_slab.Shard.Guards.{drop_guard-released, drop_guard-cleared, drop_owned_guard-drop_guard}
use sharded_slab.Slab.{
  Slab, get_entry, get_owned_entry, slab_get, slab_get_owned, slab_take, slab_remove, drop_entry,
  drop_owned_entry,
}

module _ {T : Type 0} {c : Config} (v : IsConfig c) (you : ℕ) {key : ℕ} {slab : Slab T}
    (z : Located c (unpack_tid c key) key slab) (l : Life) (i : IsLife c l)
    (word : z.slot.lifecycle ≡ encode c l) where
  -- `get` of a value that may be accessed counts one reference more.
  pub slab_get-found :
      (value : T)
      → accessible c (unpack_gen c key) l ≡ true
      → z.slot.item ≡ some value
      → Left c
          (unpack_tid c key)
          key
          (store (encode c (with_ref l)) z.slot)
          (some (record { value = value; key = key }))
          (slab_get c you key [] slab)
  unfolding slab_get get_entry
  slab_get-found value allowed item =
      with_shard_slot-Left z (get_entry c key) none (some (record { value = value; key = key }))
        (store (encode c (with_ref l)) z.slot)
        (rw (get_entry, get-quiet v z.slot l i word (unpack_gen c key), allowed) (rw item refl))

  pub slab_get-refused :
      accessible c (unpack_gen c key) l ≡ false
      → Left c (unpack_tid c key) key z.slot none (slab_get c you key [] slab)
  unfolding slab_get get_entry
  slab_get-refused refused =
      with_shard_slot-Left z (get_entry c key) none none z.slot
        (rw (get_entry, get-quiet v z.slot l i word (unpack_gen c key), refused) refl)

  -- `take` of a value without references empties the slot, on the shard's thread and on another.
  pub slab_take-found :
      l.refs ≡ 0
      → unpack_gen c key ≡ l.gen
      → Left c (unpack_tid c key) key (emptied c z.slot l) z.slot.item (slab_take c you key [] slab)
  unfolding slab_take take_local take_remote take
  slab_take-found no_refs at_gen =
      let (m, heads, same_tid) =
        freed-Moved z none z.slot.item
          (λ F fl gen offset free w. remove_value c fl gen offset free w) (emptied c z.slot l)
          (λ F fl free. rw at_gen (remove_value-quiet v fl z.slot l i word (offset z) free no_refs))
          (unpack_tid c key == you) in
      Moved-Left z m none z.slot.item _ m.returned

  -- `get_owned` counts a reference as `get` does.
  pub slab_get_owned-found :
      (value : T)
      → accessible c (unpack_gen c key) l ≡ true
      → z.slot.item ≡ some value
      → Left c
          (unpack_tid c key)
          key
          (store (encode c (with_ref l)) z.slot)
          (some (record { value = value; key = key }))
          (slab_get_owned c you key [] slab)
  unfolding slab_get_owned get_owned_entry
  slab_get_owned-found value allowed item =
      with_shard_slot-Left z (get_owned_entry c key) none
        (some (record { value = value; key = key })) (store (encode c (with_ref l)) z.slot)
        (rw (get_owned_entry, get-quiet v z.slot l i word (unpack_gen c key), allowed)
          (rw item refl))

  -- `remove` of a value with references marks it, on the shard's thread and on another.
  pub slab_remove-marked :
      mark_answer (unpack_gen c key) l ≡ some false
      → Left c
          (unpack_tid c key)
          key
          (store (encode c (marked_life (unpack_gen c key) l)) z.slot)
          true
          (slab_remove c you key [] slab)
  unfolding slab_remove remove_local remove_remote remove try_remove_value
  slab_remove-marked e =
      let m =
        kept-Moved z false true (λ F fl gen offset free w. try_remove_value c fl gen offset free w)
          (store (encode c (marked_life (unpack_gen c key) l)) z.slot)
          (λ F fl free.
            rw (try_remove_value, mark_release-quiet v z.slot l i word (unpack_gen c key), e) refl)
          (unpack_tid c key == you) in
      Moved-Left z m false true _ m.returned

  -- The drop of an entry that is not the last one of a marked slot.
  pub drop_entry-released :
      (value : T)
      → 1 ≤ l.refs
      → last_marked l ≡ false
      → Left c
          (unpack_tid c key)
          key
          (store (encode c (without_ref l)) z.slot)
          tt
          (drop_entry c you (record { value = value; key = key }) [] [] slab)
  unfolding drop_entry
  drop_entry-released value some_ref last =
      drop_guard-released z v option_clear you (release c) (store (encode c (without_ref l)) z.slot)
        (release-quiet v z.slot l i word some_ref
          ∙ ap (λ b. returns (b, quiet (store (encode c (without_ref l)) z.slot))) last)

  -- The drop of the last one empties the slot, also where the entry is owned.
  pub drop_owned_entry-cleared :
      (value : T)
      → 1 ≤ l.refs
      → last_marked l ≡ true
      → unpack_gen c key ≡ l.gen
      → Left c
          (unpack_tid c key)
          key
          (emptied c z.slot (life State.removing 0 l.gen))
          tt
          (drop_owned_entry c you (record { value = value; key = key }) [] [] slab)
  unfolding drop_owned_entry
  drop_owned_entry-cleared value some_ref last at_gen =
      let released = store (encode c (life State.removing 0 l.gen)) z.slot in
      let ran : release c (quiet z.slot) ≡ returns (true, quiet released) =
        release-quiet v z.slot l i word some_ref ∙ rw last refl in
      let (r, heads) =
        drop_guard-cleared z v option_clear you (release c) released ran
          (life State.removing 0 l.gen) (no_ref-IsLife v State.removing l.gen i.gen_fits) refl refl
          at_gen in
      record {
        array = r.array;
        returned =
            drop_owned_guard-drop_guard z option_clear you (release c) released true ran
            ∙ r.returned;
        located = r.located;
        alike = r.alike;
      }
