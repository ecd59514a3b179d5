-- ===== src/Slab/Reused.antt =====
-- What `Slab::get` (src/lib.rs) does with the key under which a slot will be handed out next, once
-- `Slab::take` has emptied the slot.
use sharded_slab.Base.{ℕ, ◌≡◌, refl, sym, ap, ◌∙◌, true, [], Option, none, some, arith, get_elem?}
use sharded_slab.Config.{Config}
use sharded_slab.Config.Valid.{IsConfig, ref_bits}
use sharded_slab.Word.Powers.{two_pow_mono}
use sharded_slab.Key.{unpack_tid, unpack_gen, indices, insert_key, index}
use sharded_slab.Key.Packing.{KeyParts, key-roundtrip}
use sharded_slab.Lifecycle.{advance}
use sharded_slab.Lifecycle.Encode.{advance-lt, max_refs_lem}
use sharded_slab.Slot.Memory.{World, Outcome, returns, panics}
use sharded_slab.Slot.Story.{option_clear}
use sharded_slab.Slot.Spec.{accessible}
use sharded_slab.Slot.Quiet.{quiet, get-quiet}
use sharded_slab.Slot.Insert.{present_life}
use sharded_slab.Page.{with_slot}
use sharded_slab.Shard.{with_shard_slot}
use sharded_slab.Shard.Array.{Array, get_shard, on_shard}
use sharded_slab.Shard.Located.{Located}
use sharded_slab.Shard.Room.{
  Room, addr, key, indices-key, unpack_tid-key, unpack_gen-key, placed-Located,
}
use sharded_slab.Slab.{Slab, get_entry, slab_insert, slab_take, slab_get}
use sharded_slab.Slab.Calls.{slab_take-found}
use sharded_slab.Slab.Trip.{filled, inserted, slab_insert-inserted, present-IsLife}
use sharded_slab.Slab.Taken.{next_life, next-IsLife}

module _ {T U : Type 0} {c : Config} {idx key : ℕ} {array : Array T} (z : Located c idx key array)
    (f : World T → Outcome (Option U × World T)) (e : f (quiet z.slot) ≡ panics) where
  with_slot-panics : with_slot c z.addr f [] z.page ≡ panics
  unfolding with_slot
  with_slot-panics = rw (with_slot, z.allocated, z.found, e) refl

  -- A call that panics on the slot of a key panics.
  on_shard-panics : on_shard none (λ shard. with_shard_slot c key f [] shard) idx array ≡ panics
  unfolding on_shard get_shard with_shard_slot
  on_shard-panics =
      rw (on_shard, get_shard, z.held, with_shard_slot, z.split, z.paged)
        (rw (z.split, with_slot-panics) refl)

module _ {T : Type 0} {c : Config} (v : IsConfig c) {me : ℕ} {slab : Slab T}
    (room : Room c option_clear me slab) where
  -- The key of the slot's next generation.
  abbrev next_key : ℕ
  next_key = insert_key c me (advance c room.life.gen) (addr v room)

  next_parts : KeyParts c (addr v room) me (advance c room.life.gen)
  next_parts = record {
    addr_fits = room.addr_fits;
    tid_fits = room.tid_fits;
    gen_fits = omega (arith, advance-lt v room.life.gen);
  }

  indices-next_key : indices c next_key ≡ indices c (key v room)
  unfolding indices
  indices-next_key =
      ap (λ a. (a, index c a))
        ((key-roundtrip v next_parts).1 ∙ sym (ap (λ i. i.0) (indices-key v room)))

  unpack_tid-next_key : unpack_tid c next_key ≡ unpack_tid c (key v room)
  unpack_tid-next_key = (key-roundtrip v next_parts).2 ∙ sym (unpack_tid-key v room)

  unpack_gen-next_key : unpack_gen c next_key ≡ advance c room.life.gen
  unpack_gen-next_key = (key-roundtrip v next_parts).3

  -- What the old key finds, the next one finds too.
  abbrev next-Located :
      {array : Array (Option T)}
      → Located c (unpack_tid c (key v room)) (key v room) array
      → Located c (unpack_tid c next_key) next_key array
  next-Located {array = array} z = record {
    shard = z.shard;
    held = ap (get_elem? array.shards) unpack_tid-next_key ∙ z.held;
    addr = z.addr;
    page_index = z.page_index;
    split = indices-next_key ∙ z.split;
    page = z.page;
    paged = z.paged;
    local = z.local;
    listed = z.listed;
    slots = z.slots;
    allocated = z.allocated;
    slot = z.slot;
    found = z.found;
  }

  next_accessible : accessible c (unpack_gen c next_key) (next_life v room) ≡ true
  next_accessible =
      ground (arith, unpack_gen-next_key, max_refs_lem v, two_pow_mono {a = 2} (ref_bits v))

-- After `insert` and `take`, by any threads, the slot is free, but present: `get` of the key that has
-- the slot's next generation, and the same thread and address, does not find nothing, it panics, on
-- any thread.
pub take_leaves_present :
    {T : Type 0} {c : Config} (v : IsConfig c) (me taker you : ℕ) (slab : Slab T)
    (room : Room c option_clear me slab) (value : T)
    → (key next : ℕ) × (inserted emptied : Slab T) × (slab_insert c me value (λ page. []) [] slab
        ≡ returns (some key, inserted))
      × (slab_take c taker key [] inserted ≡ returns (some value, emptied))
      × (unpack_tid c next ≡ unpack_tid c key)
      × (indices c next ≡ indices c key)
      × (unpack_gen c next ≡ advance c (unpack_gen c key))
      × (slab_get c you next [] emptied ≡ panics)
unfolding slab_get get_entry
take_leaves_present {T} {c} v me taker you slab room value =
    let z = placed-Located v room (filled v room value) in
    let took =
      slab_take-found v taker z (present_life 0 room.life) (present-IsLife v room) refl refl
        (unpack_gen-key v room) in
    let next = next-Located v room took.located in
    let ran : get_entry c (next_key v room) (quiet next.slot) ≡ panics =
      rw
        (
          get_entry,
          get-quiet v next.slot (next_life v room) (next-IsLife v room) took.alike.0
              (unpack_gen c (next_key v room)),
          next_accessible v room,
        )
        (rw took.alike.1 refl) in
    (
      key v room,
      next_key v room,
      inserted v room value,
      took.array,
      slab_insert-inserted v room value,
      took.returned,
      unpack_tid-next_key v room,
      indices-next_key v room,
      unpack_gen-next_key v room ∙ ap (advance c) (sym (unpack_gen-key v room)),
      on_shard-panics next (get_entry c (next_key v room)) ran,
    )
