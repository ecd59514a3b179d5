-- ===== src/Slab/Taken.antt =====
-- `Slab::insert`, then `Slab::take` (src/lib.rs), and what an old key finds.
use sharded_slab.Base.{ℕ, ◌≡◌, refl, false, [], none, some, arith}
use sharded_slab.Config.{Config}
use sharded_slab.Config.Valid.{IsConfig}
use sharded_slab.Key.{unpack_gen}
use sharded_slab.Lifecycle.Encode.{Life, IsLife, advance-ne, advance-lt}
use sharded_slab.Lifecycle.{advance}
use sharded_slab.Slot.Memory.{returns}
use sharded_slab.Slot.Story.{option_clear}
use sharded_slab.Slot.Spec.{accessible}
use sharded_slab.Slot.Insert.{present_life}
use sharded_slab.Shard.Room.{Room, key, unpack_gen-key, placed-Located}
use sharded_slab.Slab.{Slab, slab_insert, slab_take, slab_get}
use sharded_slab.Slab.Calls.{slab_take-found, slab_get-refused}
use sharded_slab.Slab.Trip.{filled, inserted, slab_insert-inserted, present-IsLife}

module _ {T : Type 0} {c : Config} (v : IsConfig c) {me : ℕ} {slab : Slab T}
    (room : Room c option_clear me slab) where
  abbrev pub next_life : Life
  next_life = record (present_life 0 room.life) { gen = advance c room.life.gen }

  pub next-IsLife : IsLife c next_life
  next-IsLife = record {
    refs_fit = (present-IsLife v room).refs_fit;
    gen_fits = omega (arith, advance-lt v room.life.gen);
  }

  stale : accessible c (unpack_gen c (key v room)) next_life ≡ false
  stale = ground (arith, unpack_gen-key v room, advance-ne v room.life.gen room.is_life.gen_fits)

-- A value that `insert` has put in is handed back by `take` on any thread, and then the key finds
-- nothing, on any thread: here where the inserting thread's shard has a free slot, or is yet to be
-- made, and no other thread interferes.
pub slab_insert-slab_take :
    {T : Type 0} {c : Config} (v : IsConfig c) (me taker you : ℕ) (slab : Slab T)
    (room : Room c option_clear me slab) (value : T)
    → (key : ℕ) × (inserted : Slab T) × (emptied : Slab T) × (after : Slab T) × (slab_insert c me
          value
          (λ page. [])
          []
          slab
        ≡ returns (some key, inserted))
      × (slab_take c taker key [] inserted ≡ returns (some value, emptied))
      × (slab_get c you key [] emptied ≡ returns (none, after))
slab_insert-slab_take {T} {c} v me taker you slab room value =
    let z = placed-Located v room (filled v room value) in
    let took =
      slab_take-found v taker z (present_life 0 room.life) (present-IsLife v room) refl refl
        (unpack_gen-key v room) in
    let missed =
      slab_get-refused v you took.located (next_life v room) (next-IsLife v room) took.alike.0
        (stale v room) in
    (
      key v room,
      inserted v room value,
      took.array,
      missed.array,
      slab_insert-inserted v room value,
      took.returned,
      missed.returned,
    )
