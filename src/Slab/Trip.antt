-- ===== src/Slab/Trip.antt =====
-- `Slab::insert` and then `Slab::get` (src/lib.rs), through the array, the shard, its page and the
-- slot.
use sharded_slab.Base.{ℕ, ◌≡◌, refl, true, [], Option, some, arith}
use sharded_slab.Word.Powers.{two_pow_mono}
use sharded_slab.Config.{Config}
use sharded_slab.Config.Valid.{IsConfig, ref_bits}
use sharded_slab.Key.{insert_key, unpack_gen}
use sharded_slab.Lifecycle.Encode.{IsLife, max_refs_lem}
use sharded_slab.Slot.Memory.{Slot, returns}
use sharded_slab.Slot.Story.{option_clear}
use sharded_slab.Slot.Spec.{accessible}
use sharded_slab.Slot.Insert.{present_life}
use sharded_slab.Shard.Room.{
  Room, key, idx_lem, unpack_gen-key, placed, placed-Located, init_shard-placed,
}
use sharded_slab.Slab.{Slab, insert_init, slab_insert, slab_get}
use sharded_slab.Slab.Filling.{filled_slot, fills}
use sharded_slab.Lifecycle.{State}
use sharded_slab.Slot.Lives.{no_ref-IsLife}
use sharded_slab.Slab.Calls.{slab_get-found}

module _ {T : Type 0} {c : Config} (v : IsConfig c) {me : ℕ} {slab : Slab T}
    (room : Room c option_clear me slab) where
  pub present-IsLife : IsLife c (present_life 0 room.life)
  present-IsLife = no_ref-IsLife v State.present room.life.gen room.is_life.gen_fits

  pub present_accessible :
      accessible c (unpack_gen c (key v room)) (present_life 0 room.life) ≡ true
  present_accessible =
      ground (arith, unpack_gen-key v room, max_refs_lem v, two_pow_mono {a = 2} (ref_bits v))

  module _ (value : T) where
    abbrev pub filled : Slot (Option T)
    filled = filled_slot v room.slot room.life room.is_life room.word room.no_refs value

    -- The slab with the value in it.
    abbrev pub inserted : Slab T
    inserted = placed v room filled

    pub slab_insert-inserted :
        slab_insert c me value (λ p. []) [] slab ≡ returns (some (key v room), inserted)
    unfolding slab_insert insert_key
    slab_insert-inserted =
        rw
          (
            slab_insert,
            room.found_shard,
            init_shard-placed v room (insert_init c value) (
                fills v room.slot room.life room.is_life room.word room.no_refs value
                  room.page.prev_sz room.x),
            idx_lem v room,
          )
          refl

-- What `insert` puts into the shard of its thread, `get` finds under the key that `insert` returned,
-- on any thread: here where the inserting thread's shard has a free slot, or is yet to be made, and no
-- other thread interferes.
pub slab_insert-slab_get :
    {T : Type 0} {c : Config} (v : IsConfig c) (me you : ℕ) (slab : Slab T)
    (room : Room c option_clear me slab) (value : T)
    → (key : ℕ) × (slab' : Slab T) × (slab'' : Slab T) × (slab_insert c me value
          (λ page. [])
          []
          slab
        ≡ returns (some key, slab'))
      × (slab_get c you key [] slab' ≡ returns (some (record { value = value; key = key }), slab''))
slab_insert-slab_get {T} {c} v me you slab room value =
    let z = placed-Located v room (filled v room value) in
    let got =
      slab_get-found v you z (present_life 0 room.life) (present-IsLife v room) refl value
        (present_accessible v room) refl in
    (key v room, inserted v room value, got.array, slab_insert-inserted v room value, got.returned)
