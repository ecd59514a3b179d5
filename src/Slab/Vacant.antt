-- ===== src/Slab/Vacant.antt =====
-- `Slab::vacant_entry` and `VacantEntry::insert` (src/lib.rs), and what the key finds in between.
use sharded_slab.Base.{ℕ, ◌≡◌, ◌≢◌, refl, sym, ap, ◌∙◌, false, [], Option, none, some, arith}
use sharded_slab.Word.Fields.{two_pow-pos}
use sharded_slab.Config.{Config, ref_count_field}
use sharded_slab.Config.Valid.{IsConfig}
use sharded_slab.Key.{unpack_gen}
use sharded_slab.Lifecycle.{State}
use sharded_slab.Lifecycle.Encode.{encode, encode_zero, gen_from_packed-encode}
use sharded_slab.Slot.Memory.{Slot, returns, store, ◌>>=◌}
use sharded_slab.Slot.Ops.{init, generation, release_init}
use sharded_slab.Slot.Spec.{accessible}
use sharded_slab.Slot.Quiet.{quiet}
use sharded_slab.Slot.Insert.{fresh_guard, init-fresh, present_life, release2_present}
use sharded_slab.Slot.Story.{option_clear}
use sharded_slab.Page.Alloc.{Succeeds}
use sharded_slab.Shard.Room.{
  Room, key, idx_lem, vacant_key-key, placed, placed-Located, init_shard-placed,
}
use sharded_slab.Shard.Guards.{on_guarded-Left}
use sharded_slab.Slab.{
  Slab, VacantEntry, vacant_init, vacant_entry, vacant_insert, insert_vacant, slab_get,
}
use sharded_slab.Slab.Calls.{slab_get-found, slab_get-refused}
use sharded_slab.Slab.Trip.{present-IsLife, present_accessible}

module _ {T : Type 0} {c : Config} (v : IsConfig c) {me : ℕ} {slab : Slab T}
    (room : Room c option_clear me slab) where
  abbrev entry : VacantEntry
  entry = record { inner = fresh_guard c room.life; key = key v room }

  abbrev made : Slab T
  made = placed v room room.slot

  init_slot : init c (quiet room.slot) ≡ (some (fresh_guard c room.life), quiet room.slot)
  init_slot =
      init-fresh v room.life room.is_life (quiet room.slot) tt room.word room.no_refs
      ∙ ap (λ t. (some (record { curr_lifecycle = t; released = false }), quiet room.slot))
          room.word

  generation-guard : generation c (fresh_guard c room.life) ≡ room.life.gen
  unfolding generation
  generation-guard = gen_from_packed-encode v room.is_life

  makes : Succeeds c (vacant_init c me) [] room.page.prev_sz room.x room.slot
  unfolding vacant_init
  makes = record {
    value = entry;
    world = quiet room.slot;
    ran = rw (vacant_init, init_slot, generation-guard, idx_lem v room, vacant_key-key v room) refl;
    keeps_link = refl;
  }

  vacant_entry-made : vacant_entry c me (λ p. []) [] slab ≡ returns (some entry, made)
  unfolding vacant_entry makes
  vacant_entry-made =
      rw (vacant_entry, room.found_shard, init_shard-placed v room (vacant_init c me) makes) refl

  -- A slot once `insert` has put the value in.
  abbrev with_value : T → Slot (Option T) → Slot (Option T)
  with_value value s = store (encode c (present_life 0 room.life)) (record s { item = some value })

  fills_slot :
      (value : T) (s : Slot (Option T))
      → s.lifecycle ≡ encode c room.life
      → vacant_insert c me entry value (quiet s) ≡ returns (quiet (with_value value s))
  unfolding vacant_insert release_init
  fills_slot value s word =
      ap (λ o. o >>= λ (_, _, w'). returns w')
        (release2_present v room.life room.is_life (quiet (record s { item = some value }))
          (fresh_guard c room.life) 0 0 tt word refl refl (two_pow-pos (ref_count_field c).len)
          (sym (encode_zero c)))

-- A vacant entry of a slot that was not present: its key finds nothing until `insert` has put a value
-- in, and then finds that value, on any threads, with no other thread interfering.
pub vacant_entry-insert_vacant :
    {T : Type 0} {c : Config} (v : IsConfig c) (me you other : ℕ) (slab : Slab T)
    (room : Room c option_clear me slab) (value : T)
    → room.life.state ≢ State.present
    → (entry : VacantEntry) × (made missed filled found : Slab T) × (vacant_entry c me
          (λ page. [])
          []
          slab
        ≡ returns (some entry, made))
      × (slab_get c you entry.key [] made ≡ returns (none, missed))
      × (insert_vacant c me entry value [] missed ≡ returns (some tt, filled))
      × (slab_get c other entry.key [] filled
          ≡ returns (some (record { value = value; key = entry.key }), found))
unfolding insert_vacant
vacant_entry-insert_vacant {T} {c} v me you other slab room value absent =
    let refused : accessible c (unpack_gen c (key v room)) room.life ≡ false =
      ground (arith, absent) in
    let z = placed-Located v room room.slot in
    let miss = slab_get-refused v you z room.life room.is_life room.word refused in
    let word = miss.alike.0 ∙ room.word in
    let fill =
      on_guarded-Left miss.located _ tt _
        (ap (λ o. do w' ← o; returns (tt, w')) (fills_slot v room value miss.located.slot word)) in
    let got =
      slab_get-found v other fill.located (present_life 0 room.life) (present-IsLife v room)
        fill.alike.0 value (present_accessible v room) fill.alike.1 in
    (
      entry v room,
      made v room,
      miss.array,
      fill.array,
      got.array,
      vacant_entry-made v room,
      miss.returned,
      fill.returned,
      got.returned,
    )
