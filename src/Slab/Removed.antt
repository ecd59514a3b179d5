-- ===== src/Slab/Removed.antt =====
-- `Slab::remove` (src/lib.rs) of a value that entries refer to.
use sharded_slab.Base.{ℕ, ◌^◌, ◌<◌, ◌≡◌, refl, sym, ap, ◌∙◌, true, false, [], none, some, arith}
use sharded_slab.Word.Powers.{two_pow_mono}
use sharded_slab.Config.{Config, gen_field}
use sharded_slab.Config.Valid.{IsConfig, ref_bits}
use sharded_slab.Key.{unpack_tid, unpack_gen}
use sharded_slab.Lifecycle.{State, advance}
use sharded_slab.Lifecycle.Encode.{IsLife, encode, max_refs_lem, advance-lt, advance-ne}
use sharded_slab.Slot.Memory.{returns}
use sharded_slab.Slot.Spec.{accessible}
use sharded_slab.Slot.Access.{marked_life}
use sharded_slab.Slot.Insert.{present_life}
use sharded_slab.Slot.Story.{option_clear}
use sharded_slab.Slot.Lives.{life, no_ref-IsLife}
use sharded_slab.Shard.Located.{Located}
use sharded_slab.Shard.Room.{Room, key, unpack_gen-key, placed-Located}
use sharded_slab.Shard.Refused.{stale}
use sharded_slab.Slab.{
  Slab, slab_insert, slab_get, slab_get_owned, slab_remove, drop_entry, drop_owned_entry,
}
use sharded_slab.Slab.Calls.{
  slab_get-found, slab_get-refused, slab_get_owned-found, slab_remove-marked, drop_entry-released,
  drop_owned_entry-cleared,
}
use sharded_slab.Slab.Trip.{
  filled, inserted, slab_insert-inserted, present-IsLife, present_accessible,
}
use sharded_slab.Slab.Refused.{slab_refused}

module _ {c : Config} (v : IsConfig c) (state : State) (gen : ℕ)
    (gen_fits : gen < 2 ^ (gen_field c).len) where
  few_refs-IsLife : (n : ℕ) → n < 3 → IsLife c (life state n gen)
  few_refs-IsLife n h = record {
    refs_fit = omega (arith, two_pow_mono {a = 2} (ref_bits v));
    gen_fits = gen_fits;
  }

-- The calls from `remove` on, on a slot with two references.
module _ {T : Type 0} {c : Config} (v : IsConfig c) (key : ℕ) (slab : Slab T)
    (z : Located c (unpack_tid c key) key slab) (g : ℕ) (g_fits : g < 2 ^ (gen_field c).len)
    (at_gen : unpack_gen c key ≡ g) (word : z.slot.lifecycle ≡ encode c (life State.present 2 g))
    (value : T) (item : z.slot.item ≡ some value) where
  marks : marked_life (unpack_gen c key) (life State.present 2 g) ≡ life State.marked 2 g
  marks = ground (arith, at_gen)

  remove_in_use :
      (a remover d e again : ℕ)
      → (marked missed one_left emptied : Slab T) × (slab_remove c remover key [] slab
          ≡ returns (true, marked))
        × (slab_get c a key [] marked ≡ returns (none, missed))
        × (drop_entry c d (record { value = value; key = key }) [] [] missed
            ≡ returns (tt, one_left))
        × ((y : Located c (unpack_tid c key) key one_left) × (y.slot.item ≡ some value))
        × (drop_owned_entry c e (record { value = value; key = key }) [] [] one_left
            ≡ returns (tt, emptied))
        × ((y : Located c (unpack_tid c key) key emptied) × (y.slot.item ≡ none))
        × (slab_remove c again key [] emptied ≡ returns (false, emptied))
  remove_in_use a remover d e again =
      let refs : (state : State) (n : ℕ) → n < 3 → IsLife c (life state n g) =
        λ state n h. few_refs-IsLife v state g g_fits n h in
      let marked =
        slab_remove-marked v remover z (life State.present 2 g) (refs State.present 2 (omega arith))
          word (ground (arith, at_gen)) in
      let at_mark = marked.alike.0 ∙ ap (encode c) marks in
      let missed =
        slab_get-refused v a marked.located (life State.marked 2 g)
          (refs State.marked 2 (omega arith)) at_mark (ground (arith, at_gen)) in
      let dropped =
        drop_entry-released v d missed.located (life State.marked 2 g)
          (refs State.marked 2 (omega arith)) (missed.alike.0 ∙ at_mark) value (omega arith) refl in
      let emptied =
        drop_owned_entry-cleared v e dropped.located (life State.marked 1 g)
          (refs State.marked 1 (omega arith)) dropped.alike.0 value (omega arith) refl at_gen in
      let refused = slab_refused v again (
        stale emptied.located (life State.removing 0 (advance c g))
          (no_ref-IsLife v State.removing (advance c g) (omega (arith, advance-lt v g)))
          emptied.alike.0 (λ h. advance-ne v g g_fits (sym (sym at_gen ∙ h)))) in
      (
        marked.array,
        missed.array,
        dropped.array,
        emptied.array,
        marked.returned,
        missed.returned,
        dropped.returned,
        (dropped.located, dropped.alike.1 ∙ missed.alike.1 ∙ marked.alike.1 ∙ item),
        emptied.returned,
        (emptied.located, emptied.alike.1),
        refused.3,
      )

-- `remove` of a value that two entries refer to, one of them owned, answers `true`. The key finds
-- nothing from then on. The drop of the first entry leaves the value, that of the last one empties the
-- slot, and removing the key again answers `false` and changes nothing. Each call may be made by
-- another thread.
pub deferred_slab_remove :
    {T : Type 0} {c : Config} (v : IsConfig c) (me a b remover d e again : ℕ) (slab : Slab T)
    (room : Room c option_clear me slab) (value : T)
    → (key : ℕ) × (made one two marked missed one_left emptied : Slab T) × (slab_insert c me value
          (λ page. [])
          []
          slab
        ≡ returns (some key, made))
      × (slab_get c a key [] made ≡ returns (some (record { value = value; key = key }), one))
      × (slab_get_owned c b key [] one ≡ returns (some (record { value = value; key = key }), two))
      × (slab_remove c remover key [] two ≡ returns (true, marked))
      × (slab_get c a key [] marked ≡ returns (none, missed))
      × (drop_entry c d (record { value = value; key = key }) [] [] missed ≡ returns (tt, one_left))
      × ((z : Located c (unpack_tid c key) key one_left) × (z.slot.item ≡ some value))
      × (drop_owned_entry c e (record { value = value; key = key }) [] [] one_left
          ≡ returns (tt, emptied))
      × ((z : Located c (unpack_tid c key) key emptied) × (z.slot.item ≡ none))
      × (slab_remove c again key [] emptied ≡ returns (false, emptied))
deferred_slab_remove {T} {c} v me a b remover d e again slab room value =
    let gen_eq = unpack_gen-key v room in
    let present = life State.present 1 room.life.gen in
    let one =
      slab_get-found v a (placed-Located v room (filled v room value)) (present_life 0 room.life)
        (present-IsLife v room) refl value (present_accessible v room) refl in
    let more : accessible c (unpack_gen c (key v room)) present ≡ true =
      ground (arith, gen_eq, max_refs_lem v, two_pow_mono {a = 2} (ref_bits v)) in
    let two =
      slab_get_owned-found v b one.located present
        (few_refs-IsLife v State.present room.life.gen room.is_life.gen_fits 1 (omega arith))
        one.alike.0 value more one.alike.1 in
    let (marked, missed, one_left, emptied, mark, miss, drop, left, empty, gone, no_more) =
      remove_in_use v (key v room) two.array two.located room.life.gen room.is_life.gen_fits gen_eq
        two.alike.0 value (two.alike.1 ∙ one.alike.1) a remover d e again in
    (
      key v room,
      inserted v room value,
      one.array,
      two.array,
      marked,
      missed,
      one_left,
      emptied,
      slab_insert-inserted v room value,
      one.returned,
      two.returned,
      mark,
      miss,
      drop,
      left,
      empty,
      gone,
      no_more,
    )
