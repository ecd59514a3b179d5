-- ===== src/Slab/PageMap/Starting.antt =====
-- A page of src/page/mod.rs that has just been allocated stands for the empty map.
use sharded_slab.Base.{
  ℕ, zero, suc, ◌+◌, ◌-◌, ◌^◌, ◌≤◌, ◌≡◌, refl, sym, subst, [], none, some, get_elem?, Option,
}
use mathlib.Core.Option.{some-injective}
use sharded_slab.Word.Fields.{two_pow-pos}
use sharded_slab.Config.{Config, null_addr, gen_field, ref_count_field}
use sharded_slab.Lifecycle.{State}
use sharded_slab.Lifecycle.Encode.{encode_removing}
use sharded_slab.Slot.Memory.{Slot}
use sharded_slab.Slot.Ops.{new_slot}
use sharded_slab.Slot.Lives.{life}
use sharded_slab.Slot.Story.{option_clear}
use sharded_slab.Page.{new_shared, new_local, allocate, range_from}
use sharded_slab.Page.Fresh.{row, fresh, allocate-FreeLists}
use sharded_slab.Page.Held.{range-SharedOut}
use sharded_slab.Slab.PageMap.{Stands, Models}

module _ {T : Type 0} (c : Config) where
  new_slot-Stands : (next : ℕ) → Stands {T = T} c none (new_slot option_clear next)
  unfolding new_slot
  new_slot-Stands next = (
    life State.removing 0 0,
    record {
      refs_fit = two_pow-pos (ref_count_field c).len;
      gen_fits = two_pow-pos (gen_field c).len;
    },
    sym (encode_removing c),
    refl,
    refl,
  )

  row-Stands :
      (last n o : ℕ) (s : Slot (Option T))
      → get_elem? (row (new_slot option_clear) (new_slot option_clear (null_addr c)) last n) o
        ≡ some s
      → Stands c none s
  row-Stands zero n zero s h =
      subst (Stands c none) (some-injective _ _ h) (new_slot-Stands (null_addr c))
  row-Stands zero n (suc o) s h = absurd cc
  row-Stands (suc last) n zero s h =
      subst (Stands c none) (some-injective _ _ h) (new_slot-Stands n)
  row-Stands (suc last) n (suc o) s h = row-Stands last (n + 1) o s h

  pub allocate-Models :
      (size prev_sz : ℕ)
      → 1 ≤ size
      → size ≤ null_addr c
      → prev_sz + size ≤ 2 ^ c.width
      → Models {T = T} c (allocate c option_clear (new_shared c size prev_sz)) new_local (λ o. none)
  unfolding allocate new_shared
  allocate-Models size prev_sz some_slots fits in_word = record {
    slots = fresh c option_clear (size - 1);
    xs = range_from size 0;
    ys = [];
    lists = allocate-FreeLists c option_clear size prev_sz some_slots fits;
    shared_out = range-SharedOut (T × ℕ) size;
    stands = λ o s h. row-Stands (size - 1) 1 o s h;
    in_word = in_word;
  }
