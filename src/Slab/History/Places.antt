-- ===== src/Slab/History/Places.antt =====
-- The slot of a key in a slab (src/lib.rs) that calls have made, and what `coming` excludes.
use sharded_slab.Base.{ℕ, ◌≡◌, ◌≢◌, refl, sym, ap, ◌∙◌, subst, true, false, eq→==, List, none, some}
use sharded_slab.Config.{Config}
use sharded_slab.Config.Valid.{IsConfig}
use sharded_slab.Key.{unpack_tid, unpack_gen}
use sharded_slab.Lifecycle.{gen_from_packed}
use sharded_slab.Lifecycle.Encode.{gen_from_packed-encode}
use sharded_slab.Shard.Array.{get_shard}
use sharded_slab.Shard.Located.{Located, offset}
use sharded_slab.Shard.Refused.{Absent, no_shard, no_page, no_slot}
use sharded_slab.Slab.{Slab}
use sharded_slab.Slab.Valid.Spot.{Spot}
use sharded_slab.Slab.History.{Live, slot_of, free_at, coming, live_at}
use sharded_slab.Slab.History.Slots.{SlotValid, each_valid}

module _ {T : Type 0} {c : Config} {key : ℕ} {slab : Slab T} where
  pub slot_of-Located :
      (z : Located c (unpack_tid c key) key slab) → slot_of c key slab ≡ some z.slot
  unfolding slot_of get_shard
  slot_of-Located z =
      rw (slot_of, get_shard, z.held, z.split, z.paged) (rw (z.split, z.allocated) z.found)

  pub slot_of-Absent : Absent c (unpack_tid c key) key slab → slot_of c key slab ≡ none
  unfolding slot_of get_shard
  slot_of-Absent (no_shard h) = rw (slot_of, h) refl
  slot_of-Absent (no_page shard held h) = rw (slot_of, get_shard, held, h) refl
  slot_of-Absent (no_slot shard page local held paged listed h) =
      rw (slot_of, get_shard, held, paged) h

  module _ {live : Live T} (spot : Spot c (each_valid c live) key slab) where
    pub slot_valid : SlotValid c (live_at c key live) spot.at.slot
    slot_valid =
        subst (λ a. each_valid c live (unpack_tid c key) a spot.at.slot) spot.addr_eq
          (spot.each (offset spot.at) spot.at.slot spot.at.found).0

  -- A free slot has another generation than a key that is not coming.
  pub not_coming :
      IsConfig c
      → (z : Located c (unpack_tid c key) key slab) (entries : List (T × ℕ))
        (h : SlotValid c entries z.slot)
      → coming c key slab ≡ false
      → z.slot.item ≡ none
      → unpack_gen c key ≢ h.life.gen
  not_coming v z entries h e gone same =
      let seen : gen_from_packed c z.slot.lifecycle ≡ unpack_gen c key =
        ap (gen_from_packed c) h.word ∙ gen_from_packed-encode v h.is_life ∙ sym same in
      let comes : coming c key slab ≡ true =
        ap (free_at c (unpack_gen c key)) (slot_of-Located z) ∙ rw gone (eq→== _ _ seen) in
      let q = sym e ∙ comes in cc
