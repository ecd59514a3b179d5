-- ===== src/Slab/History/Found.antt =====
-- `insert` and then `get` (src/lib.rs) after any calls of any threads.
use sharded_slab.Base.{
  ℕ, ◌+◌, ◌<◌, ◌≡◌, ◌⊎◌, inl, inr, refl, ap, ◌∙◌, subst, [], Option, none, some, All, arith,
}
use native.Mathlib.Nat.{zero-add}
use sharded_slab.Config.{Config, max_shards}
use sharded_slab.Config.Valid.{IsConfig}
use sharded_slab.Key.{index, unpack_tid, unpack_addr}
use sharded_slab.Slot.Memory.{returns}
use sharded_slab.Slot.Insert.{present_life}
use sharded_slab.Slot.Story.{option_clear}
use sharded_slab.Page.Chain.{get_elem?-inside}
use sharded_slab.Shard.{Shard}
use sharded_slab.Shard.Array.{current_shard}
use sharded_slab.Shard.First.{tid_room}
use sharded_slab.Shard.Full.{NoRoom, array_left}
use sharded_slab.Shard.Room.{Room, key, placed-Located, unpack_tid-key, unpack_addr-key}
use sharded_slab.Slab.{Slab, slab_insert, slab_get}
use sharded_slab.Slab.Calls.{slab_get-found}
use sharded_slab.Slab.Full.{slab_insert-NoRoom}
use sharded_slab.Slab.Trip.{
  present-IsLife, present_accessible, filled, inserted, slab_insert-inserted,
}
use sharded_slab.Slab.History.{Live, Reachable, live_at}
use sharded_slab.Slab.History.Slots.{Active, each_valid, no_entries}
use sharded_slab.Slab.History.Inserting.{Current, found_or_made}
use sharded_slab.Slab.History.Rooms.{AllUsed, HasFree, NoneFree, first_free}
use sharded_slab.Slab.History.Safe.{history-IsValid}

module _ {T : Type 0} {c : Config} (v : IsConfig c) {live : Live T} (slab : Slab T) (me : ℕ)
    (in_array : me < max_shards c)
    (cur : Current c (each_valid c live) me (current_shard c me [] slab)) where
  module _ (h : HasFree c (each_valid c live me) 0 cur.shard.local cur.shard.shared) where
    abbrev HasFree-Room : Room c option_clear me slab
    HasFree-Room =
        let s = h.free.fine in
        record {
          shard = cur.shard;
          current = cur.slab;
          fulls = h.fulls;
          local = h.local;
          locals = h.locals_behind;
          page = h.page;
          pages = h.pages_behind;
          slots = h.free.slots;
          x = h.free.x;
          remote = h.free.remote;
          slot = h.free.slot;
          life = s.life;
          found_shard = cur.returned;
          held = cur.held;
          full = h.full;
          locals_eq = h.locals_eq;
          pages_eq = h.pages_eq;
          front = h.free.front;
          found = h.free.found;
          is_life = s.is_life;
          word = s.word;
          no_refs = subst (Active s.life) h.free.free s.active;
          on_page =
              let turned : h.free.x + h.page.prev_sz ≡ h.page.prev_sz + h.free.x = omega arith in
              ap (index c) turned ∙ h.placed.on_page h.free.x h.free.inside ∙ zero-add _;
          addr_fits = omega (arith, h.placed.in_addr, h.free.inside);
          tid_fits = tid_room v me in_array;
        }

    new_address : live_at c (key v HasFree-Room) live ≡ []
    new_address =
        let turned : h.free.x + h.page.prev_sz ≡ h.page.prev_sz + h.free.x = omega arith in
        ap (λ t. live t (unpack_addr c (key v HasFree-Room))) (unpack_tid-key v HasFree-Room)
        ∙ ap (live me) (unpack_addr-key v HasFree-Room ∙ turned)
        ∙ no_entries (live me (h.page.prev_sz + h.free.x)) h.free.slot h.free.fine h.free.free

  NoneFree-NoRoom : NoneFree c cur.shard.local cur.shard.shared → NoRoom c me slab
  NoneFree-NoRoom h = record {
    shard = cur.shard;
    current = cur.slab;
    fulls = h.fulls;
    found_shard = cur.returned;
    full = h.full;
    locals_eq = h.locals_eq;
    pages_eq = h.pages_eq;
  }

-- After any calls of `insert`, `get`, `get_owned`, `contains`, `remove` and `take` and drops of
-- live entries by any threads, one after another, where no lookup or removal had a key of the
-- generation in which a free slot would be handed out next, `insert` on a thread whose id is below
-- the number of shards has one of two results: it returns a key of its own thread, with an address
-- at which no entry is alive, and `get` then finds the value under it on any thread; or it returns
-- none, and every slot of every page of the thread's shard has a value.
pub insert_found :
    {T : Type 0} {c : Config} (v : IsConfig c) {slab : Slab T} {live : Live T}
    (r : Reachable c slab live) (me you : ℕ) (value : T)
    → me < max_shards c
    → ((key : ℕ) × (slab' slab'' : Slab T) × (slab_insert c me value (λ page. []) [] slab
          ≡ returns (some key, slab'))
        × (unpack_tid c key ≡ me)
        × (live_at c key live ≡ [])
        × (slab_get c you key [] slab'
            ≡ returns (some (record { value = value; key = key }), slab'')))
      ⊎ ((slab' current : Slab T) × (shard : Shard (Option T)) × (slab_insert c me value
              (λ page. [])
              []
              slab
            ≡ returns (none, slab'))
          × (current_shard c me [] slab ≡ returns (shard, current))
          × All AllUsed shard.shared)
insert_found {T} {c} v {slab} {live} r me you value in_array =
    let valid = history-IsValid v r in
    let (ptr, place) = get_elem?-inside slab.shards me (omega (arith, valid.sized, in_array)) in
    let cur = found_or_made v (each_valid c live) me valid ptr place in
    elim (first_free c (each_valid c live me) 0 cur.shard.local cur.shard.shared
      (cur.valid.shard me cur.shard cur.held)) [
        | inl h ↦
            let room = HasFree-Room v slab me in_array cur h in
            let z = placed-Located v room (filled v room value) in
            let got =
              slab_get-found v you z (present_life 0 room.life) (present-IsLife v room) refl value
                (present_accessible v room) refl in
            inl (
              key v room,
              inserted v room value,
              got.array,
              slab_insert-inserted v room value,
              unpack_tid-key v room,
              new_address v slab me in_array cur h,
              got.returned,
            )
        | inr h ↦
            let full = NoneFree-NoRoom v slab me in_array cur h in
            inr (
              array_left full,
              cur.slab,
              cur.shard,
              (slab_insert-NoRoom me slab value full).0,
              cur.returned,
              h.used,
            )
      ]
