-- ===== src/Pool/Cleared.antt =====
-- `Pool::clear` (src/pool.rs) of an item that `create_with` has made, with and without a guard in use.
use sharded_slab.Base.{ℕ, ◌≡◌, refl, ap, ◌∙◌, true, false, [], none, some, ◌==◌, arith}
use sharded_slab.Config.{Config}
use sharded_slab.Config.Valid.{IsConfig}
use sharded_slab.Key.{unpack_tid, unpack_gen}
use sharded_slab.Lifecycle.{State, advance}
use sharded_slab.Lifecycle.Encode.{Life, IsLife, encode, advance-lt, advance-ne}
use sharded_slab.Slot.Memory.{returns}
use sharded_slab.Slot.Ops.{Clear}
use sharded_slab.Slot.Access.{marked_life}
use sharded_slab.Slot.Insert.{present_life}
use sharded_slab.Slot.Lives.{life, no_ref-IsLife, one_ref-IsLife}
use sharded_slab.Shard.Located.{Located}
use sharded_slab.Shard.Room.{Room, key, unpack_gen-key}
use sharded_slab.Shard.Threads.{Left, Heads}
use sharded_slab.Pool.{Pool, Ref, create_with, pool_get, pool_clear, deref, drop_ref}
use sharded_slab.Pool.Calls.{
  pool_get-found, pool_get-refused, pool_clear-refused, pool_clear-marked, pool_clear-cleared,
}
use sharded_slab.Pool.Guarded.{ref, deref-found, drop_ref-cleared}
use sharded_slab.Pool.Trip.{create_with-Left, present_accessible, present-IsLife}

-- A key whose slot has gone on to the next generation.
module _ {T : Type 0} {c : Config} (v : IsConfig c) (cl : Clear T) {key : ℕ} {pool : Pool T}
    (z : Located c (unpack_tid c key) key pool) (state : State) (l : Life) (i : IsLife c l)
    (at_gen : unpack_gen c key ≡ l.gen)
    (word : z.slot.lifecycle ≡ encode c (life state 0 (advance c l.gen))) where
  next-IsLife : IsLife c (life state 0 (advance c l.gen))
  next-IsLife = no_ref-IsLife v state (advance c l.gen) (omega (arith, advance-lt v l.gen))

  stale_get : Left c (unpack_tid c key) key z.slot none (pool_get c key [] pool)
  stale_get =
      pool_get-refused v z (life state 0 (advance c l.gen)) next-IsLife word
        (ground (arith, at_gen, advance-ne v l.gen i.gen_fits))

  stale_clear :
      (me : ℕ) → Left c (unpack_tid c key) key z.slot false (pool_clear c cl me key [] pool)
  stale_clear me =
      pool_clear-refused v z (life state 0 (advance c l.gen)) next-IsLife word cl me
        (ground (arith, at_gen, advance-ne v l.gen i.gen_fits))

-- `clear` of an item that nobody refers to answers `true`, from any thread. Its key then finds
-- nothing, clearing it again answers `false`, and the item has been cleared in place.
create_with-pool_clear :
    {T : Type 0} {c : Config} (v : IsConfig c) (cl : Clear T) (me clearer again : ℕ) (pool : Pool T)
    (room : Room c cl me pool) (init : T → T)
    → (key : ℕ) × (made cleared missed after : Pool T) × (create_with c cl me init
          (λ page. [])
          []
          []
          []
          []
          pool
        ≡ returns (some key, made))
      × (pool_clear c cl clearer key [] made ≡ returns (true, cleared))
      × (pool_get c key [] cleared ≡ returns (none, missed))
      × (pool_clear c cl again key [] missed ≡ returns (false, after))
      × ((z : Located c (unpack_tid c key) key after) × (z.slot.item
            ≡ cl.clear (init room.slot.item)))
create_with-pool_clear {T} {c} v cl me clearer again pool room init =
    let made = create_with-Left v cl room init in
    let gen_eq = unpack_gen-key v room in
    let gone =
      pool_clear-cleared v made.located (present_life 0 room.life) (present-IsLife v cl room)
        made.alike.0 cl clearer (ground (arith, gen_eq)) in
    let marks : marked_life (unpack_gen c (key v room)) (present_life 0 room.life)
        ≡ life State.marked 0 room.life.gen =
      ground (arith, gen_eq) in
    let word = gone.alike.0 ∙ ap (λ l. encode c (record l { gen = advance c l.gen })) marks in
    let missed = stale_get v cl gone.located State.marked room.life room.is_life gen_eq word in
    let refused =
      stale_clear v cl missed.located State.marked room.life room.is_life gen_eq
        (missed.alike.0 ∙ word) again in
    (
      key v room,
      made.array,
      gone.array,
      missed.array,
      refused.array,
      made.returned,
      gone.returned,
      missed.returned,
      refused.returned,
      (refused.located, refused.alike.1 ∙ missed.alike.1 ∙ gone.alike.1 ∙ ap cl.clear made.alike.1),
    )

-- The calls from `clear` on, on a slot with one reference.
module _ {T : Type 0} {c : Config} (v : IsConfig c) (cl : Clear T) (key : ℕ) (pool : Pool T)
    (z : Located c (unpack_tid c key) key pool) (l : Life) (i : IsLife c l)
    (at_gen : unpack_gen c key ≡ l.gen)
    (word : z.slot.lifecycle ≡ encode c (life State.present 1 l.gen)) where
  marks : marked_life (unpack_gen c key) (life State.present 1 l.gen) ≡ life State.marked 1 l.gen
  marks = ground (arith, at_gen)

  clear_in_use :
      (clearer dropper again : ℕ)
      → (marked missed read dropped after : Pool T) × (pool_clear c cl clearer key [] pool
          ≡ returns (true, marked))
        × (pool_get c key [] marked ≡ returns (none, missed))
        × (deref c (ref z) [] missed ≡ returns (some z.slot.item, read))
        × (drop_ref c cl dropper (ref z) [] [] read ≡ returns (tt, dropped))
        × ((x : Located c (unpack_tid c key) key dropped) × Heads (dropper == x.shard.tid) x)
        × (pool_clear c cl again key [] dropped ≡ returns (false, after))
        × ((y : Located c (unpack_tid c key) key after) × (y.slot.item ≡ cl.clear z.slot.item))
  clear_in_use clearer dropper again =
      let in_use : (state : State) → IsLife c (life state 1 l.gen) =
        λ state. one_ref-IsLife v state l.gen i.gen_fits in
      let marked =
        pool_clear-marked v z (life State.present 1 l.gen) (in_use State.present) word cl clearer
          (ground (arith, at_gen)) in
      let at_mark = marked.alike.0 ∙ ap (encode c) marks in
      let missed =
        pool_get-refused v marked.located (life State.marked 1 l.gen) (in_use State.marked) at_mark
          (ground (arith, at_gen)) in
      let read = deref-found missed.located in
      let (dropped, heads) =
        drop_ref-cleared read.located v cl dropper (life State.marked 1 l.gen) (in_use State.marked)
          (read.alike.0 ∙ missed.alike.0 ∙ at_mark) (omega arith) refl at_gen in
      let refused =
        stale_clear v cl dropped.located State.removing l i at_gen dropped.alike.0 again in
      let same = missed.alike.1 ∙ marked.alike.1 in
      (
        marked.array,
        missed.array,
        read.array,
        dropped.array,
        refused.array,
        marked.returned,
        missed.returned,
        read.returned ∙ ap (λ t. returns (some t, read.array)) same,
        dropped.returned,
        (dropped.located, heads),
        refused.returned,
        (refused.located, refused.alike.1 ∙ dropped.alike.1 ∙ ap cl.clear (read.alike.1 ∙ same)),
      )

-- `Pool::clear` of an item in use answers true; the key finds nothing from then on, but the
-- reference still gives the item; its drop, on any thread, clears the item and frees the slot,
-- which then heads the local list of its page where the dropping thread is the shard's own, and
-- else the remote one; clearing the key again answers false; this is where the creating thread's
-- shard has a free slot, or is yet to be made, and no other thread interferes.
pub deferred_pool_clear :
    {T : Type 0} {c : Config} (v : IsConfig c) (cl : Clear T) (me clearer dropper again : ℕ)
    (pool : Pool T) (room : Room c cl me pool) (init : T → T)
    → (key : ℕ) × (ref : Ref) × (made held marked missed read dropped after : Pool T) × (create_with
          c cl me init
          (λ page. [])
          []
          []
          []
          []
          pool
        ≡ returns (some key, made))
      × (pool_get c key [] made ≡ returns (some ref, held))
      × (pool_clear c cl clearer key [] held ≡ returns (true, marked))
      × (pool_get c key [] marked ≡ returns (none, missed))
      × (deref c ref [] missed ≡ returns (some (init room.slot.item), read))
      × (drop_ref c cl dropper ref [] [] read ≡ returns (tt, dropped))
      × ((x : Located c (unpack_tid c key) key dropped) × Heads (dropper == x.shard.tid) x)
      × (pool_clear c cl again key [] dropped ≡ returns (false, after))
      × ((z : Located c (unpack_tid c key) key after) × (z.slot.item
            ≡ cl.clear (init room.slot.item)))
deferred_pool_clear {T} {c} v cl me clearer dropper again pool room init =
    let gen_eq = unpack_gen-key v room in
    let made = create_with-Left v cl room init in
    let got =
      pool_get-found v made.located (present_life 0 room.life) (present-IsLife v cl room)
        made.alike.0 (present_accessible v cl room) in
    let item = got.alike.1 ∙ made.alike.1 in
    let (marked, missed, read, dropped, after, mark, miss, seen, drop, free, no_more, (y, left)) =
      clear_in_use v cl (key v room) got.array got.located room.life room.is_life gen_eq got.alike.0
        clearer dropper again in
    (
      key v room,
      ref got.located,
      made.array,
      got.array,
      marked,
      missed,
      read,
      dropped,
      after,
      made.returned,
      got.returned,
      mark,
      miss,
      seen ∙ ap (λ t. returns (some t, read)) item,
      drop,
      free,
      no_more,
      (y, left ∙ ap cl.clear item),
    )
