-- ===== src/Pool/Exclusive.antt =====
-- The mutable guard of `Pool::create` (src/pool.rs): who sees its item, and when.
use sharded_slab.Base.{ℕ, ◌≡◌, ◌≢◌, ap, ◌∙◌, true, [], none, some, arith}
use sharded_slab.Word.Powers.{two_pow_mono}
use sharded_slab.Config.{Config}
use sharded_slab.Config.Valid.{IsConfig, ref_bits}
use sharded_slab.Key.{unpack_tid}
use sharded_slab.Lifecycle.{State}
use sharded_slab.Lifecycle.Encode.{max_refs_lem}
use sharded_slab.Slot.Memory.{returns}
use sharded_slab.Slot.Ops.{Clear}
use sharded_slab.Slot.Lives.{life, one_ref-IsLife}
use sharded_slab.Shard.Room.{Room, unpack_gen-key}
use sharded_slab.Pool.{
  Pool, Ref, RefMut, create, pool_get, pool_clear, deref, deref_mut, downgrade_ref,
}
use sharded_slab.Shard.Located.{Located}
use sharded_slab.Pool.Calls.{pool_get-found, pool_get-refused, pool_clear-cleared}
use sharded_slab.Pool.Guarded.{ref, ref_mut, deref-found, deref_mut-found, downgrade_ref-present}
use sharded_slab.Pool.Created.{created, created-Located, guard, create-created}

-- While the mutable guard of a new item lives, its key finds nothing, if the slot was not present
-- before, as no slot is that has been removed through a mark. `downgrade` shares what has been
-- written through the guard: then the key finds it.
pub create-downgrade :
    {T : Type 0} {c : Config} (v : IsConfig c) (cl : Clear T) (me : ℕ) (pool : Pool T)
    (room : Room c cl me pool) (change : T → T)
    → room.life.state ≢ State.present
    → (guard : RefMut) × (mine theirs : Ref) × (made missed changed shared found after : Pool T)
      × (create c cl me (λ page. []) [] pool ≡ returns (some guard, made))
      × (pool_get c guard.key [] made ≡ returns (none, missed))
      × (deref_mut c guard change [] missed ≡ returns (some tt, changed))
      × (downgrade_ref c cl me guard [] [] [] changed ≡ returns (some mine, shared))
      × (pool_get c guard.key [] shared ≡ returns (some theirs, found))
      × (deref c theirs [] found ≡ returns (some (change room.slot.item), after))
create-downgrade {T} {c} v cl me pool room change absent =
    let gen_eq = unpack_gen-key v room in
    let z = created-Located v room in
    let missed = pool_get-refused v z room.life room.is_life room.word (ground (arith, absent)) in
    let changed = deref_mut-found missed.located (guard v room) change in
    let shared =
      downgrade_ref-present changed.located v cl me room.life room.is_life
        (changed.alike.0 ∙ missed.alike.0 ∙ room.word) in
    let found =
      pool_get-found v shared.located (life State.present 1 room.life.gen)
        (one_ref-IsLife v State.present room.life.gen room.is_life.gen_fits) shared.alike.0
        (ground (arith, gen_eq, max_refs_lem v, two_pow_mono {a = 2} (ref_bits v))) in
    let read = deref-found found.located in
    (
      ref_mut z (guard v room),
      ref changed.located,
      ref found.located,
      created v room,
      missed.array,
      changed.array,
      shared.array,
      found.array,
      read.array,
      create-created v room,
      missed.returned,
      changed.returned,
      shared.returned,
      found.returned,
      read.returned
          ∙ ap (λ t. returns (some t, read.array))
              (found.alike.1 ∙ shared.alike.1 ∙ changed.alike.1 ∙ ap change missed.alike.1),
    )

-- A slot that was marked when it was freed is still marked when `create` takes it. `clear` of the
-- key of the mutable guard then answers `true` and clears the item at once, while the guard lives.
pub clear_under_guard :
    {T : Type 0} {c : Config} (v : IsConfig c) (cl : Clear T) (me clearer : ℕ) (pool : Pool T)
    (room : Room c cl me pool)
    → room.life.state ≡ State.marked
    → (guard : RefMut) × (made cleared : Pool T) × (create c cl me (λ page. []) [] pool
        ≡ returns (some guard, made))
      × (pool_clear c cl clearer guard.key [] made ≡ returns (true, cleared))
      × ((z : Located c (unpack_tid c guard.key) guard.key cleared) × (z.slot.item
            ≡ cl.clear room.slot.item))
clear_under_guard {T} {c} v cl me clearer pool room marked =
    let z = created-Located v room in
    let gone =
      pool_clear-cleared v z room.life room.is_life room.word cl clearer
        (ground (arith, unpack_gen-key v room, room.no_refs, marked)) in
    (
      ref_mut z (guard v room),
      created v room,
      gone.array,
      create-created v room,
      gone.returned,
      (gone.located, gone.alike.1),
    )
