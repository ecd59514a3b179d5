-- ===== src/Pool/Created.antt =====
-- `Pool::create`, `Pool::create_owned` and `Pool::create_with` (src/pool.rs) in a shard with a free
-- slot, with no other thread interfering.
use sharded_slab.Base.{ℕ, ◌≡◌, refl, sym, ap, ◌∙◌, false, [], some}
use sharded_slab.Pack.{pack}
use sharded_slab.Config.{Config, tid_field, gen_field}
use sharded_slab.Config.Valid.{IsConfig}
use sharded_slab.Key.{insert_key, unpack_tid}
use sharded_slab.Lifecycle.Encode.{gen_from_packed-encode}
use sharded_slab.Slot.Memory.{returns}
use sharded_slab.Slot.Ops.{Clear, InitGuard, init, generation}
use sharded_slab.Slot.Quiet.{quiet}
use sharded_slab.Slot.Insert.{fresh_guard, init-fresh}
use sharded_slab.Page.Alloc.{Succeeds}
use sharded_slab.Shard.Room.{
  Room, idx, key, idx_lem, unpack_tid-key, placed, placed-Located, init_shard-placed,
}
use sharded_slab.Shard.Located.{Located}
use sharded_slab.Pool.{Pool, create_init, create, create_owned_init, create_owned}
use sharded_slab.Pool.Guarded.{ref_mut}

module _ {T : Type 0} {c : Config} (v : IsConfig c) {cl : Clear T} {me : ℕ} {pool : Pool T}
    (room : Room c cl me pool) where
  abbrev pub created : Pool T
  created = placed v room room.slot

  abbrev pub created-Located : Located c (unpack_tid c (key v room)) (key v room) created
  created-Located = placed-Located v room room.slot

  abbrev pub guard : InitGuard
  guard = fresh_guard c room.life

  init_slot : init c (quiet room.slot) ≡ (some guard, quiet room.slot)
  init_slot =
      init-fresh v room.life room.is_life (quiet room.slot) tt room.word room.no_refs
      ∙ ap (λ t. (some (record { curr_lifecycle = t; released = false }), quiet room.slot))
          room.word

  generation-guard : generation c guard ≡ room.life.gen
  unfolding generation
  generation-guard = gen_from_packed-encode v room.is_life

  creates : Succeeds c (create_init c) [] room.page.prev_sz room.x room.slot
  unfolding create_init
  creates = record {
    value = (pack c.width (gen_field c) room.life.gen (idx v room), guard);
    world = quiet room.slot;
    ran = rw (create_init, init_slot, generation-guard) refl;
    keeps_link = refl;
  }

  -- `create` takes the slot, unchanged, off the list.
  pub create-created :
      create c cl me (λ p. []) [] pool ≡ returns (some (ref_mut created-Located guard), created)
  unfolding create insert_key creates
  create-created =
      rw
        (create, room.found_shard, init_shard-placed v room (create_init c) creates, idx_lem v room)
        (ap (λ t. returns (some (record { inner = guard; shard = t; key = key v room }), created))
          (sym (unpack_tid-key v room)))

  creates_owned : Succeeds c (create_owned_init c cl me) [] room.page.prev_sz room.x room.slot
  unfolding create_owned_init
  creates_owned = record {
    value = (
      guard,
      pack c.width (tid_field c) me (pack c.width (gen_field c) room.life.gen (idx v room)),
    );
    world = quiet room.slot;
    ran = rw (create_owned_init, init_slot, generation-guard) refl;
    keeps_link = refl;
  }

  pub create_owned-created :
      create_owned c cl me (λ p. []) [] pool
      ≡ returns (some (record { inner = guard; key = key v room }), created)
  unfolding create_owned insert_key creates_owned
  create_owned-created =
      rw
        (
          create_owned,
          room.found_shard,
          init_shard-placed v room (create_owned_init c cl me) creates_owned,
          idx_lem v room,
        )
        refl
