-- ===== src/Pool/Trip.antt =====
-- `Pool::create_with`, `get`, `clear` and the guards (src/pool.rs) one after another, through the
-- array, the shard, its page and the slot.
use sharded_slab.Base.{ℕ, ◌≡◌, refl, ap, ◌∙◌, true, [], some, arith}
use sharded_slab.Word.Powers.{two_pow_mono}
use sharded_slab.Config.{Config}
use sharded_slab.Config.Valid.{IsConfig, ref_bits}
use sharded_slab.Key.{unpack_tid, unpack_gen}
use sharded_slab.Lifecycle.{State}
use sharded_slab.Lifecycle.Encode.{IsLife, encode, max_refs_lem}
use sharded_slab.Slot.Memory.{Slot, returns}
use sharded_slab.Slot.Ops.{Clear}
use sharded_slab.Slot.Spec.{accessible}
use sharded_slab.Slot.Insert.{present_life}
use sharded_slab.Slot.Lives.{no_ref-IsLife}
use sharded_slab.Shard.Room.{Room, key, unpack_gen-key}
use sharded_slab.Shard.Threads.{Left}
use sharded_slab.Pool.{Pool, Ref, create_with, pool_get, deref}
use sharded_slab.Pool.Calls.{pool_get-found}
use sharded_slab.Pool.Guarded.{ref, deref-found, deref_mut-found, drop_ref_mut-present}
use sharded_slab.Pool.Created.{created-Located, guard, create-created}

module _ {T : Type 0} {c : Config} (v : IsConfig c) (cl : Clear T) {me : ℕ} {pool : Pool T}
    (room : Room c cl me pool) where
  -- The slot once `create_with` has initialised it.
  abbrev pub initialised : (T → T) → Slot T
  initialised init = record (room.slot) {
    lifecycle = encode c (present_life 0 room.life);
    item = init room.slot.item;
  }

  pub create_with-Left :
      (init : T → T)
      → Left c
          (unpack_tid c (key v room))
          (key v room)
          (initialised init)
          (some (key v room))
          (create_with c cl me init (λ p. []) [] [] [] [] pool)
  unfolding create_with
  create_with-Left init =
      let changed = deref_mut-found (created-Located v room) (guard v room) init in
      let dropped =
        drop_ref_mut-present changed.located v cl me room.life room.is_life
          (changed.alike.0 ∙ room.word) in
      record {
        array = dropped.array;
        returned =
            rw (create_with, create-created v room)
              (rw changed.returned (rw dropped.returned refl));
        located = dropped.located;
        alike = (dropped.alike.0, dropped.alike.1 ∙ changed.alike.1);
      }

  gen_eq : unpack_gen c (key v room) ≡ room.life.gen
  gen_eq = unpack_gen-key v room

  pub present_accessible :
      accessible c (unpack_gen c (key v room)) (present_life 0 room.life) ≡ true
  present_accessible = ground (arith, gen_eq, max_refs_lem v, two_pow_mono {a = 2} (ref_bits v))

  pub present-IsLife : IsLife c (present_life 0 room.life)
  present-IsLife = no_ref-IsLife v State.present room.life.gen room.is_life.gen_fits

-- What `create_with` makes of the item of a free slot, `get` finds under the key that it returned, on
-- any thread, and dereferences to: here where the creating thread's shard has a free slot, or is yet
-- to be made, and no other thread interferes.
pub create_with-pool_get :
    {T : Type 0} {c : Config} (v : IsConfig c) (cl : Clear T) (me : ℕ) (pool : Pool T)
    (room : Room c cl me pool) (init : T → T)
    → (key : ℕ) × (ref : Ref) × (made found after : Pool T) × (create_with c cl me init
          (λ page. [])
          []
          []
          []
          []
          pool
        ≡ returns (some key, made))
      × (pool_get c key [] made ≡ returns (some ref, found))
      × (deref c ref [] found ≡ returns (some (init room.slot.item), after))
create_with-pool_get {T} {c} v cl me pool room init =
    let made = create_with-Left v cl room init in
    let got =
      pool_get-found v made.located (present_life 0 room.life) (present-IsLife v cl room)
        made.alike.0 (present_accessible v cl room) in
    let read = deref-found got.located in
    (
      key v room,
      ref got.located,
      made.array,
      got.array,
      read.array,
      made.returned,
      got.returned,
      read.returned ∙ ap (λ t. returns (some t, read.array)) (got.alike.1 ∙ made.alike.1),
    )
