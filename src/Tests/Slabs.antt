-- ===== src/Tests/Slabs.antt =====
-- The properties of threads and shards (src/tid.rs, src/shard.rs) at concrete inputs.
use sharded_slab.Base.{true, false, zero, suc, ℕ, ◌+◌, ◌≤◌, ◌≡◌, refl, [], ◌∷◌, none, some, arith}
use sharded_slab.Base.{Option}
use sharded_slab.Shard.{Shard}
use sharded_slab.Config.{null_addr}
use sharded_slab.Lifecycle.{State}
use sharded_slab.Lifecycle.Encode.{encode}
use sharded_slab.Slot.Memory.{Slot, returns}
use sharded_slab.Page.{Shared}
use sharded_slab.Slab.{Slab, slab_insert, slab_get}
use sharded_slab.Slab.{slab_take}
use sharded_slab.Slab.Taken.{slab_insert-slab_take}
use sharded_slab.Shard.Room.{Room}
use sharded_slab.Slab.Trip.{slab_insert-slab_get}
use sharded_slab.Iter.{UniqueIter, next}
use sharded_slab.Iter.Drain.{TakesFirst, items, next-TakesFirst}
use sharded_slab.Tests.{default_config-IsConfig, gen_len_default, null_addr_default}
use sharded_slab.Base.{◌^◌, ◌≢◌, ap}
use sharded_slab.Word.Fields.{two_pow-pos}
use sharded_slab.Key.{index}
use sharded_slab.Config.{addr_field, ref_count_field, initial_sz, addr_index_shift}
use sharded_slab.Page.Free.{FreeLists}
use sharded_slab.Page.Front.{own}
use sharded_slab.Slab.{VacantEntry, vacant_entry, insert_vacant}
use sharded_slab.Key.{unpack_gen, indices}
use sharded_slab.Lifecycle.{advance}
use sharded_slab.Slot.Memory.{panics}
use sharded_slab.Slab.Reused.{take_leaves_present}
use sharded_slab.Slab.Vacant.{vacant_entry-insert_vacant}
use sharded_slab.Pack.{bits}
use sharded_slab.Config.{Config, default_config, tid_field, max_shards}
use sharded_slab.Slot.Story.{option_clear}
use sharded_slab.Shard.First.{no_shard-Room}
use sharded_slab.Key.{unpack_tid}
use sharded_slab.Shard.Located.{Located}
use sharded_slab.Slab.{slab_get_owned, slab_remove, drop_entry, drop_owned_entry}
use sharded_slab.Slab.Removed.{deferred_slab_remove}
use sharded_slab.Tid.{register, next_id, current}
use sharded_slab.Tid.System.{asks, Reachable, starts, steps}
use sharded_slab.Tid.Unique.{max_id, ids_unique}
use sharded_slab.Shard.Array.{Array, current_shard}
use sharded_slab.Shard.Highest.{Covered, Current, current_shard-Current}

abbrev c : Config
c = default_config

-- Two threads that have asked for their ids.
two_asked : Reachable c false 2 2 (record {
  registry = record { next = 2; free = []; poisoned = false };
  threads = some 0 ∷ some 1 ∷ [];
})
unfolding current register next_id tid_field bits
two_asked = steps (steps starts (asks 0 false refl refl)) (asks 1 false refl refl)

ids_unique_example : (◌≡◌ {A = ℕ} 1 1) × (1 ≤ max_id c false)
ids_unique_example = ids_unique two_asked (omega arith) 1 1 1 refl refl

abbrev lonely : Array ℕ
lonely = record { shards = none ∷ none ∷ []; max = 0 }

no_shard : Covered lonely
no_shard zero shard h = cc
no_shard (suc zero) shard h = cc
no_shard (suc (suc i)) shard h = cc

current_shard-Current_example : Current c 1 lonely (current_shard c 1 ((λ n. n + 1) ∷ []) lonely)
current_shard-Current_example =
    current_shard-Current c 1 ((λ n. n + 1) ∷ []) lonely ((λ n. omega arith), tt) no_shard
      (omega arith)

abbrev pub unused : Slot (Option ℕ)
unused = record {
  lifecycle = encode c (record { state = State.removing; refs = 0; gen = 5 });
  next = null_addr c;
  item = none;
}

abbrev pub free_page : Shared (Option ℕ)
free_page = record {
  remote = record { head = null_addr c; others = [] };
  size = 1;
  prev_sz = 0;
  slab = some (unused ∷ []);
}

abbrev pub free_shard : Shard (Option ℕ)
free_shard = record { tid = 1; local = 0 ∷ []; shared = free_page ∷ [] }

abbrev pub free_slab : Slab ℕ
free_slab = record { shards = none ∷ some free_shard ∷ []; max = 1 }

-- No thread has a shard yet.
abbrev empty_slab : Slab ℕ
empty_slab = record { shards = none ∷ none ∷ []; max = 0 }

shards_default : max_shards c ≡ 4096
unfolding max_shards
shards_default = refl

empty_slab-Room : Room c option_clear 1 empty_slab
empty_slab-Room =
    no_shard-Room default_config-IsConfig option_clear 1 empty_slab refl (omega arith)
      (omega (arith, shards_default))

slab_insert-slab_get_example :
    (key : ℕ) × (slab' : Slab ℕ) × (slab'' : Slab ℕ) × (slab_insert c 1 42
        (λ page. [])
        []
        empty_slab
      ≡ returns (some key, slab'))
    × (slab_get c 2 key [] slab' ≡ returns (some (record { value = 42; key = key }), slab''))
slab_insert-slab_get_example =
    slab_insert-slab_get default_config-IsConfig 1 2 empty_slab empty_slab-Room 42

abbrev whole : UniqueIter ℕ
whole = record { shards = free_slab.shards; pages = []; slots = none }

next-TakesFirst_example : TakesFirst (items whole) (next whole)
next-TakesFirst_example = next-TakesFirst whole

slab_insert-slab_take_example :
    (key : ℕ) × (inserted : Slab ℕ) × (emptied : Slab ℕ) × (after : Slab ℕ) × (slab_insert c 1 42
        (λ page. [])
        []
        empty_slab
      ≡ returns (some key, inserted))
    × (slab_take c 2 key [] inserted ≡ returns (some 42, emptied))
    × (slab_get c 2 key [] emptied ≡ returns (none, after))
slab_insert-slab_take_example =
    slab_insert-slab_take default_config-IsConfig 1 2 2 empty_slab empty_slab-Room 42

deferred_slab_remove_example :
    (key : ℕ) × (made one two marked missed one_left emptied : Slab ℕ) × (slab_insert c 1 42
        (λ page. [])
        []
        empty_slab
      ≡ returns (some key, made))
    × (slab_get c 2 key [] made ≡ returns (some (record { value = 42; key = key }), one))
    × (slab_get_owned c 3 key [] one ≡ returns (some (record { value = 42; key = key }), two))
    × (slab_remove c 4 key [] two ≡ returns (true, marked))
    × (slab_get c 2 key [] marked ≡ returns (none, missed))
    × (drop_entry c 5 (record { value = 42; key = key }) [] [] missed ≡ returns (tt, one_left))
    × ((z : Located c (unpack_tid c key) key one_left) × (z.slot.item ≡ some 42))
    × (drop_owned_entry c 1 (record { value = 42; key = key }) [] [] one_left
        ≡ returns (tt, emptied))
    × ((z : Located c (unpack_tid c key) key emptied) × (z.slot.item ≡ none))
    × (slab_remove c 2 key [] emptied ≡ returns (false, emptied))
deferred_slab_remove_example =
    deferred_slab_remove default_config-IsConfig 1 2 3 4 5 1 2 empty_slab empty_slab-Room 42

free_page-FreeLists : FreeLists c free_page 0 (unused ∷ []) (0 ∷ []) []
free_page-FreeLists = record {
  allocated = refl;
  sized = refl;
  null_outside = omega (arith, null_addr_default);
  local_chain = (refl, (unused, refl, omega (arith, null_addr_default)));
  remote_chain = omega (arith, null_addr_default);
  remote_end = λ e. refl;
  remote_quiet = refl;
  local_distinct = (tt, tt);
  remote_distinct = tt;
  apart = (tt, tt);
}

first_page_index : index c 0 ≡ 0
unfolding index initial_sz addr_index_shift
first_page_index = refl

tid_len : (tid_field c).len ≡ 13
unfolding tid_field
tid_len = refl

free_slab-Room : Room c option_clear 1 free_slab
unfolding current_shard
free_slab-Room = record {
  shard = free_shard;
  current = free_slab;
  fulls = [];
  local = 0;
  locals = [];
  page = free_page;
  pages = [];
  slots = unused ∷ [];
  x = 0;
  remote = record { head = null_addr c; others = [] };
  slot = unused;
  life = record { state = State.removing; refs = 0; gen = 5 };
  found_shard = refl;
  held = refl;
  full = tt;
  locals_eq = refl;
  pages_eq = refl;
  front = own free_page-FreeLists;
  found = refl;
  is_life = record {
    refs_fit = two_pow-pos (ref_count_field c).len;
    gen_fits = omega (arith, ap (λ (t : ℕ). 2 ^ t) gen_len_default);
  };
  word = refl;
  no_refs = refl;
  on_page = first_page_index;
  addr_fits = two_pow-pos (addr_field c).len;
  tid_fits = omega (arith, ap (λ (t : ℕ). 2 ^ t) tid_len);
}

removing-ne-present : State.removing ≢ State.present
removing-ne-present e = absurd cc

vacant_entry-insert_vacant_example :
    (entry : VacantEntry) × (made missed filled found : Slab ℕ) × (vacant_entry c 1
        (λ page. [])
        []
        free_slab
      ≡ returns (some entry, made))
    × (slab_get c 2 entry.key [] made ≡ returns (none, missed))
    × (insert_vacant c 1 entry 42 [] missed ≡ returns (some tt, filled))
    × (slab_get c 3 entry.key [] filled
        ≡ returns (some (record { value = 42; key = entry.key }), found))
unfolding free_slab-Room
vacant_entry-insert_vacant_example =
    vacant_entry-insert_vacant default_config-IsConfig 1 2 3 free_slab free_slab-Room 42
      removing-ne-present

take_leaves_present_example :
    (key next : ℕ) × (inserted emptied : Slab ℕ) × (slab_insert c 1 42 (λ page. []) [] free_slab
      ≡ returns (some key, inserted))
    × (slab_take c 2 key [] inserted ≡ returns (some 42, emptied))
    × (unpack_tid c next ≡ unpack_tid c key)
    × (indices c next ≡ indices c key)
    × (unpack_gen c next ≡ advance c (unpack_gen c key))
    × (slab_get c 3 next [] emptied ≡ panics)
take_leaves_present_example =
    take_leaves_present default_config-IsConfig 1 2 3 free_slab free_slab-Room 42
