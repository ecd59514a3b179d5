-- ===== src/Tests/Pools.antt =====
-- The properties of the pool (src/pool.rs) at a concrete pool, whose thread's first page is full.
use sharded_slab.Base.{
  List, ℕ, ◌+◌, ◌^◌, ◌≡◌, ◌≢◌, refl, ap, true, false, [], ◌∷◌, none, some, ◌==◌, arith,
}
use sharded_slab.Word.Fields.{two_pow-pos}
use sharded_slab.Config.{
  Config, default_config, null_addr, initial_sz, addr_index_shift, addr_field, tid_field, gen_field,
  ref_count_field, validate,
}
use sharded_slab.Config.Valid.{IsConfig}
use sharded_slab.Key.{unpack_tid, index}
use sharded_slab.Page.Free.{FreeLists}
use sharded_slab.Page.Front.{own}
use sharded_slab.Shard.Array.{current_shard}
use sharded_slab.Lifecycle.{State}
use sharded_slab.Lifecycle.Encode.{encode}
use sharded_slab.Slot.Memory.{Slot, returns, ◌>>=◌}
use sharded_slab.Slot.Ops.{Clear}
use sharded_slab.Page.{Shared}
use sharded_slab.Shard.{Shard}
use sharded_slab.Shard.Room.{Room}
use sharded_slab.Shard.Located.{Located}
use sharded_slab.Shard.Threads.{Heads}
use sharded_slab.Pool.{
  Pool, Ref, RefMut, create, create_owned, pool_get_owned, drop_owned_ref, drop_owned_ref_mut,
  drop_ref_mut, downgrade_owned, create_with, pool_get, pool_clear, deref, deref_mut, drop_ref,
  downgrade_ref,
}
use sharded_slab.Pool.Trip.{create_with-pool_get}
use sharded_slab.Pool.Cleared.{deferred_pool_clear}
use sharded_slab.Pool.Exclusive.{create-downgrade, clear_under_guard}
use sharded_slab.Pool.Owned.{own_mut, own_ref, as_owned_ref, create_owned-create}

-- Pages of one slot, two slots, and so on.
abbrev pub c : Config
c = record default_config { initial_page_size = 1 }

tid_end : (tid_field c).shift + (tid_field c).len ≡ 46
unfolding tid_field
tid_end = refl

gen_len : (gen_field c).len ≡ 18
unfolding gen_field
gen_len = refl

c-validates : validate c ≡ true
unfolding validate
c-validates = refl

pub c-IsConfig : IsConfig c
c-IsConfig = record {
  page_size_fits = omega arith;
  some_threads = omega arith;
  threads_fit = omega arith;
  gen_room = omega (arith, tid_end);
  refs_room = omega (arith, gen_len);
  validates = c-validates;
}

null_addr_value : null_addr c ≡ 8589934592
unfolding null_addr
null_addr_value = refl

addr_len_value : (addr_field c).len ≡ 33
unfolding addr_field
addr_len_value = refl

tid_len : (tid_field c).len ≡ 13
unfolding tid_field
tid_len = refl

second_page : index c 1 ≡ 1
unfolding index initial_sz addr_index_shift
second_page = refl

-- An item that is cleared to 0.
abbrev pub zeroed : Clear ℕ
zeroed = record { clear = λ n. 0; default = 0 }

abbrev pub slot_of : State → ℕ → Slot ℕ
slot_of state next = record {
  lifecycle = encode c (record { state = state; refs = 0; gen = 5 });
  next = next;
  item = 0;
}

-- The one slot of the first page is in use.
abbrev pub used_page : Shared ℕ
used_page = record {
  remote = record { head = null_addr c; others = [] };
  size = 1;
  prev_sz = 0;
  slab = some (slot_of State.present (null_addr c) ∷ []);
}

abbrev free_slots : State → List (Slot ℕ)
free_slots state = slot_of state 1 ∷ slot_of State.removing (null_addr c) ∷ []

abbrev free_page : State → Shared ℕ
free_page state = record {
  remote = record { head = null_addr c; others = [] };
  size = 2;
  prev_sz = 1;
  slab = some (free_slots state);
}

abbrev shard_of : State → Shard ℕ
shard_of state = record {
  tid = 1;
  local = null_addr c ∷ 0 ∷ [];
  shared = used_page ∷ free_page state ∷ [];
}

abbrev pool_of : State → Pool ℕ
pool_of state = record { shards = none ∷ some (shard_of state) ∷ []; max = 1 }

abbrev free_pool : Pool ℕ
free_pool = pool_of State.removing

pub used_page-FreeLists :
    FreeLists c used_page (null_addr c) (slot_of State.present (null_addr c) ∷ []) [] []
used_page-FreeLists = record {
  allocated = refl;
  sized = refl;
  null_outside = omega (arith, null_addr_value);
  local_chain = omega (arith, null_addr_value);
  remote_chain = omega (arith, null_addr_value);
  remote_end = λ e. refl;
  remote_quiet = refl;
  local_distinct = tt;
  remote_distinct = tt;
  apart = tt;
}

free_page-FreeLists :
    (state : State) → FreeLists c (free_page state) 0 (free_slots state) (0 ∷ 1 ∷ []) []
free_page-FreeLists state = record {
  allocated = refl;
  sized = refl;
  null_outside = omega (arith, null_addr_value);
  local_chain = (
    refl,
    (
      slot_of state 1,
      refl,
      (refl, (slot_of State.removing (null_addr c), refl, omega (arith, null_addr_value))),
    ),
  );
  remote_chain = omega (arith, null_addr_value);
  remote_end = λ e. refl;
  remote_quiet = refl;
  local_distinct = (((λ e. omega (arith, e)), tt), (tt, tt));
  remote_distinct = tt;
  apart = (tt, (tt, tt));
}

pool_of-Room : (state : State) → Room c zeroed 1 (pool_of state)
unfolding current_shard
pool_of-Room state = record {
  shard = shard_of state;
  current = pool_of state;
  fulls = (null_addr c, used_page) ∷ [];
  local = 0;
  locals = [];
  page = free_page state;
  pages = [];
  slots = free_slots state;
  x = 0;
  remote = record { head = null_addr c; others = [] };
  slot = slot_of state 1;
  life = record { state = state; refs = 0; gen = 5 };
  found_shard = refl;
  held = refl;
  full = ((slot_of State.present (null_addr c) ∷ [], used_page-FreeLists), tt);
  locals_eq = refl;
  pages_eq = refl;
  front = own (free_page-FreeLists state);
  found = refl;
  is_life = record {
    refs_fit = two_pow-pos (ref_count_field c).len;
    gen_fits = omega (arith, ap (λ (t : ℕ). 2 ^ t) gen_len);
  };
  word = refl;
  no_refs = refl;
  on_page = second_page;
  addr_fits = omega (arith, ap (λ (t : ℕ). 2 ^ t) addr_len_value);
  tid_fits = omega (arith, ap (λ (t : ℕ). 2 ^ t) tid_len);
}

create_with-pool_get_example :
    (key : ℕ) × (ref : Ref) × (made found after : Pool ℕ) × (create_with c zeroed 1
        (λ n. 42)
        (λ page. [])
        []
        []
        []
        []
        free_pool
      ≡ returns (some key, made))
    × (pool_get c key [] made ≡ returns (some ref, found))
    × (deref c ref [] found ≡ returns (some 42, after))
create_with-pool_get_example =
    create_with-pool_get c-IsConfig zeroed 1 free_pool (pool_of-Room State.removing) (λ n. 42)

deferred_pool_clear_example :
    (key : ℕ) × (ref : Ref) × (made held marked missed read dropped after : Pool ℕ) × (create_with c
        zeroed 1
        (λ n. 42)
        (λ page. [])
        []
        []
        []
        []
        free_pool
      ≡ returns (some key, made))
    × (pool_get c key [] made ≡ returns (some ref, held))
    × (pool_clear c zeroed 2 key [] held ≡ returns (true, marked))
    × (pool_get c key [] marked ≡ returns (none, missed))
    × (deref c ref [] missed ≡ returns (some 42, read))
    × (drop_ref c zeroed 3 ref [] [] read ≡ returns (tt, dropped))
    × ((x : Located c (unpack_tid c key) key dropped) × Heads (3 == x.shard.tid) x)
    × (pool_clear c zeroed 1 key [] dropped ≡ returns (false, after))
    × ((z : Located c (unpack_tid c key) key after) × (z.slot.item ≡ 0))
deferred_pool_clear_example =
    deferred_pool_clear c-IsConfig zeroed 1 2 3 1 free_pool (pool_of-Room State.removing) (λ n. 42)

removing-ne-present : State.removing ≢ State.present
removing-ne-present e = absurd cc

create-downgrade_example :
    (guard : RefMut) × (mine theirs : Ref) × (made missed changed shared found after : Pool ℕ)
    × (create c zeroed 1 (λ page. []) [] free_pool ≡ returns (some guard, made))
    × (pool_get c guard.key [] made ≡ returns (none, missed))
    × (deref_mut c guard (λ n. n + 42) [] missed ≡ returns (some tt, changed))
    × (downgrade_ref c zeroed 1 guard [] [] [] changed ≡ returns (some mine, shared))
    × (pool_get c guard.key [] shared ≡ returns (some theirs, found))
    × (deref c theirs [] found ≡ returns (some 42, after))
unfolding pool_of-Room
create-downgrade_example =
    create-downgrade c-IsConfig zeroed 1 free_pool (pool_of-Room State.removing) (λ n. n + 42)
      removing-ne-present

create_owned-create_example :
    (guard : RefMut) × (mine : Ref) × (made shared marked gone : Pool ℕ) × (create c zeroed 1
        (λ page. [])
        []
        free_pool
      ≡ returns (some guard, made))
    × (create_owned c zeroed 1 (λ page. []) [] free_pool ≡ returns (some (own_mut guard), made))
    × (pool_get_owned c guard.key [] made ≡ (pool_get c guard.key [] made >>= as_owned_ref))
    × (drop_owned_ref_mut c zeroed 2 (own_mut guard) [] [] made
        ≡ drop_ref_mut c zeroed 2 guard [] [] made)
    × (downgrade_ref c zeroed 2 guard [] [] [] made ≡ returns (some mine, shared))
    × (downgrade_owned c zeroed 2 (own_mut guard) [] [] [] made
        ≡ returns (some (own_ref mine), shared))
    × (drop_owned_ref c zeroed 2 (own_ref mine) [] [] shared
        ≡ drop_ref c zeroed 2 mine [] [] shared)
    × (pool_clear c zeroed 3 guard.key [] shared ≡ returns (true, marked))
    × (drop_ref c zeroed 2 mine [] [] marked ≡ returns (tt, gone))
    × (drop_owned_ref c zeroed 2 (own_ref mine) [] [] marked ≡ returns (tt, gone))
    × ((y : Located c (unpack_tid c guard.key) guard.key gone) × (y.slot.item ≡ 0))
create_owned-create_example =
    create_owned-create c-IsConfig zeroed 1 2 3 free_pool (pool_of-Room State.removing)

clear_under_guard_example :
    (guard : RefMut) × (made cleared : Pool ℕ) × (create c zeroed 1
        (λ page. [])
        []
        (pool_of State.marked)
      ≡ returns (some guard, made))
    × (pool_clear c zeroed 2 guard.key [] made ≡ returns (true, cleared))
    × ((z : Located c (unpack_tid c guard.key) guard.key cleared) × (z.slot.item ≡ 0))
unfolding pool_of-Room
clear_under_guard_example =
    clear_under_guard c-IsConfig zeroed 1 2 (pool_of State.marked) (pool_of-Room State.marked) refl
