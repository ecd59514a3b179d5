-- ===== src/Tests/Errors.antt =====
-- The answers to keys that nothing stands for, and of shards that are full (src/lib.rs,
-- src/pool.rs), at concrete inputs.
use sharded_slab.Base.{ℕ, ◌^◌, ◌≡◌, ◌≢◌, refl, ap, get_elem?, false, [], ◌∷◌, none, arith}
use sharded_slab.Config.{
  Config, default_config, addr_field, tid_field, gen_field, initial_sz, addr_index_shift,
}
use sharded_slab.Pack.{pack, from_packed}
use sharded_slab.Key.{insert_key, unpack_addr, unpack_tid, unpack_gen, index, indices}
use sharded_slab.Lifecycle.{State}
use sharded_slab.Slot.Memory.{returns}
use sharded_slab.Slot.Lives.{life, no_ref-IsLife}
use sharded_slab.Shard.Array.{get_shard}
use sharded_slab.Shard.Located.{Located}
use sharded_slab.Shard.Refused.{Refuses, absent, stale, no_shard}
use sharded_slab.Slab.{slab_get, slab_get_owned, slab_take, slab_remove, contains}
use sharded_slab.Slab.Refused.{slab_refused}
use sharded_slab.Pool.{Pool, pool_get, pool_get_owned, pool_clear}
use sharded_slab.Pool.Refused.{pool_refused}
use sharded_slab.Tests.{default_config-IsConfig, gen_len_default}
use sharded_slab.Tests.Slabs.{free_slab, free_shard, free_page, unused}
use sharded_slab.Tests.Pools.{c as small, c-IsConfig as small-IsConfig, zeroed}

abbrev c : Config
c = default_config

-- The first slot of the thread 1, whose generation is 5, under the generation 3.
abbrev old_key : ℕ
old_key = insert_key c 1 3 0

old_key-indices : indices c old_key ≡ (0, 0)
unfolding indices insert_key unpack_addr index pack from_packed addr_field tid_field gen_field
    initial_sz addr_index_shift
old_key-indices = refl

old_key-tid : unpack_tid c old_key ≡ 1
unfolding insert_key unpack_tid pack from_packed tid_field gen_field
old_key-tid = refl

old_key-gen : unpack_gen c old_key ≡ 3
unfolding insert_key unpack_gen pack from_packed tid_field gen_field
old_key-gen = refl

abbrev old_slot : Located c (unpack_tid c old_key) old_key free_slab
old_slot = record {
  shard = free_shard;
  held = ap (get_elem? free_slab.shards) old_key-tid;
  addr = 0;
  page_index = 0;
  split = old_key-indices;
  page = free_page;
  paged = refl;
  local = 0;
  listed = refl;
  slots = unused ∷ [];
  allocated = refl;
  slot = unused;
  found = refl;
}

other_generation : unpack_gen c old_key ≢ 5
other_generation e = omega (arith, e, old_key-gen)

old_key-Refuses : Refuses c (unpack_tid c old_key) old_key free_slab
old_key-Refuses =
    stale old_slot (life State.removing 0 5)
      (no_ref-IsLife default_config-IsConfig State.removing 5
        (omega (arith, ap (λ (t : ℕ). 2 ^ t) gen_len_default)))
      refl other_generation

slab_refused_example :
    (slab_get c 2 old_key [] free_slab ≡ returns (none, free_slab))
    × (slab_get_owned c 2 old_key [] free_slab ≡ returns (none, free_slab))
    × (slab_take c 2 old_key [] free_slab ≡ returns (none, free_slab))
    × (slab_remove c 2 old_key [] free_slab ≡ returns (false, free_slab))
    × (contains c 2 old_key [] [] [] free_slab ≡ returns (false, free_slab))
slab_refused_example =
    slab_refused default_config-IsConfig 2 {key = old_key} {slab = free_slab} old_key-Refuses

-- The thread 0 has no shard.
abbrev lone_pool : Pool ℕ
lone_pool = record { shards = none ∷ []; max = 0 }

tid_of_zero : unpack_tid small 0 ≡ 0
unfolding unpack_tid from_packed tid_field
tid_of_zero = refl

zero_key-Refuses : Refuses small (unpack_tid small 0) 0 lone_pool
unfolding get_shard
zero_key-Refuses = absent (no_shard (ap (λ i. get_shard i lone_pool) tid_of_zero))

pool_refused_example :
    (pool_get small 0 [] lone_pool ≡ returns (none, lone_pool))
    × (pool_get_owned small 0 [] lone_pool ≡ returns (none, lone_pool))
    × (pool_clear small zeroed 2 0 [] lone_pool ≡ returns (false, lone_pool))
pool_refused_example =
    pool_refused small-IsConfig {key = 0} {pool = lone_pool} zeroed 2 zero_key-Refuses
