-- ===== src/Tests.antt =====
-- The properties at concrete inputs: the default configuration on 64 bits, and slots of it.
pub mod Slots
pub mod PageMaps
pub mod Pages
pub mod Slabs
pub mod Pools
pub mod Errors
pub mod Histories
pub mod Stacks
use sharded_slab.Base.{
  ℕ, ◌+◌, ◌-◌, ◌^◌, ◌≤◌, ◌<◌, ◌≡◌, refl, Bool, true, Option, some, none, List, [], ◌∷◌, arith,
}
use sharded_slab.Word.Counts.{leading_zeros, trailing_zeros, count_ones, bit_length}
use sharded_slab.Pack.{bits}
use sharded_slab.Config.{
  Config, default_config, null_addr, next_pow2, initial_sz, max_shards, addr_index_shift,
  addr_field, tid_field, gen_field, ref_count_field, max_refs, used_bits, validate,
}
use sharded_slab.Config.Valid.{IsConfig}

tid_end : (tid_field default_config).shift + (tid_field default_config).len ≡ 51
unfolding tid_field
tid_end = refl

pub gen_len_default : (gen_field default_config).len ≡ 13
unfolding gen_field
gen_len_default = refl

default-validates : validate default_config ≡ true
unfolding validate
default-validates = refl

pub default_config-IsConfig : IsConfig default_config
default_config-IsConfig = record {
  page_size_fits = omega arith;
  some_threads = omega arith;
  threads_fit = omega arith;
  gen_room = omega (arith, tid_end);
  refs_room = omega (arith, gen_len_default);
  validates = default-validates;
}

pub ref_count_len_default : (ref_count_field default_config).len ≡ 49
unfolding ref_count_field
ref_count_len_default = refl

pub null_addr_default : null_addr default_config ≡ 274877906944
unfolding null_addr
null_addr_default = refl
