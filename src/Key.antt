-- ===== src/Key.antt =====
-- Keys: how src/cfg.rs takes a key apart, how `Slab::insert` and `Slab::vacant_entry` (src/lib.rs)
-- put one together, and which page an address stands for (src/page/mod.rs, src/shard.rs).
pub mod Bounds
pub mod Packing
pub mod Pages
use sharded_slab.Base.{ℕ, zero, suc, ◌+◌, ◌-◌, ◌/◌, ◌%◌, ◌^◌, List, [], ◌∷◌}
use sharded_slab.Word.Counts.{leading_zeros}
use sharded_slab.Pack.{pack, from_packed}
use sharded_slab.Config.{
  Config, initial_sz, addr_index_shift, page_size, addr_field, tid_field, gen_field,
}

unfoldable pub unpack_addr : Config → ℕ → ℕ
unpack_addr c packed = from_packed c.width (addr_field c) packed

unfoldable pub unpack_tid : Config → ℕ → ℕ
unpack_tid c packed = from_packed c.width (tid_field c) packed

unfoldable pub unpack_gen : Config → ℕ → ℕ
unpack_gen c packed = from_packed c.width (gen_field c) packed

-- The key of `Slab::insert`: the generation goes in within the page, the thread at the end.
unfoldable pub insert_key : Config → ℕ → ℕ → ℕ → ℕ
insert_key c tid gen idx = pack c.width (tid_field c) tid (pack c.width (gen_field c) gen idx)

-- The key of `Slab::vacant_entry`: the thread first.
unfoldable pub vacant_key : Config → ℕ → ℕ → ℕ → ℕ
vacant_key c tid gen idx = pack c.width (gen_field c) gen (pack c.width (tid_field c) tid idx)

-- `Addr::index`
unfoldable pub index : Config → ℕ → ℕ
unfolding leading_zeros
index c addr =
    let shifted = (addr + initial_sz c) % 2 ^ c.width / 2 ^ addr_index_shift c in
    c.width - leading_zeros c.width shifted

-- `page::indices`
unfoldable pub indices : Config → ℕ → ℕ × ℕ
unfolding unpack_addr index
indices c idx = let addr = unpack_addr c idx in (addr, index c addr)

pub record PageSize : Type 0 where
  pub size : ℕ
  pub prev_sz : ℕ

-- The loop of `Shard::new` over `count` pages from `page_num`, with the sum of the sizes so far.
unfoldable pub new_sizes : Config → ℕ → ℕ → ℕ → List PageSize
new_sizes c zero page_num total_sz = []
new_sizes c (suc count) page_num total_sz =
    let sz = page_size c page_num in
    record { size = sz; prev_sz = total_sz }
    ∷ new_sizes c count (page_num + 1) ((total_sz + sz) % 2 ^ c.width)
