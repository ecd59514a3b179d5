-- ===== src/Config.antt =====
-- src/cfg.rs, with the constants of `Pack` that src/page/mod.rs, src/tid.rs and src/page/slot.rs
-- compute from a configuration.
pub mod Sizes
pub mod Valid
pub mod Shards
use sharded_slab.Base.{
  ℕ, ◌+◌, ◌-◌, ◌*◌, ◌%◌, ◌^◌, ◌<◌, ◌≡◌, Bool, true, false, ◌&&◌, leb, ltb, ◌==◌, if◌then◌else◌,
}
use sharded_slab.Word.Powers.{shl}
use sharded_slab.Word.Counts.{leading_zeros, trailing_zeros, count_ones}
use sharded_slab.Pack.{Field, unit_field, field_after, bits}

-- An implementation of the trait `Config`, with the pointer width of the target, `WIDTH`.
pub record Config : Type 0 where
  pub width : ℕ
  pub max_threads : ℕ
  pub max_pages : ℕ
  pub initial_page_size : ℕ
  pub reserved_bits : ℕ

-- `pow2 as usize` is 1 for `true`.
unfoldable pub next_pow2 : ℕ → ℕ → ℕ
unfolding leading_zeros count_ones
next_pow2 w n =
    let pow2 = if count_ones w n == 1 then 1 else 0 in shl w 1 (w - leading_zeros w n - pow2)

unfoldable pub initial_sz : Config → ℕ
unfolding next_pow2
initial_sz c = next_pow2 c.width c.initial_page_size

unfoldable pub max_shards : Config → ℕ
unfolding next_pow2
max_shards c = next_pow2 c.width (c.max_threads - 1)

unfoldable pub addr_index_shift : Config → ℕ
unfolding initial_sz trailing_zeros
addr_index_shift c = trailing_zeros c.width (initial_sz c) + 1

unfoldable pub page_size : Config → ℕ → ℕ
unfolding initial_sz
page_size c n = initial_sz c * 2 ^ n % 2 ^ c.width

-- The fields of a key: the address, the thread and the generation, from the lowest bit up.
unfoldable pub addr_field : Config → Field
unfolding addr_index_shift
addr_field c = field_after unit_field (c.max_pages + addr_index_shift c)

unfoldable pub tid_field : Config → Field
unfolding addr_field max_shards trailing_zeros
tid_field c = field_after (addr_field c) (trailing_zeros c.width (max_shards c) + 1)

unfoldable pub gen_field : Config → Field
unfolding tid_field
gen_field c =
    let prev = tid_field c in field_after prev (c.width - c.reserved_bits - (prev.shift + prev.len))

-- The fields of a slot's lifecycle word: its state, the references and the generation.
abbrev pub lifecycle_field : Field
lifecycle_field = field_after unit_field 2

unfoldable pub ref_count_field : Config → Field
unfolding gen_field
ref_count_field c =
    field_after lifecycle_field (c.width - (lifecycle_field.len + (gen_field c).len))

unfoldable pub lifecycle_gen_field : Config → Field
unfolding ref_count_field
lifecycle_gen_field c = field_after (ref_count_field c) (gen_field c).len

-- `RefCount::MAX`
unfoldable pub max_refs : Config → ℕ
unfolding ref_count_field bits
max_refs c = bits (ref_count_field c) - 1

-- `Addr::NULL`: the end of a free list.
unfoldable pub null_addr : Config → ℕ
unfolding addr_field bits
null_addr c = bits (addr_field c) + 1

unfoldable pub used_bits : Config → ℕ
unfolding gen_field
used_bits c = (gen_field c).len + (gen_field c).shift

-- The assertions of `validate`, in their order; `false` is a panic.
unfoldable pub validate : Config → Bool
unfolding initial_sz addr_field gen_field used_bits max_refs bits count_ones
validate c =
    count_ones c.width (initial_sz c) == 1
    && (leb (initial_sz c) (bits (addr_field c))
        && (leb 3 (bits (gen_field c))
            && (leb (used_bits c) c.width
                && (leb c.reserved_bits (c.width - used_bits c) && ltb 1 (max_refs c)))))

abbrev pub default_config : Config
default_config = record {
  width = 64;
  max_threads = 4096;
  max_pages = 32;
  initial_page_size = 32;
  reserved_bits = 0;
}
