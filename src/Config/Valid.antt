-- ===== src/Config/Valid.antt =====
-- What a configuration that passes `validate` (src/cfg.rs) gives the fields of keys and lifecycles.
use sharded_slab.Base.{
  ℕ, ◌+◌, ◌-◌, ◌^◌, ◌≤◌, ◌<◌, ◌≡◌, refl, ap, ◌∙◌, Bool, true, ◌&&◌, leb, ltb, leb→le, ltb→lt, arith,
}
use sharded_slab.Word.Counts.{trailing_zeros, trailing_zeros-two_pow}
use sharded_slab.Pack.{bits}
use sharded_slab.Pack.Laws.{bits_lem}
use sharded_slab.Pack.Three.{first, second, third, Fits}
use sharded_slab.Config.{
  Config, initial_sz, max_shards, addr_index_shift, addr_field, tid_field, gen_field,
  ref_count_field, lifecycle_gen_field, max_refs, validate,
}
use sharded_slab.Config.Sizes.{Rounded, next_pow2_rounds, two_pow_lt_cancel}

-- The widths of the fields, as the constants `LEN` give them.
module _ (c : Config) where
  pub addr_len : (addr_field c).len ≡ c.max_pages + addr_index_shift c
  unfolding addr_field
  addr_len = refl

  pub tid_len : (tid_field c).len ≡ trailing_zeros c.width (max_shards c) + 1
  unfolding tid_field
  tid_len = refl

  pub tid_shift : (tid_field c).shift ≡ 0 + (addr_field c).len
  unfolding tid_field
  tid_shift = refl

  pub gen_len :
      (gen_field c).len ≡ c.width - c.reserved_bits - ((tid_field c).shift + (tid_field c).len)
  unfolding gen_field
  gen_len = refl

  ref_count_len : (ref_count_field c).len ≡ c.width - (2 + (gen_field c).len)
  unfolding ref_count_field
  ref_count_len = refl

and_parts :
    (p q r s t u : Bool) → (p && (q && (r && (s && (t && u))))) ≡ true → (r ≡ true) × (u ≡ true)
and_parts p q r s t u h = ground arith

-- The constants evaluate with no overflow, which the compiler refuses, and `validate` passes.
pub record IsConfig (c : Config) : Type 0 where
  pub page_size_fits : c.initial_page_size ≤ 2 ^ (c.width - 1)
  pub some_threads : 1 ≤ c.max_threads
  pub threads_fit : c.max_threads - 1 ≤ 2 ^ (c.width - 1)
  pub gen_room : c.reserved_bits + ((tid_field c).shift + (tid_field c).len) < c.width
  pub refs_room : 2 + (gen_field c).len < c.width
  pub validates : validate c ≡ true

module _ {c : Config} (v : IsConfig c) where
  open v use {page_size_fits, some_threads, threads_fit, gen_room, refs_room, validates}

  pub page_rounded : Rounded c.width c.initial_page_size
  page_rounded = next_pow2_rounds c.width c.initial_page_size (omega arith) page_size_fits

  pub threads_rounded : Rounded c.width (c.max_threads - 1)
  threads_rounded = next_pow2_rounds c.width (c.max_threads - 1) (omega arith) threads_fit

  pub initial_sz_lem : initial_sz c ≡ 2 ^ page_rounded.exponent
  unfolding initial_sz
  initial_sz_lem = page_rounded.value

  pub max_shards_lem : max_shards c ≡ 2 ^ threads_rounded.exponent
  unfolding max_shards
  max_shards_lem = threads_rounded.value

  pub trailing_zeros-max_shards : trailing_zeros c.width (max_shards c) ≡ threads_rounded.exponent
  trailing_zeros-max_shards =
      ap (trailing_zeros c.width) max_shards_lem
      ∙ trailing_zeros-two_pow c.width threads_rounded.exponent threads_rounded.in_word

  pub addr_index_shift_lem : addr_index_shift c ≡ page_rounded.exponent + 1
  unfolding addr_index_shift initial_sz
  addr_index_shift_lem =
      ap (λ (t : ℕ). t + 1)
        (ap (trailing_zeros c.width) page_rounded.value
          ∙ trailing_zeros-two_pow c.width page_rounded.exponent page_rounded.in_word)

  asserted : (leb 3 (bits (gen_field c)) ≡ true) × (ltb 1 (max_refs c) ≡ true)
  unfolding validate
  asserted = and_parts _ _ _ _ _ _ validates

  max_refs_lem : max_refs c ≡ bits (ref_count_field c) - 1
  unfolding max_refs
  max_refs_lem = refl

  pub gen_bits : 2 ≤ (gen_field c).len
  gen_bits = two_pow_lt_cancel 1 (gen_field c).len (
      omega (
        arith,
        bits_lem (gen_field c) (omega (arith, gen_len c)),
        leb→le 3 (bits (gen_field c)) asserted.0,
      ))

  pub ref_bits : 2 ≤ (ref_count_field c).len
  ref_bits = two_pow_lt_cancel 1 (ref_count_field c).len (
      omega (
        arith,
        bits_lem (ref_count_field c) (omega (arith, ref_count_len c)),
        ltb→lt 1 (max_refs c) asserted.1,
        max_refs_lem,
      ))

  pub key_Fits : Fits c.width (addr_field c).len (tid_field c).len (gen_field c).len
  key_Fits = record {
    some_low = omega (arith, addr_len c, addr_index_shift_lem);
    some_mid = omega (arith, tid_len c);
    some_high = omega (arith, gen_bits);
    all_inside = omega (arith, gen_len c, tid_shift c);
  }

  pub lifecycle_Fits : Fits c.width 2 (ref_count_field c).len (gen_field c).len
  lifecycle_Fits = record {
    some_low = omega arith;
    some_mid = omega (arith, ref_bits);
    some_high = omega (arith, gen_bits);
    all_inside = omega (arith, ref_count_len c);
  }

-- The fields as three in a row.
module _ (c : Config) where
  pub addr_field_lem : addr_field c ≡ first (addr_field c).len
  unfolding addr_field
  addr_field_lem = refl

  pub tid_field_lem : tid_field c ≡ second (addr_field c).len (tid_field c).len
  unfolding tid_field
  tid_field_lem = refl

  pub gen_field_lem : gen_field c ≡ third (addr_field c).len (tid_field c).len (gen_field c).len
  unfolding gen_field
  gen_field_lem = refl

  pub ref_count_field_lem : ref_count_field c ≡ second 2 (ref_count_field c).len
  unfolding ref_count_field
  ref_count_field_lem = refl

  pub lifecycle_gen_field_lem :
      lifecycle_gen_field c ≡ third 2 (ref_count_field c).len (gen_field c).len
  unfolding lifecycle_gen_field
  lifecycle_gen_field_lem = refl
