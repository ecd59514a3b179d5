-- ===== src/Key/Bounds.antt =====
-- What is unpacked from a key (src/cfg.rs), whichever key it is.
use Prim.Native.Nat.{bit_and}
use native.Mathlib.Nat.{mod-eq_of_lt}
use sharded_slab.Base.{ℕ, ◌-◌, ◌*◌, ◌/◌, ◌%◌, ◌^◌, ◌<◌, ◌≡◌, ap, arith}
use sharded_slab.Word.Fields.{bit_and-le, two_pow-pos}
use sharded_slab.Word.Powers.{two_pow_mono}
use sharded_slab.Pack.{bits, from_packed}
use sharded_slab.Pack.Laws.{bits_lem}
use sharded_slab.Config.{Config, addr_field}
use sharded_slab.Config.Valid.{IsConfig, key_Fits, addr_field_lem}
use sharded_slab.Key.{unpack_addr}

module _ {c : Config} (v : IsConfig c) (key : ℕ) where
  no_shift : (addr_field c).shift ≡ 0
  no_shift = ap (λ f. f.shift) (addr_field_lem c)

  -- Whatever is masked with the field's bits fits it.
  masked :
      (m : ℕ)
      → m ≡ 2 ^ (addr_field c).len - 1
      → bit_and key (m * 2 ^ 0 % 2 ^ c.width) / 2 ^ 0 < 2 ^ (addr_field c).len
  masked m e =
      let unit : m * 2 ^ 0 ≡ m = omega arith in
      let whole : m % 2 ^ c.width ≡ m = mod-eq_of_lt (
        omega (
          arith,
          e,
          two_pow-pos (addr_field c).len,
          two_pow_mono {a = (addr_field c).len} {b = c.width}
              (omega (arith, (key_Fits v).all_inside)),
        )) in
      rw (unit, whole) (omega (arith, bit_and-le key m, e, two_pow-pos (addr_field c).len))

  -- An address fits its field.
  pub unpack_addr-lt : unpack_addr c key < 2 ^ (addr_field c).len
  unfolding unpack_addr from_packed
  unpack_addr-lt =
      rw no_shift (masked (bits (addr_field c)) (bits_lem (addr_field c) (key_Fits v).some_low))
