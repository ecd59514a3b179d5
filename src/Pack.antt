-- ===== src/Pack.antt =====
-- The trait `Pack` of src/lib.rs: a value in a bit field of a machine word. An implementation is
-- its constants `LEN` and `SHIFT`; `as_usize` and `from_usize` are the identity on the number.
pub mod Laws
pub mod Three
use Prim.Native.Nat.{bit_and, bit_or}
use sharded_slab.Base.{ℕ, ◌+◌, ◌-◌, ◌/◌, ◌^◌}
use sharded_slab.Word.Powers.{shl, complement}

pub record Field : Type 0 where
  pub len : ℕ
  pub shift : ℕ

-- The implementation for `()`, where each chain of fields begins.
abbrev pub unit_field : Field
unit_field = record { len = 0; shift = 0 }

-- A field of `len` bits behind the field `prev`.
abbrev pub field_after : Field → ℕ → Field
field_after prev len = record { len = len; shift = prev.shift + prev.len }

-- `BITS`: the largest value that fits the field.
unfoldable pub bits : Field → ℕ
bits f = let shift = 2 ^ (f.len - 1) in bit_or shift (shift - 1)

-- `MASK`, in a word of `w` bits.
unfoldable pub mask : ℕ → Field → ℕ
unfolding bits
mask w f = shl w (bits f) f.shift

unfoldable pub pack : ℕ → Field → ℕ → ℕ → ℕ
unfolding mask
pack w f value to = bit_or (bit_and to (complement w (mask w f))) (shl w value f.shift)

unfoldable pub from_packed : ℕ → Field → ℕ → ℕ
unfolding mask
from_packed w f from = bit_and from (mask w f) / 2 ^ f.shift
