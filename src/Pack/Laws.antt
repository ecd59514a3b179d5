-- ===== src/Pack/Laws.antt =====
-- What `pack` and `from_packed` (src/lib.rs) do to a word that is split at the field's ends.
use Prim.Native.Nat.{bit_and, bit_or}
use native.Mathlib.Nat.{pow-suc, mod-eq_of_lt}
use sharded_slab.Base.{ℕ, suc, ◌+◌, ◌-◌, ◌*◌, ◌/◌, ◌^◌, ◌≤◌, ◌<◌, ◌≡◌, ap, arith}
use sharded_slab.Word.Fields.{
  two_pow-pos, bit_and_shifted, bit_and_low, bit_and_apart, bit_and_complement, bit_or-add-bit_and,
}
use sharded_slab.Word.Powers.{shl, complement, two_pow-add, two_pow_mono, mul_lt_mul}
use sharded_slab.Pack.{Field, bits, mask, pack, from_packed}

ones_or : (s : ℕ) → bit_or (2 ^ s) (2 ^ s - 1) ≡ 2 ^ suc s - 1
ones_or s = omega (arith, bit_or-add-bit_and (2 ^ s) (2 ^ s - 1), apart, two_pow-pos s, pow-suc 2 s)
  where
    apart : bit_and (2 ^ s) (2 ^ s - 1) ≡ 0
    apart =
        let e : 1 * 2 ^ s ≡ 2 ^ s = omega arith in
        rw e at (bit_and_apart s 1 (2 ^ s - 1) (omega (arith, two_pow-pos s)))

suc_pred : (n : ℕ) → 1 ≤ n → suc (n - 1) ≡ n
suc_pred n h = omega arith

-- The largest value of a field has all its bits set.
pub bits_lem : (f : Field) → 1 ≤ f.len → bits f ≡ 2 ^ f.len - 1
unfolding bits
bits_lem f h = omega (arith, ones_or (f.len - 1), ap (λ (t : ℕ). 2 ^ t) (suc_pred f.len h))

mul-div : (x k : ℕ) → 1 ≤ k → x * k / k ≡ x
mul-div x k h = grind arith

-- A field inside the word, and the word in three parts: what is below, the field, what is above.
pub record Split (w : ℕ) (f : Field) (lo v hi : ℕ) : Type 0 where
  pub some_bits : 1 ≤ f.len
  pub inside : f.shift + f.len ≤ w
  pub lo_fits : lo < 2 ^ f.shift
  pub v_fits : v < 2 ^ f.len
  pub word_fits : lo + (v + hi * 2 ^ f.len) * 2 ^ f.shift < 2 ^ w

-- The word that the parts make up.
abbrev pub word : Field → ℕ → ℕ → ℕ → ℕ
word f lo v hi = lo + (v + hi * 2 ^ f.len) * 2 ^ f.shift

module _ {w : ℕ} {f : Field} {lo v hi : ℕ} (s : Split w f lo v hi) where
  open s use {some_bits, inside, lo_fits, v_fits, word_fits}

  value_fits : (x : ℕ) → x < 2 ^ f.len → x * 2 ^ f.shift < 2 ^ w
  value_fits x h =
      let p : x * 2 ^ f.shift < 2 ^ f.len * 2 ^ f.shift =
        mul_lt_mul x (2 ^ f.len) (2 ^ f.shift) (2 ^ f.shift) h (two_pow-pos f.shift)
          (omega arith) in
      omega
        (arith, two_pow-add f.len f.shift, two_pow_mono {a = f.len + f.shift} {b = w} (omega arith))

  shl-value : (x : ℕ) → x < 2 ^ f.len → shl w x f.shift ≡ x * 2 ^ f.shift
  shl-value x h = mod-eq_of_lt (value_fits x h)

  mask_lem : mask w f ≡ (2 ^ f.len - 1) * 2 ^ f.shift
  unfolding mask
  mask_lem =
      rw (bits_lem f some_bits) (shl-value (2 ^ f.len - 1) (omega (arith, two_pow-pos f.len)))

  bit_and-mask : bit_and (word f lo v hi) (mask w f) ≡ v * 2 ^ f.shift
  bit_and-mask = rw (
    mask_lem,
    bit_and_shifted f.shift lo (v + hi * 2 ^ f.len) (2 ^ f.len - 1) lo_fits,
    bit_and_low f.len v hi v_fits,
  )

  pub from_packed-word : from_packed w f (word f lo v hi) ≡ v
  unfolding from_packed
  from_packed-word = rw bit_and-mask (mul-div v (2 ^ f.shift) (two_pow-pos f.shift))

  cleared : bit_and (word f lo v hi) (complement w (mask w f)) ≡ word f lo 0 hi
  cleared = omega (
    arith,
    bit_and_complement w (word f lo v hi) (mask w f) word_fits
        (omega (arith, mask_lem, value_fits (2 ^ f.len - 1) (omega (arith, two_pow-pos f.len)))),
    bit_and-mask,
  )

  -- Under the cleared field the value meets no digit.
  apart : (x : ℕ) → x < 2 ^ f.len → bit_and (word f lo 0 hi) (x * 2 ^ f.shift) ≡ 0
  apart x h =
      let e : 0 + hi * 2 ^ f.len ≡ hi * 2 ^ f.len = omega arith in
      rw (bit_and_shifted f.shift lo (0 + hi * 2 ^ f.len) x lo_fits, e, bit_and_apart f.len hi x h)
        (omega arith)

  pub pack-word : (x : ℕ) → x < 2 ^ f.len → pack w f x (word f lo v hi) ≡ word f lo x hi
  unfolding pack
  pack-word x h =
      rw (cleared, shl-value x h)
        (omega (arith, bit_or-add-bit_and (word f lo 0 hi) (x * 2 ^ f.shift), apart x h))
