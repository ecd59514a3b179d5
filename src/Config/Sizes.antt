-- ===== src/Config/Sizes.antt =====
-- The powers of two that src/cfg.rs rounds the sizes to.
use native.Mathlib.Nat.{pow-suc, mod-eq_of_lt, sub-zero}
use sharded_slab.Base.{
  ℕ, suc, ◌-◌, ◌*◌, ◌^◌, ◌≤◌, ◌<◌, ◌≡◌, ◌≢◌, ap, subst, ◌⊎◌, inl, inr, false, ◌==◌, Bool-cases,
  ==→eq, arith,
}
use native.Mathlib.Decide.{dec_lt}
use sharded_slab.Word.Fields.{two_pow-pos}
use sharded_slab.Word.Powers.{shl, two_pow_mono}
use sharded_slab.Word.Counts.{
  bit_length, leading_zeros, count_ones, bit_length-le, bit_length_upper, bit_length_lower,
  count_ones_one, count_ones-two_pow, bit_length_zero,
}
use sharded_slab.Config.{next_pow2}

-- An exponent of `next_pow2`: the least power of two that is not below `n`.
pub record Rounded (w n : ℕ) : Type 0 where
  pub exponent : ℕ
  pub in_word : exponent < w
  pub value : next_pow2 w n ≡ 2 ^ exponent
  pub covers : n ≤ 2 ^ exponent
  pub least : (n ≡ 0) ⊎ (2 ^ exponent < 2 * n)

pub two_pow_lt_cancel : (a b : ℕ) → 2 ^ a < 2 ^ b → a < b
two_pow_lt_cancel a b h = elim (dec_lt a b) [
  | yes less ↦ less
  | no more ↦ absurd (omega (arith, two_pow_mono {a = b} {b = a} (omega arith)))
]

two_pow_pred : (w : ℕ) → 1 ≤ w → 2 * 2 ^ (w - 1) ≡ 2 ^ w
two_pow_pred w h =
    let e : w ≡ suc (w - 1) = omega arith in
    omega (arith, pow-suc 2 (w - 1), ap (λ (t : ℕ). 2 ^ t) e)

shl_one : (w e : ℕ) → e < w → shl w 1 e ≡ 2 ^ e
shl_one w e h =
    let p : 1 * 2 ^ e ≡ 2 ^ e = omega arith in
    rw p
      (mod-eq_of_lt (omega (arith, pow-suc 2 e, two_pow-pos e, two_pow_mono {a = suc e} {b = w} h)))

module _ (w n : ℕ) (some_width : 1 ≤ w) (fits : n ≤ 2 ^ (w - 1)) where
  abbrev length : ℕ
  length = bit_length w n

  below : n < 2 ^ w
  below = omega (arith, two_pow_pred w some_width, two_pow-pos (w - 1))

  shift_back : (p : ℕ) → w - leading_zeros w n - p ≡ length - p
  unfolding leading_zeros
  shift_back p = omega (arith, bit_length-le w n)

  -- The power below the length is `n` exactly when one digit is set.
  half : 2 ^ length ≡ 2 * n → (1 ≤ length) × (2 ^ (length - 1) ≡ n)
  half double = (some_length, omega (arith, two_pow_pred length some_length, double))
    where
      some_length : 1 ≤ length
      some_length = elim (dec_lt 0 length) [
        | yes some ↦ some
        | no none ↦
            let e : length ≡ 0 = omega arith in
            absurd (omega (arith, double, ap (λ (t : ℕ). 2 ^ t) e))
      ]

  rounded_power : count_ones w n ≡ 1 → Rounded w n
  unfolding next_pow2
  rounded_power one =
      let (some_length, power) = half (count_ones_one w n below one) in
      let short : length - 1 < w = omega (arith, bit_length-le w n) in
      record {
        exponent = length - 1;
        in_word = short;
        value = rw (one, shift_back 1) (shl_one w (length - 1) short);
        covers = omega (arith, power);
        least = inr (omega (arith, power, two_pow-pos (length - 1)));
      }

  not_double : (count_ones w n == 1) ≡ false → 2 ^ length ≢ 2 * n
  not_double other double =
      let (some_length, power) = half double in
      let short : length - 1 < w = omega (arith, bit_length-le w n) in
      let one : count_ones w n ≡ 1 =
        subst (λ x. count_ones w x ≡ 1) power (count_ones-two_pow w (length - 1) short) in
      ground (arith, one)

  least_other : (count_ones w n == 1) ≡ false → (n ≡ 0) ⊎ (2 ^ length < 2 * n)
  least_other other = elim (dec_lt 0 n) [
    | yes some ↦ inr (omega (arith, not_double other, bit_length_lower w n below some))
    | no none ↦ inl (omega arith)
  ]

  length-lt : (count_ones w n == 1) ≡ false → length < w
  length-lt other = elim (least_other other) [
    | inl e ↦ rw e (omega (arith, bit_length_zero w))
    | inr less ↦ two_pow_lt_cancel length w (omega (arith, two_pow_pred w some_width))
  ]

  rounded_other : (count_ones w n == 1) ≡ false → Rounded w n
  unfolding next_pow2
  rounded_other other = record {
    exponent = length;
    in_word = length-lt other;
    value = rw (other, shift_back 0, sub-zero) (shl_one w length (length-lt other));
    covers = omega (arith, bit_length_upper w n below);
    least = least_other other;
  }

  -- `next_pow2` rounds up to a power of two, and no further than needed.
  pub next_pow2_rounds : Rounded w n
  next_pow2_rounds = elim (Bool-cases (count_ones w n == 1)) [
    | inl one ↦ rounded_power (==→eq _ _ one)
    | inr other ↦ rounded_other other
  ]
