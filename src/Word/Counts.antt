-- ===== src/Word/Counts.antt =====
-- `leading_zeros`, `trailing_zeros`, `count_ones` of a `w`-bit word.
use native.Mathlib.Nat.{pow-suc}
use sharded_slab.Base.{
  ℕ, zero, suc, ◌+◌, ◌-◌, ◌*◌, ◌/◌, ◌%◌, ◌^◌, ◌≤◌, ◌<◌, ◌≡◌, refl, ap, arith, ◌==◌, if◌then◌else◌,
}
use native.Mathlib.Decide.{dec_lt}
use sharded_slab.Word.Fields.{two_pow-pos}

-- The digits of a number below `2 ^ w`, without leading zeros.
unfoldable pub bit_length : ℕ → ℕ → ℕ
bit_length zero n = 0
bit_length (suc w) n = if n == 0 then 0 else suc (bit_length w (n / 2))

unfoldable pub leading_zeros : ℕ → ℕ → ℕ
unfolding bit_length
leading_zeros w n = w - bit_length w n

unfoldable pub trailing_zeros : ℕ → ℕ → ℕ
trailing_zeros zero n = 0
trailing_zeros (suc w) n = if n % 2 == 1 then 0 else suc (trailing_zeros w (n / 2))

unfoldable pub count_ones : ℕ → ℕ → ℕ
count_ones zero n = 0
count_ones (suc w) n = n % 2 + count_ones w (n / 2)

pub bit_length_zero : (w : ℕ) → bit_length w 0 ≡ 0
unfolding bit_length
bit_length_zero zero = refl
bit_length_zero (suc w) = refl

count_ones_zero : (w : ℕ) → count_ones w 0 ≡ 0
unfolding count_ones
count_ones_zero zero = refl
count_ones_zero (suc w) = omega (arith, count_ones_zero w)

pub bit_length-le : (w n : ℕ) → bit_length w n ≤ w
unfolding bit_length
bit_length-le zero n = omega arith
bit_length-le (suc w) n = ground (arith, bit_length-le w (n / 2))

-- `n` lies between the two powers that its length names.
pub bit_length_upper : (w n : ℕ) → n < 2 ^ w → n < 2 ^ bit_length w n
unfolding bit_length
bit_length_upper zero n h = h
bit_length_upper (suc w) n h =
    ground (arith, pow-suc 2 w, pow-suc 2 (bit_length w (n / 2)), bit_length_upper w (n / 2))

pub bit_length_lower : (w n : ℕ) → n < 2 ^ w → 0 < n → 2 ^ bit_length w n ≤ 2 * n
unfolding bit_length
bit_length_lower zero n h p = absurd (omega arith)
bit_length_lower (suc w) n h p = elim (dec_lt 0 (n / 2)) [
  | yes big ↦
      ground (arith, pow-suc 2 w, pow-suc 2 (bit_length w (n / 2)), bit_length_lower w (n / 2))
  | no small ↦
      let e : n ≡ 1 = omega arith in
      rw (e, bit_length) (omega (arith, ap (λ (t : ℕ). 2 ^ suc t) (bit_length_zero w)))
]

-- The length is the only number with these bounds.
pub bit_length_unique : (w n k : ℕ) → n < 2 ^ w → n < 2 ^ k → 2 ^ k ≤ 2 * n → bit_length w n ≡ k
unfolding bit_length
bit_length_unique zero n k h p q = absurd (omega arith)
bit_length_unique (suc w) n zero h p q = absurd (omega arith)
bit_length_unique (suc w) n (suc zero) h p q =
    let e : n ≡ 1 = omega arith in rw (e, bit_length) (ap suc (bit_length_zero w))
bit_length_unique (suc w) n (suc (suc k)) h p q = ground (
  arith,
  pow-suc 2 w,
  pow-suc 2 (suc k),
  pow-suc 2 k,
  two_pow-pos k,
  bit_length_unique w (n / 2) (suc k),
)

pub trailing_zeros-two_pow : (w k : ℕ) → k < w → trailing_zeros w (2 ^ k) ≡ k
unfolding trailing_zeros
trailing_zeros-two_pow zero k h = elim h [ ]
trailing_zeros-two_pow (suc w) zero h = refl
trailing_zeros-two_pow (suc w) (suc k) h = ground (arith, pow-suc 2 k, trailing_zeros-two_pow w k)

count_ones-pos : (w n : ℕ) → n < 2 ^ w → 0 < n → 0 < count_ones w n
unfolding count_ones
count_ones-pos zero n h p = omega arith
count_ones-pos (suc w) n h p = ground (arith, pow-suc 2 w, count_ones-pos w (n / 2))

halve : (x y : ℕ) → x ≡ y * 2 → x / 2 ≡ y
halve x y h = omega arith

-- One digit is set exactly in the powers of two.
pub count_ones_one : (w n : ℕ) → n < 2 ^ w → count_ones w n ≡ 1 → 2 ^ bit_length w n ≡ 2 * n
unfolding bit_length count_ones
count_ones_one zero n h e = absurd (omega arith)
count_ones_one (suc w) n h e = elim (dec_lt 0 (n % 2)) [
  | yes odd ↦
      let e : n ≡ 1 = ground (arith, pow-suc 2 w, count_ones-pos w (n / 2)) in
      rw (e, bit_length) (ap (λ (t : ℕ). 2 ^ suc t) (bit_length_zero w))
  | no even ↦ ground (
    arith,
    pow-suc 2 w,
    pow-suc 2 (bit_length w (n / 2)),
    count_ones_one w (n / 2),
    count_ones_zero w,
  )
]

pub count_ones-two_pow : (w k : ℕ) → k < w → count_ones w (2 ^ k) ≡ 1
unfolding count_ones
count_ones-two_pow zero k h = elim h [ ]
count_ones-two_pow (suc w) zero h = omega (arith, count_ones_zero w)
count_ones-two_pow (suc w) (suc k) h = omega (
  arith,
  pow-suc 2 k,
  ap (count_ones w) (halve (2 ^ suc k) (2 ^ k) (pow-suc 2 k)),
  count_ones-two_pow w k,
)
