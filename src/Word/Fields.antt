-- ===== src/Word/Fields.antt =====
-- `&` with a mask, with its complement, and `|` of what does not overlap, at every width.
use Prim.Native.Nat.{bit_and, bit_or}
use native.Mathlib.Nat.{pow-suc}
use sharded_slab.Base.{ℕ, zero, suc, ◌+◌, ◌-◌, ◌*◌, ◌/◌, ◌^◌, ◌≤◌, ◌<◌, ◌≡◌, ap, arith}
use sharded_slab.Word.Digits.{bit_and_digit, bit_or_digit, bit_and_zero_left, bit_or_zero_left}

mul-two_pow_suc : (q k : ℕ) → q * 2 ^ suc k ≡ 2 * (q * 2 ^ k)
mul-two_pow_suc q k = omega (arith, ap (λ (t : ℕ). q * t) (pow-suc 2 k))

pub two_pow-pos : (k : ℕ) → 1 ≤ 2 ^ k
two_pow-pos zero = omega arith
two_pow-pos (suc k) = omega (arith, pow-suc 2 k, two_pow-pos k)

and_zero_fuel : (n a : ℕ) → a ≤ n → bit_and a 0 ≡ 0
and_zero_fuel zero a h = let e : a ≡ 0 = omega arith in rw e (bit_and_zero_left 0)
and_zero_fuel (suc n) a h = ground (arith, bit_and_digit a 0, and_zero_fuel n (a / 2))

bit_and_zero_right : (a : ℕ) → bit_and a 0 ≡ 0
bit_and_zero_right a = and_zero_fuel a a (omega arith)

-- Digits below the mask do not count.
pub bit_and_shifted :
    (k lo y m : ℕ) → lo < 2 ^ k → bit_and (lo + y * 2 ^ k) (m * 2 ^ k) ≡ bit_and y m * 2 ^ k
bit_and_shifted zero lo y m h =
    let e : lo + y * 1 ≡ y = omega arith in
    let f : m * 1 ≡ m = omega arith in rw (e, f) (omega arith)
bit_and_shifted (suc k) lo y m h = ground (
  arith,
  bit_and_digit (lo + y * 2 ^ suc k) (m * 2 ^ suc k),
  mul-two_pow_suc y k,
  mul-two_pow_suc m k,
  mul-two_pow_suc (bit_and y m) k,
  pow-suc 2 k,
  bit_and_shifted k (lo / 2) y m (omega (arith, pow-suc 2 k)),
)

-- A mask of the `k` lowest digits keeps those.
pub bit_and_low : (k f h : ℕ) → f < 2 ^ k → bit_and (f + h * 2 ^ k) (2 ^ k - 1) ≡ f
bit_and_low zero f h p = omega (arith, bit_and_zero_right (f + h * 1))
bit_and_low (suc k) f h p = ground (
  arith,
  bit_and_digit (f + h * 2 ^ suc k) (2 ^ suc k - 1),
  mul-two_pow_suc h k,
  pow-suc 2 k,
  two_pow-pos k,
  bit_and_low k (f / 2) h (omega (arith, pow-suc 2 k)),
)

-- Digits above `v` do not meet it.
pub bit_and_apart : (k h v : ℕ) → v < 2 ^ k → bit_and (h * 2 ^ k) v ≡ 0
bit_and_apart zero h v p = let e : v ≡ 0 = omega arith in rw e (bit_and_zero_right (h * 1))
bit_and_apart (suc k) h v p = ground (
  arith,
  bit_and_digit (h * 2 ^ suc k) v,
  mul-two_pow_suc h k,
  pow-suc 2 k,
  bit_and_apart k h (v / 2) (omega (arith, pow-suc 2 k)),
)

-- A mask and its complement split a word.
pub bit_and_complement :
    (w x m : ℕ) → x < 2 ^ w → m < 2 ^ w → bit_and x (2 ^ w - 1 - m) + bit_and x m ≡ x
bit_and_complement zero x m p q =
    let e : x ≡ 0 = omega arith in
    rw e (omega (arith, bit_and_zero_left (0 - m), bit_and_zero_left m))
bit_and_complement (suc w) x m p q = ground (
  arith,
  bit_and_digit x (2 ^ suc w - 1 - m),
  bit_and_digit x m,
  pow-suc 2 w,
  two_pow-pos w,
  bit_and_complement w (x / 2) (m / 2) (omega (arith, pow-suc 2 w)) (omega (arith, pow-suc 2 w)),
)

or_and_fuel : (n a b : ℕ) → a ≤ n → bit_or a b + bit_and a b ≡ a + b
or_and_fuel zero a b h =
    let e : a ≡ 0 = omega arith in rw e (omega (arith, bit_and_zero_left b, bit_or_zero_left b))
or_and_fuel (suc n) a b h =
    ground (arith, bit_and_digit a b, bit_or_digit a b, or_and_fuel n (a / 2) (b / 2))

-- `|` and `&` share out a sum.
pub bit_or-add-bit_and : (a b : ℕ) → bit_or a b + bit_and a b ≡ a + b
bit_or-add-bit_and a b = or_and_fuel a a b (omega arith)

and_le_fuel : (n a b : ℕ) → a ≤ n → bit_and a b ≤ b
and_le_fuel zero a b h = let e : a ≡ 0 = omega arith in rw e (omega (arith, bit_and_zero_left b))
and_le_fuel (suc n) a b h = ground (arith, bit_and_digit a b, and_le_fuel n (a / 2) (b / 2))

-- A mask bounds what it keeps.
pub bit_and-le : (a b : ℕ) → bit_and a b ≤ b
bit_and-le a b = and_le_fuel a a b (omega arith)
