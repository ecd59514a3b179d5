-- ===== src/Word/Powers.antt =====
-- Powers of two, in the forms that the field laws need.
use native.Mathlib.Nat.{pow-suc, pow-le-pow_right, zero-add}
use sharded_slab.Base.{ℕ, zero, suc, ◌+◌, ◌-◌, ◌*◌, ◌%◌, ◌^◌, ◌≤◌, ◌<◌, ◌≡◌, ap, arith}

-- `x << k` on a `w`-bit word: what leaves the word is lost.
abbrev pub shl : ℕ → ℕ → ℕ → ℕ
shl w x k = (x * 2 ^ k) % 2 ^ w

-- `!m` on a `w`-bit word.
abbrev pub complement : ℕ → ℕ → ℕ
complement w m = 2 ^ w - 1 - m

pub two_pow-add : (a b : ℕ) → 2 ^ (a + b) ≡ 2 ^ a * 2 ^ b
two_pow-add zero b = rw zero-add (omega arith)
two_pow-add (suc a) b =
    let e : suc a + b ≡ suc (a + b) = omega arith in
    rw e
      (omega (arith, pow-suc 2 (a + b), two_pow-add a b, ap (λ (t : ℕ). t * 2 ^ b) (pow-suc 2 a)))

pub two_pow_mono : {a b : ℕ} → a ≤ b → 2 ^ a ≤ 2 ^ b
two_pow_mono h = pow-le-pow_right (omega arith) h

pub mul_lt_mul : (a b c d : ℕ) → a < b → 0 < d → c ≤ d → a * c < b * d
mul_lt_mul a b c d h p q = grind arith
