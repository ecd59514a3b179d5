-- ===== src/Pack/Three.antt =====
-- Three `Pack` fields (src/lib.rs), one behind the other from the lowest bit, in one word. A slab
-- key (address, thread, generation) and a slot's lifecycle (state, references, generation) have
-- this shape.
use native.Mathlib.Nat.{zero-add, mod-lt, mod-add-div'}
use sharded_slab.Base.{ℕ, ◌+◌, ◌*◌, ◌/◌, ◌%◌, ◌^◌, ◌≤◌, ◌<◌, ◌≡◌, refl, subst, ap, arith}
use sharded_slab.Word.Fields.{two_pow-pos}
use sharded_slab.Word.Powers.{two_pow-add, two_pow_mono}
use sharded_slab.Pack.{Field, unit_field, field_after, pack, from_packed}
use sharded_slab.Pack.Laws.{Split, word, from_packed-word, pack-word}

abbrev pub join : ℕ → ℕ → ℕ → ℕ → ℕ → ℕ → ℕ → ℕ
join a b d x y z r = x + (y + (z + r * 2 ^ d) * 2 ^ b) * 2 ^ a

abbrev pub first : ℕ → Field
first a = field_after unit_field a

abbrev pub second : ℕ → ℕ → Field
second a b = field_after (first a) b

abbrev pub third : ℕ → ℕ → ℕ → Field
third a b d = field_after (second a b) d

-- Each field has a bit, and the word holds them all.
pub record Fits (w a b d : ℕ) : Type 0 where
  pub some_low : 1 ≤ a
  pub some_mid : 1 ≤ b
  pub some_high : 1 ≤ d
  pub all_inside : a + b + d ≤ w

row-lt : (x y m n : ℕ) → x < m → y < n → x + y * m < m * n
row-lt x y m n p q = grind arith

as_first :
    (a b d x y z r : ℕ) → join a b d x y z r ≡ word (first a) 0 x (y + (z + r * 2 ^ d) * 2 ^ b)
as_first a b d x y z r = omega arith

as_second : (a b d x y z r : ℕ) → join a b d x y z r ≡ word (second a b) x y (z + r * 2 ^ d)
as_second a b d x y z r = rw zero-add refl

as_third : (a b d x y z r : ℕ) → join a b d x y z r ≡ word (third a b d) (x + y * 2 ^ a) z r
as_third a b d x y z r = rw (zero-add, two_pow-add a b) (omega arith)

-- Values of the three fields, and what stands above them.
pub record InRange (w a b d x y z r : ℕ) : Type 0 where
  pub low_fits : x < 2 ^ a
  pub mid_fits : y < 2 ^ b
  pub high_fits : z < 2 ^ d
  pub word_fits : join a b d x y z r < 2 ^ w

module _ {w a b d : ℕ} (f : Fits w a b d) where
  open f use {some_low, some_mid, some_high, all_inside}

  -- Nothing above the fields: the values fit the fields' bits.
  pub join-lt :
      {x y z : ℕ} → x < 2 ^ a → y < 2 ^ b → z < 2 ^ d → join a b d x y z 0 < 2 ^ (a + b + d)
  join-lt {x} {y} {z} p q r = omega (
    arith,
    two_pow-add (a + b) d,
    ap (λ (t : ℕ). t * 2 ^ d) (two_pow-add a b),
    row-lt x (y + z * 2 ^ b) (2 ^ a) (2 ^ b * 2 ^ d) p (row-lt y z (2 ^ b) (2 ^ d) q r),
  )

  pub join-InRange : {x y z : ℕ} → x < 2 ^ a → y < 2 ^ b → z < 2 ^ d → InRange w a b d x y z 0
  join-InRange p q r = record {
    low_fits = p;
    mid_fits = q;
    high_fits = r;
    word_fits = omega (arith, join-lt p q r, two_pow_mono {a = a + b + d} {b = w} all_inside);
  }

module _ {w a b d : ℕ} (f : Fits w a b d) {x y z r : ℕ} (v : InRange w a b d x y z r) where
  open f use {some_low, some_mid, some_high, all_inside}
  open v use {low_fits, mid_fits, high_fits, word_fits}

  abbrev here : ℕ
  here = join a b d x y z r

  Split-first : Split w (first a) 0 x (y + (z + r * 2 ^ d) * 2 ^ b)
  Split-first = record {
    some_bits = some_low;
    inside = omega arith;
    lo_fits = omega arith;
    v_fits = low_fits;
    word_fits = omega arith;
  }

  Split-second : Split w (second a b) x y (z + r * 2 ^ d)
  Split-second = record {
    some_bits = some_mid;
    inside = omega arith;
    lo_fits = rw zero-add low_fits;
    v_fits = mid_fits;
    word_fits = rw zero-add word_fits;
  }

  Split-third : Split w (third a b d) (x + y * 2 ^ a) z r
  Split-third = record {
    some_bits = some_high;
    inside = omega arith;
    lo_fits = rw (zero-add, two_pow-add a b) (row-lt x y (2 ^ a) (2 ^ b) low_fits mid_fits);
    v_fits = high_fits;
    word_fits = rw (zero-add, two_pow-add a b) (omega arith);
  }

  pub from_packed-first : from_packed w (first a) (join a b d x y z r) ≡ x
  from_packed-first = rw (as_first a b d x y z r) (from_packed-word Split-first)

  pub from_packed-second : from_packed w (second a b) (join a b d x y z r) ≡ y
  from_packed-second = rw (as_second a b d x y z r) (from_packed-word Split-second)

  pub from_packed-third : from_packed w (third a b d) (join a b d x y z r) ≡ z
  from_packed-third = rw (as_third a b d x y z r) (from_packed-word Split-third)

  pub pack-first :
      (u : ℕ) → u < 2 ^ a → pack w (first a) u (join a b d x y z r) ≡ join a b d u y z r
  pack-first u h = rw (as_first a b d x y z r, as_first a b d u y z r) (pack-word Split-first u h)

  pub pack-second :
      (u : ℕ) → u < 2 ^ b → pack w (second a b) u (join a b d x y z r) ≡ join a b d x u z r
  pack-second u h =
      rw (as_second a b d x y z r, as_second a b d x u z r) (pack-word Split-second u h)

  pub pack-third :
      (u : ℕ) → u < 2 ^ d → pack w (third a b d) u (join a b d x y z r) ≡ join a b d x y u r
  pack-third u h = rw (as_third a b d x y z r, as_third a b d x y u r) (pack-word Split-third u h)

-- Every word is split in one way.
pub record Parts (w a b d n : ℕ) : Type 0 where
  pub low : ℕ
  pub mid : ℕ
  pub high : ℕ
  pub rest : ℕ
  pub in_range : InRange w a b d low mid high rest
  pub joined : n ≡ join a b d low mid high rest

pub parts : (w a b d n : ℕ) → n < 2 ^ w → Parts w a b d n
parts w a b d n h = record {
  low = n % 2 ^ a;
  mid = n / 2 ^ a % 2 ^ b;
  high = n / 2 ^ a / 2 ^ b % 2 ^ d;
  rest = n / 2 ^ a / 2 ^ b / 2 ^ d;
  in_range = record {
    low_fits = mod-lt n (two_pow-pos a);
    mid_fits = mod-lt _ (two_pow-pos b);
    high_fits = mod-lt _ (two_pow-pos d);
    word_fits = subst (λ t. t < 2 ^ w) joined h;
  };
  joined = joined;
}
  where
    joined :
        n
        ≡ join a b d
            (n % 2 ^ a)
            (n / 2 ^ a % 2 ^ b)
            (n / 2 ^ a / 2 ^ b % 2 ^ d)
            (n / 2 ^ a / 2 ^ b / 2 ^ d)
    joined =
        let n' = n / 2 ^ a in
        let n'' = n' / 2 ^ b in
        omega (
          arith,
          mod-add-div' n (2 ^ a),
          ap (λ (t : ℕ). t * 2 ^ a) (mod-add-div' n' (2 ^ b)),
          ap (λ (t : ℕ). t * 2 ^ b * 2 ^ a) (mod-add-div' n'' (2 ^ d)),
        )
