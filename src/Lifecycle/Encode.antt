-- ===== src/Lifecycle/Encode.antt =====
-- A lifecycle word (src/page/slot.rs) as the state, references and generation that it encodes, and
-- what reading and packing its fields does in these terms.
use native.Mathlib.Nat.{mod-eq_of_lt, mod-lt, mod_self}
use native.Mathlib.Decide.{dec_lt}
use sharded_slab.Base.{ℕ, ◌+◌, ◌-◌, ◌%◌, ◌^◌, ◌≤◌, ◌<◌, ◌≡◌, ◌≢◌, refl, some, arith}
use sharded_slab.Word.Powers.{two_pow_mono}
use sharded_slab.Pack.{bits, mask}
use sharded_slab.Pack.Laws.{bits_lem}
use sharded_slab.Pack.Three.{
  join, Fits, InRange, join-InRange, from_packed-first, from_packed-second, from_packed-third,
  pack-first, pack-second, pack-third,
}
use sharded_slab.Config.{Config, gen_field, lifecycle_field, ref_count_field, max_refs}
use sharded_slab.Config.Valid.{IsConfig, lifecycle_Fits, gen_bits, ref_bits}
use sharded_slab.Lifecycle.{
  State, as_usize, state_from_usize, state_from_packed, pack_state, refs_from_packed, pack_refs,
  gen_from_packed, pack_gen, advance, decr,
}

pub record Life : Type 0 where
  pub state : State
  pub refs : ℕ
  pub gen : ℕ

pub record IsLife (c : Config) (l : Life) : Type 0 where
  pub refs_fit : l.refs < 2 ^ (ref_count_field c).len
  pub gen_fits : l.gen < 2 ^ (gen_field c).len

unfoldable pub encode : Config → Life → ℕ
encode c l = join 2 (ref_count_field c).len (gen_field c).len (as_usize l.state) l.refs l.gen 0

-- The word with generation 0 is the state alone.
pub encode_removing :
    (c : Config)
    → encode c (record { state = State.removing; refs = 0; gen = 0 }) ≡ as_usize State.removing
unfolding encode
encode_removing c = omega arith

pub encode_zero : (c : Config) → encode c (record { state = State.present; refs = 0; gen = 0 }) ≡ 0
unfolding encode
encode_zero c = omega arith

pub mod_wrap : (x n : ℕ) → x < n → (x + n) % n ≡ x
mod_wrap x n h = grind arith

state-lt : (s : State) → as_usize s < 2 ^ 2
state-lt State.present = omega arith
state-lt State.marked = omega arith
state-lt State.removing = omega arith

module _ {c : Config} (v : IsConfig c) where
  f : Fits c.width 2 (ref_count_field c).len (gen_field c).len
  f = lifecycle_Fits v

  -- `MASK` of the lifecycle is 0b11.
  state_mask : mask c.width lifecycle_field ≡ 3
  unfolding mask
  state_mask =
      mod-eq_of_lt (
        omega (arith, two_pow_mono {a = 2} {b = c.width} (omega (arith, f.some_mid, f.all_inside))))

  state_from_usize_lem : (s : State) → state_from_usize c (as_usize s) ≡ some s
  unfolding state_from_usize
  state_from_usize_lem State.present = rw state_mask refl
  state_from_usize_lem State.marked = rw state_mask refl
  state_from_usize_lem State.removing = rw state_mask refl

  module _ {l : Life} (i : IsLife c l) where
    r :
        InRange c.width 2
          (ref_count_field c).len
          (gen_field c).len
          (as_usize l.state)
          l.refs
          l.gen
          0
    r = join-InRange f (state-lt l.state) i.refs_fit i.gen_fits

    pub state_from_packed-encode : state_from_packed c (encode c l) ≡ some l.state
    unfolding state_from_packed encode
    state_from_packed-encode = rw (from_packed-first f r) (state_from_usize_lem l.state)

    pub refs_from_packed-encode : refs_from_packed c (encode c l) ≡ l.refs
    unfolding refs_from_packed encode
    refs_from_packed-encode = from_packed-second f r

    pub gen_from_packed-encode : gen_from_packed c (encode c l) ≡ l.gen
    unfolding gen_from_packed encode
    gen_from_packed-encode = from_packed-third f r

    pub pack_state-encode :
        (s : State) → pack_state c s (encode c l) ≡ encode c (record l { state = s })
    unfolding pack_state encode
    pack_state-encode s = pack-first f r (as_usize s) (state-lt s)

    pub pack_refs-encode :
        (n : ℕ)
        → n < 2 ^ (ref_count_field c).len
        → pack_refs c n (encode c l) ≡ encode c (record l { refs = n })
    unfolding pack_refs encode
    pack_refs-encode n h = pack-second f r n h

    pub pack_gen-encode :
        (g : ℕ)
        → g < 2 ^ (gen_field c).len
        → pack_gen c g (encode c l) ≡ encode c (record l { gen = g })
    unfolding pack_gen encode
    pack_gen-encode g h = pack-third f r g h

-- The counters on their fields.
module _ {c : Config} (v : IsConfig c) where
  gen_bits_lem : bits (gen_field c) ≡ 2 ^ (gen_field c).len - 1
  gen_bits_lem = bits_lem (gen_field c) (omega (arith, gen_bits v))

  pub max_refs_lem : max_refs c ≡ 2 ^ (ref_count_field c).len - 2
  unfolding max_refs
  max_refs_lem = omega (arith, bits_lem (ref_count_field c) (omega (arith, ref_bits v)))

  -- The generation after `g` is below the greatest value of the field.
  pub advance-lt : (g : ℕ) → advance c g < 2 ^ (gen_field c).len - 1
  unfolding advance
  advance-lt g = rw gen_bits_lem (mod-lt (g + 1) (omega (arith, two_pow_mono {a = 2} (gen_bits v))))

  pub decr_lem : (n : ℕ) → 1 ≤ n → n < 2 ^ c.width → decr c n ≡ n - 1
  unfolding decr
  decr_lem n h p =
      let e : n + 2 ^ c.width - 1 ≡ n - 1 + 2 ^ c.width = omega arith in
      rw e (mod_wrap (n - 1) (2 ^ c.width) (omega arith))

next_ne : (g b : ℕ) → 3 ≤ b → g ≤ b → (g + 1) % b ≢ g
next_ne g b h p e = elim (dec_lt (g + 1) b) [
  | yes small ↦ omega (arith, mod-eq_of_lt small)
  | no big ↦ elim (dec_lt g b) [
    | yes last ↦
        let wrap : g + 1 ≡ b = omega arith in
        let zero : (g + 1) % b ≡ 0 = rw wrap (mod_self b) in omega arith
    | no above ↦
        let over : g + 1 ≡ 1 + b = omega arith in
        let one : (g + 1) % b ≡ 1 = rw over (mod_wrap 1 b (omega arith)) in omega arith
  ]
]

-- A generation differs from the next one.
pub advance-ne : {c : Config} → IsConfig c → (g : ℕ) → g < 2 ^ (gen_field c).len → advance c g ≢ g
unfolding advance
advance-ne {c} v g h = rw (gen_bits_lem v) (
    next_ne g (2 ^ (gen_field c).len - 1) (omega (arith, two_pow_mono {a = 2} (gen_bits v)))
      (omega arith))
