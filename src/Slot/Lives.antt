-- ===== src/Slot/Lives.antt =====
-- The lifecycles of a slot (src/page/slot.rs) that has no reference, or one.
use sharded_slab.Base.{ℕ, ◌^◌, ◌<◌, arith}
use sharded_slab.Word.Fields.{two_pow-pos}
use sharded_slab.Word.Powers.{two_pow_mono}
use sharded_slab.Config.{Config, gen_field, ref_count_field}
use sharded_slab.Config.Valid.{IsConfig, ref_bits}
use sharded_slab.Lifecycle.{State}
use sharded_slab.Lifecycle.Encode.{Life, IsLife}

abbrev pub life : State → ℕ → ℕ → Life
life state refs gen = record { state = state; refs = refs; gen = gen }

module _ {c : Config} (v : IsConfig c) where
  pub one_ref-IsLife :
      (state : State) (gen : ℕ) → gen < 2 ^ (gen_field c).len → IsLife c (life state 1 gen)
  one_ref-IsLife state gen h = record {
    refs_fit = omega (arith, two_pow_mono {a = 2} (ref_bits v));
    gen_fits = h;
  }

  pub no_ref-IsLife :
      (state : State) (gen : ℕ) → gen < 2 ^ (gen_field c).len → IsLife c (life state 0 gen)
  no_ref-IsLife state gen h = record {
    refs_fit = two_pow-pos (ref_count_field c).len;
    gen_fits = h;
  }
