-- ===== src/Config/Shards.antt =====
-- `MAX_SHARDS` of src/cfg.rs against `MAX_THREADS`, which it is computed from.
use native.Mathlib.Nat.{pow-suc}
use native.Mathlib.Decide.{dec_lt}
use sharded_slab.Base.{ℕ, suc, ◌+◌, ◌-◌, ◌*◌, ◌^◌, ◌≤◌, ◌<◌, ◌≡◌, ap, inl, inr, arith}
use sharded_slab.Word.Fields.{two_pow-pos}
use sharded_slab.Word.Powers.{two_pow_mono}
use sharded_slab.Config.{Config, max_shards}
use sharded_slab.Config.Valid.{IsConfig, threads_rounded, max_shards_lem}

module _ {c : Config} (v : IsConfig c) where
  exponent_lem : (k : ℕ) → c.max_threads ≡ 2 ^ k + 1 → (threads_rounded v).exponent ≡ k
  exponent_lem k h = elim (dec_lt k (threads_rounded v).exponent) [
    | yes more ↦ absurd (elim (threads_rounded v).least [
      | inl e ↦ omega (arith, e, two_pow-pos k)
      | inr e ↦ omega (
        arith,
        e,
        pow-suc 2 k,
        two_pow_mono {a = suc k} {b = (threads_rounded v).exponent} (omega arith),
      )
    ])
    | no a ↦ elim (dec_lt (threads_rounded v).exponent k) [
      | yes less ↦ absurd (
          omega (
            arith,
            (threads_rounded v).covers,
            pow-suc 2 (threads_rounded v).exponent,
            two_pow-pos (threads_rounded v).exponent,
            two_pow_mono {a = suc (threads_rounded v).exponent} {b = k} less,
          ))
      | no b ↦ omega arith
    ]
  ]

  -- Where the number of the threads but one is a power of two, there is one shard less than threads.
  pub max_shards_short : (k : ℕ) → c.max_threads ≡ 2 ^ k + 1 → max_shards c + 1 ≡ c.max_threads
  max_shards_short k h = omega (arith, max_shards_lem v, ap (λ (t : ℕ). 2 ^ t) (exponent_lem k h))

  -- There is a shard for every thread but one, and fewer than twice as many as the others.
  max_shards-bounds :
      2 ≤ c.max_threads
      → (c.max_threads ≤ max_shards c + 1) × (max_shards c < 2 * (c.max_threads - 1))
  max_shards-bounds h = (
    omega (arith, max_shards_lem v, (threads_rounded v).covers),
    elim (threads_rounded v).least [
      | inl e ↦ absurd (omega (arith, e))
      | inr e ↦ omega (arith, e, max_shards_lem v)
    ],
  )
