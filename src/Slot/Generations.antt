-- ===== src/Slot/Generations.antt =====
-- The cycle of `Generation::advance` (src/page/slot.rs): after how many removals a generation, and
-- so a key, comes back.
use native.Mathlib.Nat.{mod-eq_of_lt, mod-eq-sub-mod, mod-add-mod, add-zero}
use native.Mathlib.Decide.{dec_lt}
use sharded_slab.Base.{ℕ, zero, suc, ◌+◌, ◌-◌, ◌%◌, ◌<◌, ◌≡◌, ◌≢◌, sym, ap, ◌∙◌, arith}
use sharded_slab.Config.{Config, gen_field}
use sharded_slab.Pack.{bits}
use sharded_slab.Lifecycle.{advance}

-- The generation after `n` removals.
abbrev pub generation_after : Config → ℕ → ℕ → ℕ
generation_after c zero g = g
generation_after c (suc n) g = advance c (generation_after c n g)

sum_ne : (n g b : ℕ) → g < b → 0 < n → n < b → (g + n) % b ≢ g
sum_ne n g b h p q e = elim (dec_lt (g + n) b) [
  | yes small ↦ omega (arith, mod-eq_of_lt small)
  | no big ↦ omega (
    arith,
    mod-eq-sub-mod {n = g + n} {m = b} (omega arith),
    mod-eq_of_lt {n = g + n - b} {m = b} (omega arith),
  )
]

sum_wrap : (g b : ℕ) → g < b → (g + b) % b ≡ g
sum_wrap g b h = grind arith

module _ (c : Config) where
  after_sum :
      (n g : ℕ) → g < bits (gen_field c) → generation_after c n g ≡ (g + n) % bits (gen_field c)
  unfolding advance
  after_sum zero g h = rw add-zero (sym (mod-eq_of_lt h))
  after_sum (suc n) g h =
      let e : g + n + 1 ≡ g + suc n = omega arith in
      ap (advance c) (after_sum n g h)
      ∙ mod-add-mod (g + n) (bits (gen_field c)) 1
      ∙ ap (λ t. t % bits (gen_field c)) e

  no_return :
      (n g : ℕ)
      → g < bits (gen_field c)
      → 0 < n
      → n < bits (gen_field c)
      → generation_after c n g ≢ g
  no_return n g h p q e = sum_ne n g (bits (gen_field c)) h p q (sym (after_sum n g h) ∙ e)

  -- A generation is not used again until the counter has gone through all its other values, and
  -- then it is.
  pub generation_after_cycle :
      (n g : ℕ)
      → g < bits (gen_field c)
      → 0 < n
      → n < bits (gen_field c)
      → (generation_after c n g ≢ g) × (generation_after c (bits (gen_field c)) g ≡ g)
  generation_after_cycle n g h p q =
      (no_return n g h p q, after_sum (bits (gen_field c)) g h ∙ sum_wrap g (bits (gen_field c)) h)
