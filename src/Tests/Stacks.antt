-- ===== src/Tests/Stacks.antt =====
-- The properties of src/page/stack.rs at concrete inputs: two threads that push at the same time.
use sharded_slab.Base.{
  ℕ, inl, inr, sym, ap, ◌≡◌, ◌≢◌, refl, true, false, [], ◌∷◌, some, none, arith,
}
use mathlib.Core.Option.{some-injective}
use sharded_slab.Config.{default_config, null_addr}
use sharded_slab.Page.Chain.{Distinct}
use sharded_slab.Stack.Concurrent.{
  Pushing, Pushed, Linked, starts, loads, links, exchanges, fails, none_lost, update, update-cases,
}
use sharded_slab.Tests.{null_addr_default}

abbrev end : ℕ
end = null_addr default_config

abbrev links_before : ℕ → ℕ
links_before x = 0

abbrev pushing : ℕ → ℕ → Pushing
pushing slot seen = record { slot = slot; seen = seen; linked = false }

abbrev linked : ℕ → ℕ → Pushing
linked slot seen = record { slot = slot; seen = seen; linked = true }

idle : (u : ℕ) (p : Pushing) → (λ (t : ℕ). none) u ≡ some p → p.slot ≢ 1
idle u p h = absurd cc

first_only :
    (u : ℕ) (p : Pushing) → update 0 (some (pushing 1 end)) (λ t. none) u ≡ some p → p.slot ≢ 2
first_only u p h same = elim (update-cases 0 u (some (pushing 1 end)) (λ t. none) h) [
  | inl (at, e) ↦
      let is : p.slot ≡ 1 = ap (λ r. r.slot) (sym (some-injective (pushing 1 end) p e)) in
      omega (arith, same, is)
  | inr (away, e) ↦ absurd cc
]

not_end : end ≢ 1
not_end same = omega (arith, null_addr_default, same)

-- Thread 0 pushes slot 1 while thread 1 pushes slot 2, which sees an empty stack first.
raced :
    Pushed default_config 2
      (update 2 1 (update 2 end (update 1 end links_before)))
      (update 1 none (
        update 1 (some (linked 2 1)) (
          update 1 (some (pushing 2 1)) (
            update 1 (some (linked 2 end)) (
              update 0 none (
                update 0 (some (linked 1 end)) (
                  update 1
                    (some (pushing 2 end))
                    (update 0 (some (pushing 1 end)) (λ t. none)))))))))
      (2 ∷ 1 ∷ [])
raced =
    let both = loads (loads (starts links_before) 0 1 refl tt idle) 1 2 refl tt first_only in
    let first = exchanges (links both 0 (pushing 1 end) refl) 0 (linked 1 end) refl refl refl in
    let again = fails (links first 1 (pushing 2 end) refl) 1 (linked 2 end) refl refl not_end in
    exchanges (links again 1 (pushing 2 1) refl) 1 (linked 2 1) refl refl refl

none_lost_example :
    Linked default_config (update 2 1 (update 2 end (update 1 end links_before))) 2 (2 ∷ 1 ∷ [])
    × Distinct (2 ∷ 1 ∷ [])
none_lost_example = none_lost raced
