-- ===== src/Tid/Unique.antt =====
-- The ids that threads hold at the same time (src/tid.rs).
use native.Mathlib.Nat.{mod-eq_of_lt}
use sharded_slab.Base.{
  ℕ, zero, suc, ◌+◌, ◌%◌, ◌^◌, ◌≤◌, ◌<◌, ◌≡◌, ◌≢◌, refl, sym, ap, subst, ◌∙◌, ◌⊎◌, inl, inr, Bool,
  true, false, not, ◌-◌, if◌then◌else◌, ◌&&◌, Bool-cases, ltb, length, List, [], ◌∷◌, Option, none,
  some, get_elem?, set, arith,
}
use sharded_slab.Pack.{bits}
use sharded_slab.Config.{Config, tid_field}
use sharded_slab.Tid.{
  Registry, Registration, new_registry, next_id, register, current, drop_registration,
}
use sharded_slab.Tid.System.{System, no_threads, Step, asks, ends, Reachable, starts, steps}
use sharded_slab.Tid.Ids.{Ids, set-same, Given-Apart, Ids-mono, Ids-take, Ids-give}

-- The largest id that there can be: the field's, but the largest word where threads ask for their id
-- while they unwind.
abbrev pub max_id : Config → Bool → ℕ
max_id c unwinding = if unwinding then 2 ^ c.width - 1 else bits (tid_field c)

-- `register` takes the first free id where there are two, and else the next one, if it fits or the
-- thread is unwinding.
abbrev Registers : Config → Bool → Registry → Option ℕ × Registry → Type 0
Registers c panicking reg o =
    ((x : ℕ) × (xs : List ℕ) × (reg.free ≡ x ∷ xs) × (o ≡ (some x, record reg { free = xs })))
    ⊎ (((panicking ≡ true) ⊎ (reg.next ≤ bits (tid_field c)))
        × (o ≡ (some reg.next, record reg { next = (reg.next + 1) % 2 ^ c.width })))
    ⊎ (o ≡ (none, record reg { next = (reg.next + 1) % 2 ^ c.width }))

register-Registers :
    (c : Config) (panicking : Bool) (reg : Registry)
    → Registers c panicking reg (register c panicking reg)
unfolding register next_id
register-Registers c panicking reg =
    elim (Bool-cases (not reg.poisoned && ltb 1 (length reg.free))) [
      | inl reuse ↦ free_case reg.free refl reuse
      | inr fresh ↦ elim (Bool-cases (ltb (bits (tid_field c)) reg.next && not panicking)) [
        | inl big ↦ inr (inr (rw (fresh, big) refl))
        | inr fits ↦ inr (inl (kept fits, rw (fresh, fits) refl))
      ]
    ]
  where
    kept :
        (ltb (bits (tid_field c)) reg.next && not panicking) ≡ false
        → (panicking ≡ true) ⊎ (reg.next ≤ bits (tid_field c))
    kept fits = elim (Bool-cases panicking) [
      | inl unwinds ↦ inl unwinds
      | inr calm ↦ inr (ground (arith, fits, calm))
    ]

    free_case :
        (l : List ℕ)
        → reg.free ≡ l
        → (not reg.poisoned && ltb 1 (length reg.free)) ≡ true
        → Registers c panicking reg (register c panicking reg)
    free_case [] e h =
        let none_left : (not reg.poisoned && ltb 1 0) ≡ true =
          ap (λ l. not reg.poisoned && ltb 1 (length l)) (sym e) ∙ h in
        absurd (ground (arith, none_left))
    free_case (x ∷ xs) e h = inl (x, xs, e, rw (register, h, e) refl)

-- What is kept up: the ids in use and the free ones, below the counter, which counts the steps at
-- most.
record Kept (c : Config) (unwinding : Bool) (n : ℕ) (s : System) : Type 0 where
  ids : Ids s.registry.next (max_id c unwinding) s.threads s.registry.free
  few : s.registry.next ≤ n

start-Kept :
    (c : Config) (unwinding : Bool) (places : ℕ)
    → Kept c unwinding 0 (record { registry = new_registry; threads = no_threads places })
start-Kept c unwinding places = record {
  ids = record {
    unique = λ i j id p q. absurd (nobody places i id p);
    held_apart = λ i id p. tt;
    held_given = λ i id p. absurd (nobody places i id p);
    free_distinct = tt;
    free_given = tt;
  };
  few = omega arith;
}
  where
    nobody : (m i id : ℕ) → get_elem? (no_threads m) i ≢ some (some id)
    nobody zero i id p = cc
    nobody (suc m) zero id p = cc
    nobody (suc m) (suc i) id p = nobody m i id p

module _ {c : Config} {unwinding : Bool} {n : ℕ} {s : System} (k : Kept c unwinding n s)
    (small : n + 1 < 2 ^ c.width) where
  counter : (s.registry.next + 1) % 2 ^ c.width ≡ s.registry.next + 1
  counter = mod-eq_of_lt (omega (arith, k.few, small))

  reused :
      (i x : ℕ) (xs : List ℕ)
      → Ids s.registry.next (max_id c unwinding) s.threads (x ∷ xs)
      → Ids s.registry.next (max_id c unwinding) (set s.threads i (some x)) xs
  reused i x xs d =
      Ids-take i x d (λ j q. (d.held_apart j x q).0 refl) d.free_given.0 d.free_distinct.0
        (λ y a. a.1) d.free_distinct.1 d.free_given.1

  more : Ids (s.registry.next + 1) (max_id c unwinding) s.threads s.registry.free
  more = Ids-mono (omega arith) k.ids

  fits_max :
      (panicking : Bool)
      → (panicking && not unwinding) ≡ false
      → (panicking ≡ true) ⊎ (s.registry.next ≤ bits (tid_field c))
      → s.registry.next ≤ max_id c unwinding
  fits_max panicking calm (inl unwinds) = ground (arith, calm, unwinds, k.few, small)
  fits_max panicking calm (inr fits) = elim (Bool-cases unwinding) [
    | inl e ↦ ground (arith, e, k.few, small)
    | inr e ↦ ground (arith, e, fits)
  ]

  given_next :
      (i : ℕ)
      → s.registry.next ≤ max_id c unwinding
      → Ids
          (s.registry.next + 1)
          (max_id c unwinding)
          (set s.threads i (some s.registry.next))
          s.registry.free
  given_next i fits =
      Ids-take i s.registry.next more
        (λ j q. absurd (omega (arith, (k.ids.held_given j s.registry.next q).0)))
        (omega arith, fits)
        (Given-Apart (max_id c unwinding) s.registry.next s.registry.free (omega arith)
          k.ids.free_given)
        (λ y a. a) k.ids.free_distinct more.free_given

  asked :
      (i : ℕ) (o : Option ℕ × Registry) (panicking : Bool)
      → (panicking && not unwinding) ≡ false
      → get_elem? s.threads i ≡ some none
      → Registers c panicking s.registry o
      → Kept c unwinding (suc n) (record { registry = o.1; threads = set s.threads i o.0 })
  asked i o panicking calm h (inl (x, xs, e, p)) =
      subst
        (λ (o : Option ℕ × Registry).
          Kept c unwinding (suc n) (record { registry = o.1; threads = set s.threads i o.0 }))
        (sym p)
        (record {
          ids = reused i x xs (subst (Ids s.registry.next (max_id c unwinding) s.threads) e k.ids);
          few = omega (arith, k.few);
        })
  asked i o panicking calm h (inr (inl (fits, p))) =
      subst
        (λ (o : Option ℕ × Registry).
          Kept c unwinding (suc n) (record { registry = o.1; threads = set s.threads i o.0 }))
        (sym p)
        (record {
          ids =
              subst
                (λ b.
                  Ids b (max_id c unwinding) (set s.threads i (some s.registry.next))
                    s.registry.free)
                (sym counter) (given_next i (fits_max panicking calm fits));
          few = omega (arith, counter, k.few);
        })
  asked i o panicking calm h (inr (inr p)) =
      subst
        (λ (o : Option ℕ × Registry).
          Kept c unwinding (suc n) (record { registry = o.1; threads = set s.threads i o.0 }))
        (sym p)
        (record {
          ids =
              subst (λ b. Ids b (max_id c unwinding) (set s.threads i none) s.registry.free)
                (sym counter)
                (subst (λ l. Ids (s.registry.next + 1) (max_id c unwinding) l s.registry.free)
                  (sym (set-same s.threads i none h)) more);
          few = omega (arith, counter, k.few);
        })

  same_thread :
      (i : ℕ) (r : Registration)
      → get_elem? s.threads i ≡ some r
      → Kept c unwinding (suc n) (record { registry = s.registry; threads = set s.threads i r })
  same_thread i r h = record {
    ids =
        subst (λ l. Ids s.registry.next (max_id c unwinding) l s.registry.free)
          (sym (set-same s.threads i r h)) k.ids;
    few = omega (arith, k.few);
  }

Step-Kept :
    {c : Config} {unwinding : Bool} {n : ℕ} {s s' : System}
    → Kept c unwinding n s
    → n + 1 < 2 ^ c.width
    → Step c unwinding s s'
    → Kept c unwinding (suc n) s'
unfolding current drop_registration
Step-Kept {c} {s = s} k small (asks {r = none} i panicking calm h) =
    asked k small i (register c panicking s.registry) panicking calm h
      (register-Registers c panicking s.registry)
Step-Kept {s = s} k small (asks {r = some id} i panicking calm h) =
    same_thread k small i (some id) h
Step-Kept {s = s} k small (ends {r = none} i h) = same_thread k small i none h
Step-Kept {s = s} k small (ends {r = some id} i h) = record {
  ids = Ids-give i id k.ids h;
  few = omega (arith, k.few);
}

Reachable-Kept :
    {c : Config} {unwinding : Bool} {places n : ℕ} {s : System}
    → Reachable c unwinding places n s
    → n < 2 ^ c.width
    → Kept c unwinding n s
Reachable-Kept {c} {unwinding} {places} starts h = start-Kept c unwinding places
Reachable-Kept (steps r t) h = Step-Kept (Reachable-Kept r (omega (arith, h))) (omega (arith, h)) t

-- In the first `2 ^ width` steps of threads that all use one configuration, in any order, two
-- threads never hold the same id, and every id that a thread holds fits its field, if no thread
-- asks for its id while it unwinds; if some may, every id is below `2 ^ width`.
pub ids_unique :
    {c : Config} {unwinding : Bool} {places n : ℕ} {s : System}
    → Reachable c unwinding places n s
    → n < 2 ^ c.width
    → (i j id : ℕ) → get_elem? s.threads i ≡ some (some id)
    → get_elem? s.threads j ≡ some (some id)
    → (i ≡ j) × (id ≤ max_id c unwinding)
ids_unique r h i j id p q =
    let k = Reachable-Kept r h in (k.ids.unique i j id p q, (k.ids.held_given i id p).1)
