-- ===== src/Slab/History/Looking.antt =====
-- `contains` among other calls (src/lib.rs): a `get` and the drop of its entry.
use mathlib.Core.Option
use sharded_slab.Base.{
  ℕ, ◌≡◌, refl, sym, ap, ◌∙◌, subst, Bool, true, false, ◌==◌, ==→eq, Bool-cases, inl, inr, List, [],
  ◌∷◌, Option, none, some,
}
use sharded_slab.Config.{Config}
use sharded_slab.Config.Valid.{IsConfig}
use sharded_slab.Key.{unpack_tid, unpack_addr, unpack_gen}
use sharded_slab.Slab.{Slab, slab_get, contains}
use sharded_slab.Slab.Valid.{IsValid}
use sharded_slab.Slab.Valid.Moves.{Ends}
use sharded_slab.Slab.History.{Live, coming, live_at, with_live, answered}
use sharded_slab.Slab.History.Slots.{each_valid, with_live-same}
use sharded_slab.Slab.History.Getting.{get-Ends}
use sharded_slab.Slab.History.Dropping.{drop-Ends}

-- The entries are what they were before.
live_again :
    {T : Type 0} (c : Config) (key : ℕ) (entries : List (T × ℕ)) (live : Live T) (t a : ℕ)
    → with_live c key (live_at c key live) (with_live c key entries live) t a ≡ live t a
live_again c key entries live t a = elim (Bool-cases (t == unpack_tid c key)) [
  | inl same ↦ elim (Bool-cases (a == unpack_addr c key)) [
    | inl alike ↦
        rw (same, alike)
          (let e : live (unpack_tid c key) (unpack_addr c key) ≡ live t (unpack_addr c key) =
              ap (λ i. live i (unpack_addr c key)) (sym (==→eq t _ same)) in
            e ∙ ap (live t) (sym (==→eq a _ alike)))
    | inr other ↦ rw (same, other) refl
  ]
  | inr other ↦ rw other refl
]

module _ {T : Type 0} {c : Config} (v : IsConfig c) {live : Live T} {slab : Slab T}
    (valid : IsValid c (each_valid c live) slab) (me key : ℕ)
    (later : coming c key slab ≡ false) where
  by_answer :
      (value : Option T)
      → Ends c
          (each_valid c (answered c key value live))
          (Option.map (λ x. record { value = x; key = key }) value)
          (slab_get c me key [] slab)
      → (answer : Bool) × Ends c (each_valid c live) answer (contains c me key [] [] [] slab)
  unfolding contains
  by_answer none e =
      (false, record { slab = e.slab; returned = rw (contains, e.returned) refl; valid = e.valid })
  by_answer (some value) e =
      let entries = (value, unpack_gen c key) ∷ live_at c key live in
      let d =
        drop-Ends v e.valid me (record { value = value; key = key }) (live_at c key live)
          (with_live-same c key entries live) in
      (
        true,
        record {
          slab = d.slab;
          returned = rw (contains, e.returned) (rw d.returned refl);
          valid =
              subst (λ l. IsValid c (each_valid c l) d.slab)
                (λ i t a. live_again c key entries live t a i) d.valid;
        },
      )

  pub contains-Ends :
      (answer : Bool) × Ends c (each_valid c live) answer (contains c me key [] [] [] slab)
  contains-Ends = let (value, e) = get-Ends v valid me key later in by_answer value e
