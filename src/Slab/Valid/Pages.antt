-- ===== src/Slab/Valid/Pages.antt =====
-- Well-formed pages of a shard (src/shard.rs), one of which changes.
use sharded_slab.Base.{
  ℕ, zero, suc, ◌+◌, ◌≤◌, ◌≡◌, ◌≢◌, refl, ◌∙◌, subst, List, [], ◌∷◌, Option, some, get_elem?, set,
  arith,
}
use mathlib.Core.Option.{some-injective}
use sharded_slab.Config.{Config}
use sharded_slab.Key.{index}
use sharded_slab.Slot.Memory.{Slot}
use sharded_slab.Page.{Shared}
use sharded_slab.Page.Chain.{get_elem?-lt}
use sharded_slab.Slab.Valid.{SlotOk, Storage, unallocated, allocated, Placed, PageOk, PagesOk}

module _ {T : Type 0} (c : Config) (ok ok' : SlotOk T) where
  Storage-kept :
      (p local : ℕ) (page : Shared (Option T))
      → ((a : ℕ) (s : Slot (Option T)) → index c a ≡ p → ok a s → ok' a s)
      → Placed c p page.size page.prev_sz
      → Storage c ok local page
      → Storage c ok' local page
  Storage-kept p local page keep placed (unallocated n l r ready) =
      unallocated n l r (λ o h next. keep _ _ (placed.on_page o h) (ready o h next))
  Storage-kept p local page keep placed (allocated slots xs ys f each) =
      allocated slots xs ys f (λ o s h. (
        keep _ _ (placed.on_page o (omega (arith, get_elem?-lt slots o h, f.sized))) (each o s h).0,
        (each o s h).1,
      ))

  pub PageOk-kept :
      (p local : ℕ) (page : Shared (Option T))
      → ((a : ℕ) (s : Slot (Option T)) → index c a ≡ p → ok a s → ok' a s)
      → PageOk c ok p local page
      → PageOk c ok' p local page
  PageOk-kept p local page keep h = record {
    placed = h.placed;
    outside = λ a e out next. keep a _ e (h.outside a e out next);
    storage = Storage-kept p local page keep h.placed h.storage;
  }

  pub PagesOk-kept :
      (p : ℕ) (locals : List ℕ) (pages : List (Shared (Option T)))
      → ((a : ℕ) (s : Slot (Option T)) → p ≤ index c a → ok a s → ok' a s)
      → PagesOk c ok p locals pages
      → PagesOk c ok' p locals pages
  PagesOk-kept p [] [] keep h = λ a e next. keep a _ e (h a e next)
  PagesOk-kept p [] (page ∷ pages) keep h = h
  PagesOk-kept p (local ∷ locals) [] keep h = h
  PagesOk-kept p (local ∷ locals) (page ∷ pages) keep h = (
    PageOk-kept p local page (λ a s e. keep a s (omega (arith, e))) h.0,
    PagesOk-kept (p + 1) locals pages (λ a s e. keep a s (omega (arith, e))) h.1,
  )

  -- The `i`-th page is another one.
  pub PagesOk-set :
      (p i : ℕ) (locals : List ℕ) (pages : List (Shared (Option T))) (local' : ℕ)
      (page page' : Shared (Option T))
      → ((a : ℕ) (s : Slot (Option T)) → index c a ≢ p + i → ok a s → ok' a s)
      → get_elem? pages i ≡ some page
      → PageOk c ok' (p + i) local' page'
      → PagesOk c ok p locals pages
      → PagesOk c ok' p (set locals i local') (set pages i page')
  PagesOk-set p i [] [] local' page page' keep found new h = absurd cc
  PagesOk-set p i [] (q ∷ pages) local' page page' keep found new h = absurd h
  PagesOk-set p i (local ∷ locals) [] local' page page' keep found new h = absurd h
  PagesOk-set p zero (local ∷ locals) (q ∷ pages) local' page page' keep found new h =
      let e : p + 0 ≡ p = omega arith in
      (
        subst (λ (n : ℕ). PageOk c ok' n local' page') e new,
        PagesOk-kept (p + 1) locals pages
            (λ a s later. keep a s (λ same. omega (arith, same, later))) h.1,
      )
  PagesOk-set p (suc i) (local ∷ locals) (q ∷ pages) local' page page' keep found new h =
      let e : p + suc i ≡ p + 1 + i = omega arith in
      (
        PageOk-kept p local q (λ a s here. keep a s (λ same. omega (arith, same, here))) h.0,
        PagesOk-set (p + 1) i locals pages local' page page'
            (λ a s other. keep a s (λ same. other (same ∙ e))) found
            (subst (λ (n : ℕ). PageOk c ok' n local' page') e new) h.1,
      )

module _ {T : Type 0} {c : Config} {ok : SlotOk T} where
  pub PagesOk-get :
      (p i : ℕ) (locals : List ℕ) (pages : List (Shared (Option T))) (page : Shared (Option T))
      → get_elem? pages i ≡ some page
      → PagesOk c ok p locals pages
      → (local : ℕ) × (get_elem? locals i ≡ some local) × PageOk c ok (p + i) local page
  PagesOk-get p i [] [] page found h = absurd cc
  PagesOk-get p i [] (q ∷ pages) page found h = absurd h
  PagesOk-get p i (local ∷ locals) [] page found h = absurd h
  PagesOk-get p zero (local ∷ locals) (q ∷ pages) page found h =
      let e : p ≡ p + 0 = omega arith in
      (
        local,
        refl,
        subst (λ (n : ℕ). PageOk c ok n local page) e
            (subst (PageOk c ok p local) (some-injective _ _ found) h.0),
      )
  PagesOk-get p (suc i) (local ∷ locals) (q ∷ pages) page found h =
      let (l, at, here) = PagesOk-get (p + 1) i locals pages page found h.1 in
      let e : p + 1 + i ≡ p + suc i = omega arith in
      (l, at, subst (λ (n : ℕ). PageOk c ok n l page) e here)
