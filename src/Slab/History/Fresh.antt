-- ===== src/Slab/History/Fresh.antt =====
-- `insert` on a page (src/page/mod.rs) that has no storage yet, among other calls.
use sharded_slab.Base.{
  ℕ, zero, suc, ◌+◌, ◌-◌, ◌≤◌, ◌<◌, ◌≡◌, ◌⊎◌, refl, sym, ap, subst, lt→ltb, [], ◌∷◌, Option, none,
  some, get_elem?, arith,
}
use mathlib.Core.Option.{some-injective}
use sharded_slab.Config.{Config, null_addr}
use sharded_slab.Config.Valid.{IsConfig}
use sharded_slab.Key.{index}
use sharded_slab.Slot.Memory.{Slot}
use sharded_slab.Slot.Ops.{new_slot}
use sharded_slab.Slot.Story.{option_clear}
use sharded_slab.Stack.{new}
use sharded_slab.Page.{Shared, init_with, range_from, allocate, new_shared}
use sharded_slab.Page.Chain.{get_elem?-lt}
use sharded_slab.Page.Fresh.{row, fresh, allocate-FreeLists}
use sharded_slab.Page.Free.{FreeLists, set-FreeLists, rest-FreeLists}
use sharded_slab.Page.Front.{unused}
use sharded_slab.Page.Held.{one_if, range-SharedOut, in_use}
use sharded_slab.Slab.{insert_init}
use sharded_slab.Slab.Valid.{
  SlotOk, Ready, SlotsOk, Storage, unallocated, allocated, Placed, PageOk,
}
use sharded_slab.Slab.History.Filling.{Usable, Filled, used-Filled, listed-Filled}

-- A slot that a page has just been given.
pub row-new :
    {T : Type 0} (c : Config) (last n o : ℕ) (s : Slot (Option T))
    → get_elem? (row (new_slot option_clear) (new_slot option_clear (null_addr c)) last n) o
      ≡ some s
    → (next : ℕ) × (new_slot option_clear next ≡ s)
row-new c zero n zero s h = (null_addr c, some-injective _ _ h)
row-new c zero n (suc o) s h = absurd cc
row-new c (suc last) n zero s h = (n, some-injective _ _ h)
row-new c (suc last) n (suc o) s h = row-new c last (n + 1) o s h

-- A page that is given its storage.
module _ {T : Type 0} {c : Config} (ok : SlotOk T) {p : ℕ} (page : Shared (Option T))
    (placed : Placed c p page.size page.prev_sz)
    (outside : (a : ℕ)
      → index c a ≡ p
      → (a < page.prev_sz) ⊎ (page.prev_sz + page.size ≤ a)
      → Ready ok a)
    (unused_page : page.slab ≡ none)
    (none_returned : page.remote ≡ record { head = null_addr c; others = [] })
    (ready : (o : ℕ) → o < page.size → Ready ok (page.prev_sz + o)) where
  pub new-FreeLists :
      FreeLists c
        (record page { slab = some (fresh c option_clear (page.size - 1)) })
        0
        (fresh c option_clear (page.size - 1))
        (range_from page.size 0)
        []
  unfolding allocate new_shared new
  new-FreeLists =
      let f =
        allocate-FreeLists c option_clear page.size page.prev_sz placed.some_slots placed.fits in
      record {
        allocated = refl;
        sized = f.sized;
        null_outside = f.null_outside;
        local_chain = f.local_chain;
        remote_chain = omega (arith, placed.fits, ap (λ r. r.head) none_returned);
        remote_end = λ e. ap (λ r. r.head) none_returned;
        remote_quiet = ap (λ r. r.others) none_returned;
        local_distinct = f.local_distinct;
        remote_distinct = f.remote_distinct;
        apart = f.apart;
      }

  new-SlotsOk :
      SlotsOk ok page.prev_sz (fresh c option_clear (page.size - 1)) (range_from page.size 0) []
  unfolding new_slot
  new-SlotsOk o s h =
      let inside : o < page.size = omega (arith, get_elem?-lt _ o h, new-FreeLists.sized) in
      let (next, is) = row-new c (page.size - 1) 1 o s h in
      (
        subst (ok (page.prev_sz + o)) is (ready o inside next),
        omega (
          arith,
          range-SharedOut T page.size o,
          ap in_use (ap (λ r. r.item) (sym is)),
          ap one_if (lt→ltb o page.size inside),
        ),
      )

module _ {T : Type 0} {c : Config} (v : IsConfig c) (ok : SlotOk T) (value : T)
    (usable : (a : ℕ) (s : Slot (Option T)) → ok a s → s.item ≡ none → Usable c v ok value a s)
    {p : ℕ} where
  new-Filled :
      (page : Shared (Option T))
      → Placed c p page.size page.prev_sz
      → ((a : ℕ) → index c a ≡ p → (a < page.prev_sz) ⊎ (page.prev_sz + page.size ≤ a) → Ready ok a)
      → page.slab ≡ none
      → page.remote ≡ record { head = null_addr c; others = [] }
      → ((o : ℕ) → o < page.size → Ready ok (page.prev_sz + o))
      → Filled c ok p (init_with c option_clear (insert_init c value) [] 0 page)
  new-Filled page placed outside unused_page none_returned ready =
      let e : range_from page.size 0 ≡ 0 ∷ range_from (page.size - 1) 1 =
        let sum : page.size ≡ suc (page.size - 1) = omega (arith, placed.some_slots) in
        ap (λ n. range_from n 0) sum in
      let slots = fresh c option_clear (page.size - 1) in
      let f =
        subst (λ l. FreeLists c (record page { slab = some slots }) 0 slots l []) e
          (new-FreeLists ok page placed outside unused_page none_returned ready) in
      let each =
        subst (λ l. SlotsOk ok page.prev_sz slots l []) e
          (new-SlotsOk ok page placed outside unused_page none_returned ready) in
      let (s, found, rest) = f.local_chain.1 in
      used-Filled v ok value usable 0 page placed outside (0 ∷ range_from (page.size - 1) 1) []
        (range_from (page.size - 1) 1) [] (unused unused_page placed.some_slots placed.fits) s found
        each (λ i. omega arith)
        (λ t. set-FreeLists (rest-FreeLists 0 f) 0 t f.local_distinct.0 f.apart.0)

  -- `insert` on a page that is as it should be.
  pub page-Filled :
      (local : ℕ) (page : Shared (Option T))
      → PageOk c ok p local page
      → Filled c ok p (init_with c option_clear (insert_init c value) [] local page)
  page-Filled local page h = by_storage local page h.placed h.outside h.storage
    where
      by_storage :
          (local : ℕ) (page : Shared (Option T))
          → Placed c p page.size page.prev_sz
          → ((a : ℕ)
              → index c a ≡ p
              → (a < page.prev_sz) ⊎ (page.prev_sz + page.size ≤ a)
              → Ready ok a)
          → Storage c ok local page
          → Filled c ok p (init_with c option_clear (insert_init c value) [] local page)
      by_storage local page placed outside (unallocated e l r ready) =
          subst
            (λ (n : ℕ). Filled c ok p (init_with c option_clear (insert_init c value) [] n page))
            (sym l) (new-Filled page placed outside e r ready)
      by_storage local page placed outside (allocated slots xs ys f each) =
          listed-Filled v ok value usable local page placed outside slots xs ys f each
