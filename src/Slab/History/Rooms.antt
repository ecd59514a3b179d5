-- ===== src/Slab/History/Rooms.antt =====
-- The free slots of a well-formed slab (src/lib.rs, src/shard.rs, src/page/mod.rs).
use sharded_slab.Base.{
  ℕ, suc, ◌+◌, ◌-◌, ◌≤◌, ◌<◌, ◌≡◌, ◌⊎◌, inl, inr, refl, sym, ap, subst, eq→==, List, [], ◌∷◌, ◌++◌,
  Option, none, some, All, length, get_elem?, arith,
}
use sharded_slab.Config.{Config, null_addr}
use sharded_slab.Key.{index}
use sharded_slab.Slot.Memory.{Slot}
use sharded_slab.Slot.Ops.{new_slot}
use sharded_slab.Slot.Story.{option_clear}
use sharded_slab.Stack.{TransferStack}
use sharded_slab.Page.{Shared}
use sharded_slab.Page.Chain.{get_elem?-lt, get_elem?-inside}
use sharded_slab.Page.Free.{FreeLists}
use sharded_slab.Page.Fresh.{fresh}
use sharded_slab.Page.Front.{Front, own, returned, unused}
use sharded_slab.Page.Held.{one_if, in_use, in_use-none}
use sharded_slab.Shard.Full.{Paired, Exhausted, heads, pages_of}
use sharded_slab.Slab.Valid.{
  SlotOk, Ready, SlotsOk, Storage, unallocated, allocated, Placed, PagesOk,
}
use sharded_slab.Slab.History.Fresh.{row-new, new-FreeLists}

-- Every slot of the page has a value.
abbrev pub AllUsed : {T : Type 0} → Shared (Option T) → Type 0
AllUsed page =
    (slots : List (Slot (Option _))) × (page.slab ≡ some slots) × All (λ s. in_use s.item ≡ 1) slots

-- The slot that the page hands out next.
pub record FreeSlot {T : Type 0} (c : Config) (ok : SlotOk T) (local : ℕ) (page : Shared (Option T))
    : Type 0 where
  pub slots : List (Slot (Option T))
  pub x : ℕ
  pub remote : TransferStack
  pub slot : Slot (Option T)
  pub front : Front c option_clear page local slots x remote
  pub found : get_elem? slots x ≡ some slot
  pub inside : x < page.size
  pub fine : ok (page.prev_sz + x) slot
  pub free : slot.item ≡ none

All-elements :
    {A : Type 0} (P : A → Type 0) (l : List A)
    → ((i : ℕ) (a : A) → get_elem? l i ≡ some a → P a)
    → All P l
All-elements P [] h = tt
All-elements P (a ∷ l) h = (h 0 a refl, All-elements P l (λ i. h (suc i)))

module _ {T : Type 0} (c : Config) (ok : SlotOk T) (p : ℕ) where
  listed_free :
      (local : ℕ) (page : Shared (Option T)) (slots : List (Slot (Option T))) (xs ys : List ℕ)
      → FreeLists c page local slots xs ys
      → SlotsOk ok page.prev_sz slots xs ys
      → FreeSlot c ok local page ⊎ (Exhausted c (local, page) × AllUsed page)
  listed_free local page slots (x ∷ xs) ys f each =
      let (s, found, rest) = f.local_chain.1 in
      let (fine, once) = each x s found in
      inl (record {
        slots = slots;
        x = x;
        remote = page.remote;
        slot = s;
        front = own f;
        found = found;
        inside = omega (arith, get_elem?-lt slots x found, f.sized);
        fine = fine;
        free = in_use-none s.item (omega (arith, once, ap one_if (eq→== x x refl)));
      })
  listed_free local page slots [] (y ∷ ys) f each =
      let (s, found, rest) = f.remote_chain.1 in
      let (fine, once) = each y s found in
      inl (record {
        slots = slots;
        x = y;
        remote = record { head = null_addr c; others = [] };
        slot = s;
        front = returned f;
        found = found;
        inside = omega (arith, get_elem?-lt slots y found, f.sized);
        fine = fine;
        free = in_use-none s.item (omega (arith, once, ap one_if (eq→== y y refl)));
      })
  listed_free local page slots [] [] f each = inr (
    (slots, f),
    (
      slots,
      f.allocated,
      All-elements (λ s. in_use s.item ≡ 1) slots (λ o s h. omega (arith, (each o s h).1)),
    ),
  )

  page_free :
      (local : ℕ) (page : Shared (Option T))
      → Placed c p page.size page.prev_sz
      → ((a : ℕ) → index c a ≡ p → (a < page.prev_sz) ⊎ (page.prev_sz + page.size ≤ a) → Ready ok a)
      → Storage c ok local page
      → FreeSlot c ok local page ⊎ (Exhausted c (local, page) × AllUsed page)
  unfolding new_slot
  page_free local page placed ready_outside (allocated slots xs ys f each) =
      listed_free local page slots xs ys f each
  page_free local page placed ready_outside (unallocated e l r ready) =
      let sized = (new-FreeLists ok page placed ready_outside e r ready).sized in
      let (s, found) =
        get_elem?-inside (fresh c option_clear (page.size - 1)) 0
          (omega (arith, sized, placed.some_slots)) in
      let (next, is) = row-new c (page.size - 1) 1 0 s found in
      inl (record {
        slots = fresh c option_clear (page.size - 1);
        x = 0;
        remote = page.remote;
        slot = s;
        front =
            subst
              (λ (n : ℕ).
                Front c option_clear page n (fresh c option_clear (page.size - 1)) 0 page.remote)
              (sym l) (unused e placed.some_slots placed.fits);
        found = found;
        inside = placed.some_slots;
        fine = subst (ok (page.prev_sz + 0)) is (ready 0 placed.some_slots next);
        free = ap (λ q. q.item) (sym is);
      })

-- The first page with a free slot, behind pages that have none.
pub record HasFree {T : Type 0} (c : Config) (ok : SlotOk T) (p : ℕ) (locals : List ℕ)
    (pages : List (Shared (Option T))) : Type 0 where
  pub fulls : List (Paired (Option T))
  pub local : ℕ
  pub locals_behind : List ℕ
  pub page : Shared (Option T)
  pub pages_behind : List (Shared (Option T))
  pub full : All (Exhausted c) fulls
  pub locals_eq : locals ≡ heads fulls ++ (local ∷ locals_behind)
  pub pages_eq : pages ≡ pages_of fulls ++ (page ∷ pages_behind)
  pub placed : Placed c (p + length fulls) page.size page.prev_sz
  pub free : FreeSlot c ok local page

-- No page has one.
pub record NoneFree {T : Type 0} (c : Config) (locals : List ℕ) (pages : List (Shared (Option T)))
    : Type 0 where
  pub fulls : List (Paired (Option T))
  pub full : All (Exhausted c) fulls
  pub used : All AllUsed pages
  pub locals_eq : locals ≡ heads fulls ++ []
  pub pages_eq : pages ≡ pages_of fulls ++ []

module _ {T : Type 0} (c : Config) (ok : SlotOk T) where
  behind :
      (p local : ℕ) (page : Shared (Option T)) (locals : List ℕ) (pages : List (Shared (Option T)))
      → Exhausted c (local, page)
      → AllUsed page
      → HasFree c ok (p + 1) locals pages ⊎ NoneFree c locals pages
      → HasFree c ok p (local ∷ locals) (page ∷ pages) ⊎ NoneFree c (local ∷ locals) (page ∷ pages)
  behind p local page locals pages full used (inl h) =
      let e : p + 1 + length h.fulls ≡ p + suc (length h.fulls) = omega arith in
      inl (record {
        fulls = (local, page) ∷ h.fulls;
        local = h.local;
        locals_behind = h.locals_behind;
        page = h.page;
        pages_behind = h.pages_behind;
        full = (full, h.full);
        locals_eq = ap (λ l. local ∷ l) h.locals_eq;
        pages_eq = ap (λ l. page ∷ l) h.pages_eq;
        placed = subst (λ (n : ℕ). Placed c n h.page.size h.page.prev_sz) e h.placed;
        free = h.free;
      })
  behind p local page locals pages full used (inr h) = inr (record {
    fulls = (local, page) ∷ h.fulls;
    full = (full, h.full);
    used = (used, h.used);
    locals_eq = ap (λ l. local ∷ l) h.locals_eq;
    pages_eq = ap (λ l. page ∷ l) h.pages_eq;
  })

  pub first_free :
      (p : ℕ) (locals : List ℕ) (pages : List (Shared (Option T)))
      → PagesOk c ok p locals pages
      → HasFree c ok p locals pages ⊎ NoneFree c locals pages
  first_free p [] [] h =
      inr (record { fulls = []; full = tt; used = tt; locals_eq = refl; pages_eq = refl })
  first_free p [] (page ∷ pages) h = absurd h
  first_free p (local ∷ locals) [] h = absurd h
  first_free p (local ∷ locals) (page ∷ pages) h =
      elim (page_free c ok p local page h.0.placed h.0.outside h.0.storage) [
        | inl free ↦
            let e : p ≡ p + 0 = omega arith in
            inl (record {
              fulls = [];
              local = local;
              locals_behind = locals;
              page = page;
              pages_behind = pages;
              full = tt;
              locals_eq = refl;
              pages_eq = refl;
              placed = subst (λ (n : ℕ). Placed c n page.size page.prev_sz) e h.0.placed;
              free = free;
            })
        | inr (full, used) ↦
            behind p local page locals pages full used (first_free (p + 1) locals pages h.1)
      ]
