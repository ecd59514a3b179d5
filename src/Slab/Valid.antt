-- ===== src/Slab/Valid.antt =====
-- When a slab (src/lib.rs) is well-formed, down to the slots of its pages: `ok` is what holds of the
-- slot at an address.
pub mod Pages
pub mod Slots
pub mod Spot
pub mod Nowhere
pub mod Changed
pub mod Moves
pub mod Fresh
use sharded_slab.Base.{
  ℕ, zero, suc, ◌+◌, ◌^◌, ◌≤◌, ◌<◌, ◌≡◌, ◌⊎◌, List, [], ◌∷◌, Option, none, some, get_elem?, length,
}
use sharded_slab.Config.{Config, addr_field, null_addr, max_shards}
use sharded_slab.Key.{index}
use sharded_slab.Slot.Memory.{Slot}
use sharded_slab.Slot.Ops.{new_slot}
use sharded_slab.Slot.Story.{option_clear}
use sharded_slab.Page.{Shared}
use sharded_slab.Page.Free.{FreeLists}
use sharded_slab.Page.Held.{count, in_use}
use sharded_slab.Shard.{Shard}
use sharded_slab.Slab.{Slab}

abbrev pub SlotOk : Type 0 → Type 1
SlotOk T = ℕ → Slot (Option T) → Type 0

-- The page has its place among the addresses: it is the one that `index` names.
pub record Placed (c : Config) (p : ℕ) (size prev_sz : ℕ) : Type 0 where
  pub some_slots : 1 ≤ size
  pub fits : size ≤ null_addr c
  pub in_addr : prev_sz + size ≤ 2 ^ (addr_field c).len
  pub on_page : (o : ℕ) → o < size → index c (prev_sz + o) ≡ p

module _ {T : Type 0} where
  -- A slot that is made at the address is as it should be.
  abbrev pub Ready : SlotOk T → ℕ → Type 0
  Ready ok a = (next : ℕ) → ok a (new_slot option_clear next)

  -- Every slot is on one of the two lists, once, or has a value.
  abbrev pub SlotsOk : SlotOk T → ℕ → List (Slot (Option T)) → List ℕ → List ℕ → Type 0
  SlotsOk ok prev_sz slots xs ys =
      (o : ℕ) (s : Slot (Option T))
      → get_elem? slots o ≡ some s
      → ok (prev_sz + o) s × (count o xs + count o ys + in_use s.item ≡ 1)

  pub data Storage (c : Config) (ok : SlotOk T) (local : ℕ) (page : Shared (Option T))
      : Type 0 where
    unallocated :
        page.slab ≡ none
        → local ≡ 0
        → page.remote ≡ record { head = null_addr c; others = [] }
        → ((o : ℕ) → o < page.size → Ready ok (page.prev_sz + o))
        → Storage c ok local page
    allocated :
        (slots : List (Slot (Option T))) (xs ys : List ℕ)
        → FreeLists c page local slots xs ys
        → SlotsOk ok page.prev_sz slots xs ys
        → Storage c ok local page

  pub record PageOk (c : Config) (ok : SlotOk T) (p local : ℕ) (page : Shared (Option T))
      : Type 0 where
    pub placed : Placed c p page.size page.prev_sz
    pub outside :
        (a : ℕ) → index c a ≡ p → (a < page.prev_sz) ⊎ (page.prev_sz + page.size ≤ a) → Ready ok a
    pub storage : Storage c ok local page

  -- The pages from the `p`-th on, with the heads of their local lists.
  abbrev pub PagesOk : Config → SlotOk T → ℕ → List ℕ → List (Shared (Option T)) → Type 0
  PagesOk c ok p [] [] = (a : ℕ) → p ≤ index c a → Ready ok a
  PagesOk c ok p [] (page ∷ pages) = ⊥
  PagesOk c ok p (local ∷ locals) [] = ⊥
  PagesOk c ok p (local ∷ locals) (page ∷ pages) =
      PageOk c ok p local page × PagesOk c ok (p + 1) locals pages

  -- The slab: `ok` also tells the threads apart.
  pub record IsValid (c : Config) (ok : ℕ → SlotOk T) (slab : Slab T) : Type 0 where
    pub sized : length slab.shards ≡ max_shards c
    pub highest : slab.max < max_shards c
    pub covered :
        (t : ℕ) (shard : Shard (Option T))
        → get_elem? slab.shards t ≡ some (some shard)
        → t ≤ slab.max
    pub shard :
        (t : ℕ) (shard : Shard (Option T))
        → get_elem? slab.shards t ≡ some (some shard)
        → PagesOk c (ok t) 0 shard.local shard.shared
    pub no_shard : (t : ℕ) → get_elem? slab.shards t ≡ some none → (a : ℕ) → Ready (ok t) a
    pub no_place : (t : ℕ) → get_elem? slab.shards t ≡ none → (a : ℕ) → Ready (ok t) a
