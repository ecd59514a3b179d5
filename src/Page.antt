-- ===== src/Page.antt =====
-- src/page/mod.rs: `Shared`, a page of slots with its two free lists. The own thread's list,
-- `Local`, is the number in its one field. The arguments `others` are what the other threads do to
-- the slot that the call works on.
pub mod Ops
pub mod Chain
pub mod Free
pub mod Alloc
pub mod Fresh
pub mod Front
pub mod Held
pub mod Removal
use sharded_slab.Base.{
  ℕ, zero, suc, ◌+◌, ◌-◌, ◌%◌, ◌^◌, Bool, true, false, List, [], ◌∷◌, ◌++◌, map, Option, none, some,
  ltb, ◌==◌, if◌then◌else◌, get_elem?, set,
}
use sharded_slab.Config.{Config, null_addr}
use sharded_slab.Slot.Memory.{Slot, World, Outcome, returns, panics, ◌>>=◌}
use sharded_slab.Slot.Ops.{Clear, new_slot}
use sharded_slab.Stack.{TransferStack, new, pop_all}

pub record Shared (T : Type 0) : Type 0 where
  pub remote : TransferStack
  pub size : ℕ
  pub prev_sz : ℕ
  pub slab : Option (List (Slot T))

-- `Local::new`
abbrev pub new_local : ℕ
new_local = 0

-- `Shared::new`
unfoldable pub new_shared : {T : Type 0} → Config → ℕ → ℕ → Shared T
new_shared c size prev_sz = record { remote = new c; size = size; prev_sz = prev_sz; slab = none }

-- The numbers from `n` on, `count` of them.
abbrev pub range_from : ℕ → ℕ → List ℕ
range_from zero n = []
range_from (suc count) n = n ∷ range_from count (n + 1)

-- The end of `Shared::pop`: a head that is still null means that both lists are empty.
abbrev pub not_null : Config → ℕ → Option ℕ
not_null c head = if head == null_addr c then none else some head

module _ {T : Type 0} where
  -- `Shared::is_unallocated`
  abbrev pub is_unallocated : Shared T → Bool
  is_unallocated page = elim page.slab [ none ↦ true | some slots ↦ false ]

  -- `slab.as_ref()` and `slab.get(offset)`
  abbrev pub slot_at : Shared T → ℕ → Option (Slot T)
  slot_at page offset = elim page.slab [ none ↦ none | some slots ↦ get_elem? slots offset ]

  abbrev pub put_slot : ℕ → Slot T → Shared T → Shared T
  put_slot offset slot page = elim page.slab [
    | none ↦ page
    | some slots ↦ record page { slab = some (set slots offset slot) }
  ]

module _ {T : Type 0} (c : Config) where
  -- `Shared::pop`, of a page and its local head.
  unfoldable pub pop : ℕ → Shared T → Option ℕ × Shared T
  pop local page =
      let (popped, remote') = pop_all c page.remote in
      let page' = record page { remote = remote' } in
      if ltb local page.size
      then (not_null c local, page)
      else elim popped [ none ↦ (none, page') | some head ↦ (not_null c head, page') ]

  -- `Shared::allocate`
  unfoldable pub allocate : Clear T → Shared T → Shared T
  allocate cl page = record page {
    slab =
        some (map (new_slot cl) (range_from (page.size - 1) 1) ++ (new_slot cl (null_addr c) ∷ []));
  }

  -- `addr.offset() - self.prev_sz`, which wraps.
  abbrev pub offset_in : Shared T → ℕ → ℕ
  offset_in page addr = (addr + 2 ^ c.width - page.prev_sz) % 2 ^ c.width

  -- `Shared::with_slot`
  unfoldable pub with_slot :
      {U : Type 0}
      → ℕ
      → (World T → Outcome (Option U × World T))
      → List (Slot T → Slot T)
      → Shared T
      → Outcome (Option U × Shared T)
  with_slot addr f others page =
      let poff = offset_in page addr in
      elim (slot_at page poff) [
        | none ↦ returns (none, page)
        | some slot ↦ do
          (result, w) ← f (record { slot = slot; others = others })
          returns (result, put_slot poff w.slot page)
      ]

  -- `Shared::init_with` on the slot that `pop` found, once the page has storage.
  unfoldable pub init_slot :
      {U : Type 0}
      → ℕ
      → (ℕ → World T → Outcome (Option U × World T))
      → List (Slot T → Slot T)
      → ℕ
      → Shared T
      → Outcome (Option U × ℕ × Shared T)
  init_slot head init others local page = elim (slot_at page head) [
    | none ↦ panics
    | some slot ↦ do
      (result, w) ←
          init ((head + page.prev_sz) % 2 ^ c.width) (record { slot = slot; others = others })
      returns
          (result, elim result [ none ↦ local | some _ ↦ w.slot.next ], put_slot head w.slot page)
  ]

  -- `Shared::init_with`; the number that is returned is the local head.
  unfoldable pub init_with :
      {U : Type 0}
      → Clear T
      → (ℕ → World T → Outcome (Option U × World T))
      → List (Slot T → Slot T)
      → ℕ
      → Shared T
      → Outcome (Option U × ℕ × Shared T)
  init_with cl init others local page =
      let (popped, page') = pop local page in
      elim popped [
        | none ↦ returns (none, local, page')
        | some head ↦
            init_slot head init others local
              (if is_unallocated page' then allocate cl page' else page')
      ]
