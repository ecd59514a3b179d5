-- ===== src/Page/Front.antt =====
-- The slot that `init_with` of src/page/mod.rs takes, wherever it comes from: the local list, the
-- remote list, or the storage that a page is given at its first use.
use sharded_slab.Base.{
  ℕ, ◌-◌, ◌≤◌, ◌≡◌, refl, ap, List, [], ◌∷◌, Option, none, some, get_elem?, set, arith,
}
use sharded_slab.Config.{Config, null_addr}
use sharded_slab.Slot.Memory.{Slot, World, Outcome, returns}
use sharded_slab.Slot.Ops.{Clear}
use sharded_slab.Stack.{TransferStack}
use sharded_slab.Page.{Shared, allocate, init_with}
use sharded_slab.Page.Fresh.{fresh}
use sharded_slab.Page.Free.{FreeLists}
use sharded_slab.Page.Alloc.{
  Succeeds, pop-here, init_slot-found, init_with-first, init_with-drained,
}

-- The next slot of a page is `x` among `slots`; taking it leaves `remote` as the remote list.
pub data Front {T : Type 0} (c : Config) (cl : Clear T)
    : Shared T → ℕ → List (Slot T) → ℕ → TransferStack → Type 0 where
  own :
      {page : Shared T} {local x : ℕ} {slots : List (Slot T)} {xs ys : List ℕ}
      → FreeLists c page local slots (x ∷ xs) ys
      → Front c cl page local slots x page.remote
  returned :
      {page : Shared T} {local x : ℕ} {slots : List (Slot T)} {ys : List ℕ}
      → FreeLists c page local slots [] (x ∷ ys)
      → Front c cl page local slots x (record { head = null_addr c; others = [] })
  unused :
      {page : Shared T}
      → page.slab ≡ none
      → 1 ≤ page.size
      → page.size ≤ null_addr c
      → Front c cl page 0 (fresh c cl (page.size - 1)) 0 page.remote

module _ {T U : Type 0} {c : Config} (cl : Clear T)
    (init : ℕ → World T → Outcome (Option U × World T)) (others : List (Slot T → Slot T)) where
  init_with-unused :
      (page : Shared T) (s : Slot T)
      → page.slab ≡ none
      → 1 ≤ page.size
      → page.size ≤ null_addr c
      → get_elem? (fresh c cl (page.size - 1)) 0 ≡ some s
      → (z : Succeeds c init others page.prev_sz 0 s)
      → init_with c cl init others 0 page
        ≡ returns (
          some z.value,
          z.world.slot.next,
          record page { slab = some (set (fresh c cl (page.size - 1)) 0 z.world.slot) },
        )
  unfolding init_with allocate
  init_with-unused page s none_yet some_slots fits found z =
      let popped = pop-here c 0 page (omega arith) fits in
      rw (init_with, ap (λ r. r.0) popped, ap (λ r. r.1) popped, none_yet)
        (init_slot-found c cl init others 0 0 (allocate c cl page) (fresh c cl (page.size - 1)) s
          refl found z)

  pub init_with-front :
      {page : Shared T} {local x : ℕ} {slots : List (Slot T)} {remote : TransferStack}
      → Front c cl page local slots x remote
      → (s : Slot T) → get_elem? slots x ≡ some s
      → (z : Succeeds c init others page.prev_sz x s)
      → init_with c cl init others local page
        ≡ returns (
          some z.value,
          z.world.slot.next,
          record page { remote = remote; slab = some (set slots x z.world.slot) },
        )
  init_with-front (own f) s found z = init_with-first c cl init others f s found z
  init_with-front (returned f) s found z = init_with-drained c cl init others f s found z
  init_with-front (unused a b d) s found z = init_with-unused _ s a b d found z
