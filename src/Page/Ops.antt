-- ===== src/Page/Ops.antt =====
-- src/page/mod.rs: removing from a page and clearing on it. The caller passes the free list that a
-- freed slot goes to.
use sharded_slab.Base.{ℕ, Bool, false, List, Option, none, some}
use mathlib.Core.Option
use mathlib.Core.List.{filter_map}
use sharded_slab.Config.{Config}
use sharded_slab.Slot.Memory.{Slot, World, Outcome, returns, ◌>>=◌}
use sharded_slab.Slot.Ops.{
  FreeList, Clear, clear_storage, try_clear_storage, remove_value, try_remove_value,
}
use sharded_slab.Page.{Shared, offset_in, slot_at, put_slot}

module _ {T F A : Type 0} (c : Config) where
  -- What the four functions share: the call on the slot at the address, or the answer for a slot
  -- that does not exist.
  unfoldable pub on_slot :
      A
      → (ℕ → F → World T → Outcome (A × F × World T))
      → ℕ
      → List (Slot T → Slot T)
      → F
      → Shared T
      → Outcome (A × F × Shared T)
  on_slot missing op addr others free page =
      let offset = offset_in c page addr in
      elim (slot_at page offset) [
        | none ↦ returns (missing, free, page)
        | some slot ↦ do
          (result, free', w) ← op offset free (record { slot = slot; others = others })
          returns (result, free', put_slot offset w.slot page)
      ]

module _ {T F : Type 0} (c : Config) (fl : FreeList (Option T) F) (addr gen : ℕ)
    (others : List (Slot (Option T) → Slot (Option T))) where
  -- `Shared::take`
  unfoldable pub take : F → Shared (Option T) → Outcome (Option T × F × Shared (Option T))
  take free page = on_slot c none (remove_value c fl gen) addr others free page

  -- `Shared::remove`
  unfoldable pub remove : F → Shared (Option T) → Outcome (Bool × F × Shared (Option T))
  remove free page = on_slot c false (try_remove_value c fl gen) addr others free page

module _ {T F : Type 0} (c : Config) (fl : FreeList T F) (cl : Clear T) (addr gen : ℕ)
    (others : List (Slot T → Slot T)) where
  -- `Shared::mark_clear`
  unfoldable pub mark_clear : F → Shared T → Outcome (Bool × F × Shared T)
  mark_clear free page = on_slot c false (try_clear_storage c fl cl gen) addr others free page

  -- `Shared::clear`
  unfoldable pub clear : F → Shared T → Outcome (Bool × F × Shared T)
  clear free page = on_slot c false (clear_storage c fl cl gen) addr others free page

-- `Shared::iter`, as the values that it runs through.
unfoldable pub iter : {T : Type 0} → Shared (Option T) → Option (List T)
iter page = Option.map (λ slots. filter_map (λ slot. slot.item) slots) page.slab
