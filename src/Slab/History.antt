-- ===== src/Slab/History.antt =====
-- Any calls of any threads on a slab (src/lib.rs), one after another, with the entries that are alive
-- in between: where they are, and what they refer to.
pub mod Slots
pub mod Places
pub mod Getting
pub mod Removing
pub mod Clearing
pub mod Dropping
pub mod Looking
pub mod Filling
pub mod Fresh
pub mod Inserting
pub mod Safe
pub mod Guards
pub mod Rooms
pub mod Found
pub mod Dropped
use mathlib.Core.Option
use sharded_slab.Base.{
  ℕ, ◌≡◌, Bool, true, false, ◌&&◌, ◌==◌, if◌then◌else◌, List, [], ◌∷◌, Option, none, some, All,
  length, get_elem?,
}
use sharded_slab.Config.{Config}
use sharded_slab.Key.{unpack_tid, unpack_addr, unpack_gen, indices}
use sharded_slab.Lifecycle.{gen_from_packed, refs_from_packed}
use sharded_slab.Slot.Memory.{Slot, Outcome, returns}
use sharded_slab.Page.{slot_at, offset_in}
use sharded_slab.Shard.Array.{get_shard, new_array}
use sharded_slab.Slab.{
  Slab, Entry, OwnedEntry, slab_insert, slab_get, slab_get_owned, contains, slab_remove, slab_take,
  drop_entry, drop_owned_entry, new_with_config,
}

-- The slot that a key finds.
unfoldable pub slot_of : {T : Type 0} → Config → ℕ → Slab T → Option (Slot (Option T))
slot_of c key slab = elim (get_shard (unpack_tid c key) slab) [
  | none ↦ none
  | some shard ↦ elim (get_elem? shard.shared (indices c key).1) [
    | none ↦ none
    | some page ↦ slot_at page (offset_in c page (indices c key).0)
  ]
]

-- A slot that is free has the key's generation.
abbrev pub free_at : {T : Type 0} → Config → ℕ → Option (Slot (Option T)) → Bool
free_at c gen none = false
free_at c gen (some s) = elim s.item [
  | none ↦ gen_from_packed c s.lifecycle == gen
  | some value ↦ false
]

-- The key is that of the generation in which its slot, which is free, will be handed out next.
abbrev pub coming : {T : Type 0} → Config → ℕ → Slab T → Bool
coming c key slab = free_at c (unpack_gen c key) (slot_of c key slab)

-- The entries that are alive, by the thread and the address in their keys: their values and
-- generations.
abbrev pub Live : Type 0 → Type 0
Live T = ℕ → ℕ → List (T × ℕ)

module _ {T : Type 0} (c : Config) where
  abbrev pub live_at : ℕ → Live T → List (T × ℕ)
  live_at key live = live (unpack_tid c key) (unpack_addr c key)

  -- The place of the key has other entries.
  abbrev pub with_live : ℕ → List (T × ℕ) → Live T → Live T
  with_live key entries live t a =
      if t == unpack_tid c key && a == unpack_addr c key then entries else live t a

  -- `get` has found a value, or not.
  abbrev pub answered : ℕ → Option T → Live T → Live T
  answered key none live = live
  answered key (some value) live = with_live key ((value, unpack_gen c key) ∷ live_at key live) live

-- The slabs that calls can make of a new one, one after another. `take` waits for the entries, and
-- returns when there are none.
pub data Reachable {T : Type 0} (c : Config) : Slab T → Live T → Type 0 where
  starts : (slab : Slab T) → new_with_config c ≡ returns slab → Reachable c slab (λ t a. [])
  inserts :
      {slab slab' : Slab T} {live : Live T}
      → Reachable c slab live
      → (me : ℕ) (value : T) (key : Option ℕ)
      → slab_insert c me value (λ page. []) [] slab ≡ returns (key, slab')
      → Reachable c slab' live
  gets :
      {slab slab' : Slab T} {live : Live T}
      → Reachable c slab live
      → (me key : ℕ) (entry : Option (Entry T)) → coming c key slab ≡ false
      → slab_get c me key [] slab ≡ returns (entry, slab')
      → Reachable c slab' (answered c key (Option.map (λ e. e.value) entry) live)
  gets_owned :
      {slab slab' : Slab T} {live : Live T}
      → Reachable c slab live
      → (me key : ℕ) (entry : Option (OwnedEntry T)) → coming c key slab ≡ false
      → slab_get_owned c me key [] slab ≡ returns (entry, slab')
      → Reachable c slab' (answered c key (Option.map (λ e. e.value) entry) live)
  looks :
      {slab slab' : Slab T} {live : Live T}
      → Reachable c slab live
      → (me key : ℕ) (answer : Bool) → coming c key slab ≡ false
      → contains c me key [] [] [] slab ≡ returns (answer, slab')
      → Reachable c slab' live
  removes :
      {slab slab' : Slab T} {live : Live T}
      → Reachable c slab live
      → (me key : ℕ) (answer : Bool) → coming c key slab ≡ false
      → slab_remove c me key [] slab ≡ returns (answer, slab')
      → Reachable c slab' live
  takes :
      {slab slab' : Slab T} {live : Live T}
      → Reachable c slab live
      → (me key : ℕ) (taken : Option T) → coming c key slab ≡ false
      → slab_take c me key [] slab ≡ returns (taken, slab')
      → Reachable c slab' live
  drops :
      {slab slab' : Slab T} {live : Live T}
      → Reachable c slab live
      → (me : ℕ) (entry : Entry T) (rest : List (T × ℕ))
      → live_at c entry.key live ≡ (entry.value, unpack_gen c entry.key) ∷ rest
      → drop_entry c me entry [] [] slab ≡ returns (tt, slab')
      → Reachable c slab' (with_live c entry.key rest live)
  drops_owned :
      {slab slab' : Slab T} {live : Live T}
      → Reachable c slab live
      → (me : ℕ) (entry : OwnedEntry T) (rest : List (T × ℕ))
      → live_at c entry.key live ≡ (entry.value, unpack_gen c entry.key) ∷ rest
      → drop_owned_entry c me entry [] [] slab ≡ returns (tt, slab')
      → Reachable c slab' (with_live c entry.key rest live)
