-- ===== src/Iter.antt =====
-- src/iter.rs: `UniqueIter`, with `Array::iter_mut` and `IterMut` of src/shard.rs and
-- `Slab::unique_iter` of src/lib.rs. An iterator is what it has left. `Slab::unique_iter` borrows
-- the slab mutably, so that no other thread accesses it.
pub mod Drain
use sharded_slab.Base.{ltb, length, if◌then◌else◌, List, [], ◌∷◌, Option, none, some}
use sharded_slab.Slot.Memory.{Outcome, returns, panics, ◌>>=◌}
use sharded_slab.Page.{Shared}
use sharded_slab.Page.Ops.{iter}
use sharded_slab.Shard.{Shard}
use sharded_slab.Shard.Array.{up_to}
use sharded_slab.Slab.{Slab}

-- `IterMut`
abbrev pub IterMut : Type 0 → Type 0
IterMut T = List (Option (Shard (Option T)))

-- `Array::iter_mut`, whose slice panics where the highest index is out of range.
unfoldable pub iter_mut : {T : Type 0} → Slab T → Outcome (IterMut T)
iter_mut slab =
    if ltb slab.max (length slab.shards) then returns (up_to slab.max slab.shards) else panics

-- `IterMut::next`
abbrev pub next_shard : {T : Type 0} → IterMut T → Option (Shard (Option T) × IterMut T)
next_shard [] = none
next_shard (none ∷ shards) = next_shard shards
next_shard (some shard ∷ shards) = some (shard, shards)

pub record UniqueIter (T : Type 0) : Type 0 where
  pub shards : IterMut T
  pub pages : List (Shared (Option T))
  pub slots : Option (List T)

-- What the two iterators of a page and of its slots give next: the slots of the first page that has
-- storage and a value in it, and the pages behind it.
unfoldable pub next_in_pages :
    {T : Type 0} → List (Shared (Option T)) → Option (T × List T × List (Shared (Option T)))
next_in_pages [] = none
next_in_pages (page ∷ pages) = elim (iter page) [
  | none ↦ next_in_pages pages
  | some slots ↦ elim slots [ [] ↦ next_in_pages pages | item ∷ rest ↦ some (item, rest, pages) ]
]

-- The same from the next shard on.
unfoldable pub next_in_shards : {T : Type 0} → IterMut T → Option (T × UniqueIter T)
next_in_shards [] = none
next_in_shards (none ∷ shards) = next_in_shards shards
next_in_shards (some shard ∷ shards) =
    let rest = next_in_shards shards in
    elim (next_in_pages shard.shared) [
      | none ↦ rest
      | some found ↦
          some (found.0, record { shards = shards; pages = found.2; slots = some found.1 })
    ]

-- Where the slots of a page are used up: the pages of the shard, and then the other shards.
unfoldable pub next_from_pages :
    {T : Type 0} → List (Shared (Option T)) → IterMut T → Option (T × UniqueIter T)
next_from_pages pages shards = elim (next_in_pages pages) [
  | none ↦ next_in_shards shards
  | some found ↦ some (found.0, record { shards = shards; pages = found.2; slots = some found.1 })
]

-- `UniqueIter::next`
unfoldable pub next : {T : Type 0} → UniqueIter T → Option (T × UniqueIter T)
next it = elim it.slots [
  | none ↦ next_from_pages it.pages it.shards
  | some slots ↦ elim slots [
    | [] ↦ next_from_pages it.pages it.shards
    | item ∷ rest ↦ some (item, record it { slots = some rest })
  ]
]

-- `pages.next().and_then(page::Shared::iter)`, with the pages left.
abbrev pub first_page : {T : Type 0} → List (Shared (Option T)) → IterMut T → UniqueIter T
first_page [] shards = record { shards = shards; pages = []; slots = none }
first_page (page ∷ pages) shards = record { shards = shards; pages = pages; slots = iter page }

-- What `Slab::unique_iter` makes of the shards.
unfoldable pub first_iter : {T : Type 0} → IterMut T → UniqueIter T
first_iter shards = elim (next_shard shards) [
  | none ↦ record { shards = []; pages = []; slots = none }
  | some found ↦ first_page (found.0).shared found.1
]

-- `Slab::unique_iter`
unfoldable pub unique_iter : {T : Type 0} → Slab T → Outcome (UniqueIter T)
unfolding first_iter
unique_iter slab = do shards ← iter_mut slab; returns (first_iter shards)
