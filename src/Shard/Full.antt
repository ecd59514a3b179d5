-- ===== src/Shard/Full.antt =====
-- `Shard::init_with` of src/shard.rs on pages that have no free slot.
use sharded_slab.Base.{
  ℕ, ◌+◌, ◌≡◌, refl, List, [], ◌∷◌, ◌++◌, map, Option, none, some, get_elem?, length, All,
}
use sharded_slab.Config.{Config}
use sharded_slab.Slot.Memory.{Slot, World, Outcome, returns}
use sharded_slab.Slot.Ops.{Clear}
use sharded_slab.Page.{Shared}
use sharded_slab.Page.Free.{FreeLists, drained}
use sharded_slab.Page.Alloc.{init_with_full}
use sharded_slab.Shard.{Shard, init_pages, init_shard}
use sharded_slab.Shard.Array.{Array, put_shard, current_shard}

-- A page and the head of its local list.
abbrev pub Paired : Type 0 → Type 0
Paired T = ℕ × Shared T

-- Both of its lists are empty.
abbrev pub Exhausted : {T : Type 0} → Config → Paired T → Type 0
Exhausted {T} c (local, page) = (slots : List (Slot T)) × FreeLists c page local slots [] []

abbrev pub heads : {T : Type 0} → List (Paired T) → List ℕ
heads fulls = map (λ p. p.0) fulls

abbrev pub pages_of : {T : Type 0} → List (Paired T) → List (Shared T)
pages_of fulls = map (λ p. p.1) fulls

abbrev pub drained_pages : {T : Type 0} → Config → List (Paired T) → List (Shared T)
drained_pages c fulls = map (λ p. drained c p.1) fulls

pub get_elem?-after :
    {A B : Type 0} (f : A → B) (l : List A) (b : B) (bs : List B)
    → get_elem? (map f l ++ (b ∷ bs)) (length l) ≡ some b
get_elem?-after f [] b bs = refl
get_elem?-after f (a ∷ l) b bs = get_elem?-after f l b bs

module _ {T U : Type 0} (c : Config) (cl : Clear T)
    (init : ℕ → World T → Outcome (Option U × World T)) where
  -- Pages without a free slot are passed over.
  pub init_pages-skip :
      (fulls : List (Paired T)) (locals locals' : List ℕ) (pages pages' : List (Shared T))
      (result : Option U)
      → All (Exhausted c) fulls
      → ((j : ℕ)
          → init_pages c cl init (λ p. []) j locals pages ≡ returns (result, locals', pages'))
      → (j : ℕ)
      → init_pages c cl init (λ p. []) j (heads fulls ++ locals) (pages_of fulls ++ pages)
        ≡ returns (result, heads fulls ++ locals', drained_pages c fulls ++ pages')
  unfolding init_pages
  init_pages-skip [] locals locals' pages pages' result full rest j = rest j
  init_pages-skip ((local, page) ∷ fulls) locals locals' pages pages' result ((slots, f), full) rest
        j =
      rw
        (
          init_pages,
          init_with_full c cl init [] f,
          init_pages-skip fulls locals locals' pages pages' result full rest (j + 1),
        )
        refl

-- Every page of the thread's shard is exhausted.
pub record NoRoom {T : Type 0} (c : Config) (me : ℕ) (array : Array T) : Type 0 where
  pub shard : Shard T
  pub current : Array T
  pub fulls : List (Paired T)
  pub found_shard : current_shard c me [] array ≡ returns (shard, current)
  pub full : All (Exhausted c) fulls
  pub locals_eq : shard.local ≡ heads fulls ++ []
  pub pages_eq : shard.shared ≡ pages_of fulls ++ []

module _ {T : Type 0} {c : Config} {me : ℕ} {array : Array T} (x : NoRoom c me array) where
  abbrev pub shard_left : Shard T
  shard_left = record (x.shard) {
    local = heads x.fulls ++ [];
    shared = drained_pages c x.fulls ++ [];
  }

  -- The array with the remote lists of the shard's pages popped, which were empty.
  abbrev pub array_left : Array T
  array_left = put_shard me shard_left x.current

module _ {T U : Type 0} {c : Config} {me : ℕ} {array : Array T} (x : NoRoom c me array)
    (cl : Clear T) (init : ℕ → World T → Outcome (Option U × World T)) where
  no_page : (j : ℕ) → init_pages c cl init (λ p. []) j [] [] ≡ returns (none, [], [])
  unfolding init_pages
  no_page j = refl

  -- `init_with` then finds no slot.
  pub init_shard-NoRoom : init_shard c cl init (λ p. []) x.shard ≡ returns (none, shard_left x)
  unfolding init_shard
  init_shard-NoRoom =
      rw
        (
          init_shard,
          x.locals_eq,
          x.pages_eq,
          init_pages-skip c cl init x.fulls [] [] [] [] none x.full no_page 0,
        )
        refl
