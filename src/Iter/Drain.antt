-- ===== src/Iter/Drain.antt =====
-- What `UniqueIter` (src/iter.rs) runs through.
use mathlib.Core.List.{append_assoc}
use sharded_slab.Slot.Memory.{returns}
use sharded_slab.Shard.Array.{up_to}
use sharded_slab.Base.{
  ◌<◌, length, lt→ltb, ◌≡◌, refl, sym, ap, subst, ◌∙◌, List, [], ◌∷◌, ◌++◌, Option, none, some,
}
use sharded_slab.Page.{Shared}
use sharded_slab.Page.Ops.{iter}
use sharded_slab.Slab.{Slab}
use sharded_slab.Iter.{
  UniqueIter, IterMut, iter_mut, first_iter, next_in_pages, next_in_shards, next_from_pages, next,
  first_page, unique_iter,
}

abbrev slots_items : {T : Type 0} → Option (List T) → List T
slots_items none = []
slots_items (some items) = items

-- The values on the pages, in their order.
abbrev pub pages_items : {T : Type 0} → List (Shared (Option T)) → List T
pages_items [] = []
pages_items (page ∷ pages) = slots_items (iter page) ++ pages_items pages

-- The values in the shards, in their order.
abbrev pub shards_items : {T : Type 0} → IterMut T → List T
shards_items [] = []
shards_items (none ∷ shards) = shards_items shards
shards_items (some shard ∷ shards) = pages_items shard.shared ++ shards_items shards

-- What an iterator has left.
abbrev pub items : {T : Type 0} → UniqueIter T → List T
items it = slots_items it.slots ++ (pages_items it.pages ++ shards_items it.shards)

-- A step of the iterator takes the first of the values that are left, if there is one.
abbrev pub TakesFirst : {T : Type 0} → List T → Option (T × UniqueIter T) → Type 0
TakesFirst values none = values ≡ []
TakesFirst values (some (item, it)) = values ≡ item ∷ items it

abbrev FirstOfPages :
    {T : Type 0} → List T → Option (T × List T × List (Shared (Option T))) → Type 0
FirstOfPages values none = values ≡ []
FirstOfPages values (some (item, rest, pages)) = values ≡ item ∷ (rest ++ pages_items pages)

next_in_pages-FirstOfPages :
    {T : Type 0} (pages : List (Shared (Option T)))
    → FirstOfPages (pages_items pages) (next_in_pages pages)
unfolding next_in_pages
next_in_pages-FirstOfPages [] = refl
next_in_pages-FirstOfPages {T} (page ∷ pages) = on (next_in_pages-FirstOfPages pages) (iter page)
  where
    on :
        FirstOfPages (pages_items pages) (next_in_pages pages)
        → (o : Option (List T))
        → FirstOfPages (slots_items o ++ pages_items pages) (elim o [
          | none ↦ next_in_pages pages
          | some slots ↦ elim slots [
            | [] ↦ next_in_pages pages
            | item ∷ rest ↦ some (item, rest, pages)
          ]
        ])
    on h none = h
    on h (some []) = h
    on h (some (x ∷ xs)) = refl

-- From the pages `values` on, or from the shards behind them.
found_in :
    {T : Type 0} (values : List T) (shards : IterMut T) (behind : Option (T × UniqueIter T))
    (o : Option (T × List T × List (Shared (Option T))))
    → FirstOfPages values o
    → TakesFirst (shards_items shards) behind
    → TakesFirst (values ++ shards_items shards) (elim o [
      | none ↦ behind
      | some found ↦
          some (found.0, record { shards = shards; pages = found.2; slots = some found.1 })
    ])
found_in values shards behind none e h =
    subst (λ l. TakesFirst (l ++ shards_items shards) behind) (sym e) h
found_in values shards behind (some (item, rest, pages)) e h =
    ap (λ l. l ++ shards_items shards) e
    ∙ ap (λ l. item ∷ l) (append_assoc rest (pages_items pages) (shards_items shards))

next_in_shards-TakesFirst :
    {T : Type 0} (shards : IterMut T) → TakesFirst (shards_items shards) (next_in_shards shards)
unfolding next_in_shards
next_in_shards-TakesFirst [] = refl
next_in_shards-TakesFirst (none ∷ shards) = next_in_shards-TakesFirst shards
next_in_shards-TakesFirst (some shard ∷ shards) =
    found_in (pages_items shard.shared) shards (next_in_shards shards) (next_in_pages shard.shared)
      (next_in_pages-FirstOfPages shard.shared) (next_in_shards-TakesFirst shards)

-- `next` takes the first of the values that are left, and none only where there are none left.
pub next-TakesFirst : {T : Type 0} (it : UniqueIter T) → TakesFirst (items it) (next it)
unfolding next next_from_pages
next-TakesFirst {T} it = on it.slots
  where
    from_pages :
        TakesFirst
          (pages_items it.pages ++ shards_items it.shards)
          (next_from_pages it.pages it.shards)
    from_pages =
        found_in (pages_items it.pages) it.shards (next_in_shards it.shards)
          (next_in_pages it.pages) (next_in_pages-FirstOfPages it.pages)
          (next_in_shards-TakesFirst it.shards)

    on :
        (o : Option (List T))
        → TakesFirst (slots_items o ++ (pages_items it.pages ++ shards_items it.shards)) (elim o [
          | none ↦ next_from_pages it.pages it.shards
          | some slots ↦ elim slots [
            | [] ↦ next_from_pages it.pages it.shards
            | item ∷ rest ↦ some (item, record it { slots = some rest })
          ]
        ])
    on none = from_pages
    on (some []) = from_pages
    on (some (x ∷ xs)) = refl

-- `unique_iter` begins with all the values of the shards up to the highest index, where that is an
-- index of the array.
unique_iter-items :
    {T : Type 0} (slab : Slab T)
    → slab.max < length slab.shards
    → (it : UniqueIter T) × (unique_iter slab ≡ returns it)
      × (items it ≡ shards_items (up_to slab.max slab.shards))
unfolding unique_iter iter_mut first_iter
unique_iter-items {T} slab inside =
    (first_iter (up_to slab.max slab.shards), ran, on (up_to slab.max slab.shards))
  where
    ran : unique_iter slab ≡ returns (first_iter (up_to slab.max slab.shards))
    ran = rw (unique_iter, iter_mut, lt→ltb _ _ inside) refl

    first :
        (pages : List (Shared (Option T))) (shards : IterMut T)
        → items (first_page pages shards) ≡ pages_items pages ++ shards_items shards
    first [] shards = refl
    first (page ∷ pages) shards =
        sym (append_assoc (slots_items (iter page)) (pages_items pages) (shards_items shards))

    on : (shards : IterMut T) → items (first_iter shards) ≡ shards_items shards
    on [] = refl
    on (none ∷ shards) = on shards
    on (some shard ∷ shards) = first shard.shared shards
