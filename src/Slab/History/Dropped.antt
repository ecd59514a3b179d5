-- ===== src/Slab/History/Dropped.antt =====
-- The drop of the array of a slab (src/shard.rs) after any calls of any threads.
use sharded_slab.Base.{
  ℕ, zero, suc, ◌≤◌, ◌≡◌, ◌≢◌, refl, sym, ap, List, [], ◌∷◌, Option, none, some, lt→ltb, length,
  get_elem?, arith,
}
use mathlib.Core.List.{filter_map}
use sharded_slab.Config.{Config}
use sharded_slab.Config.Valid.{IsConfig}
use sharded_slab.Slot.Memory.{returns}
use sharded_slab.Shard.{Shard}
use sharded_slab.Shard.Array.{up_to, dropped_shards, drop_array}
use sharded_slab.Slab.{Slab}
use sharded_slab.Slab.History.{Live, Reachable}
use sharded_slab.Slab.History.Safe.{history-IsValid}

module _ {T : Type 0} where
  -- Where no index holds a shard there is none.
  no_shards :
      (ptrs : List (Option (Shard T)))
      → ((i : ℕ) (shard : Shard T) → get_elem? ptrs i ≢ some (some shard))
      → filter_map (λ ptr. ptr) ptrs ≡ []
  unfolding filter_map
  no_shards [] h = refl
  no_shards (none ∷ ptrs) h = no_shards ptrs (λ i. h (suc i))
  no_shards (some shard ∷ ptrs) h = absurd (h 0 shard refl)

  -- Behind the highest index there are no shards.
  dropped_shards-up_to :
      (n : ℕ) (ptrs : List (Option (Shard T)))
      → ((i : ℕ) (shard : Shard T) → get_elem? ptrs i ≡ some (some shard) → i ≤ n)
      → dropped_shards (up_to n ptrs) ≡ filter_map (λ ptr. ptr) ptrs
  unfolding dropped_shards filter_map
  dropped_shards-up_to n [] covered = refl
  dropped_shards-up_to zero (none ∷ ptrs) covered =
      sym (no_shards ptrs (λ i shard h. omega (arith, covered (suc i) shard h)))
  dropped_shards-up_to zero (some first ∷ ptrs) covered =
      ap (λ l. first ∷ l)
        (sym (no_shards ptrs (λ i shard h. omega (arith, covered (suc i) shard h))))
  dropped_shards-up_to (suc n) (none ∷ ptrs) covered =
      dropped_shards-up_to n ptrs (λ i shard h. omega (arith, covered (suc i) shard h))
  dropped_shards-up_to (suc n) (some first ∷ ptrs) covered =
      ap (λ l. first ∷ l)
        (dropped_shards-up_to n ptrs (λ i shard h. omega (arith, covered (suc i) shard h)))

-- After any calls of `insert`, `get`, `get_owned`, `contains`, `remove` and `take` and drops of
-- live entries by any threads, one after another, where no lookup or removal had a key of the
-- generation in which a free slot would be handed out next, the drop of the slab's array returns,
-- and it drops every shard of the array, once and in order, although it walks no further than the
-- highest index that `current` has stored.
pub drop_array_all :
    {T : Type 0} {c : Config} (v : IsConfig c) {slab : Slab T} {live : Live T}
    → Reachable c slab live
    → drop_array slab ≡ returns (filter_map (λ ptr. ptr) slab.shards)
unfolding drop_array
drop_array_all v {slab} r =
    let valid = history-IsValid v r in
    rw
      (drop_array, lt→ltb slab.max (length slab.shards) (omega (arith, valid.highest, valid.sized)))
      (ap returns (dropped_shards-up_to slab.max slab.shards valid.covered))
