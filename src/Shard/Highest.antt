-- ===== src/Shard/Highest.antt =====
-- The highest index of a shard, `max` of src/shard.rs, which bounds the walks over the array.
use sharded_slab.Base.{
  ℕ, zero, suc, ◌≢◌, ◌≤◌, ◌<◌, ◌≡◌, refl, ◌⊎◌, inl, inr, List, [], ◌∷◌, Option, none, some,
  get_elem?, set, length, All, arith,
}
use sharded_slab.Config.{Config}
use sharded_slab.Slot.Memory.{Outcome, returns}
use sharded_slab.Tid.Ids.{set_cases}
use sharded_slab.Page.Chain.{get_elem?-set_same}
use sharded_slab.Shard.{Shard, new_shard}
use sharded_slab.Shard.Array.{Array, current_shard, raise_max}

-- The others only raise the highest index.
abbrev pub Raise : (ℕ → ℕ) → Type 0
Raise f = (n : ℕ) → n ≤ f n

pub raise_max-bounds :
    (idx : ℕ) (fs : List (ℕ → ℕ)) (max : ℕ)
    → All Raise fs
    → (idx ≤ raise_max idx fs max) × (max ≤ raise_max idx fs max)
unfolding raise_max
raise_max-bounds idx [] max k = ground arith
raise_max-bounds idx (f ∷ fs) max (r, k) = ground (arith, raise_max-bounds idx fs (f max) k, r max)

-- Every shard that there is has an index up to the highest one.
abbrev pub Covered : {T : Type 0} → Array T → Type 0
Covered {T} array =
    (i : ℕ) (shard : Shard T) → get_elem? array.shards i ≡ some (some shard) → i ≤ array.max

beyond : {A : Type 0} (l : List A) (i : ℕ) → i < length l → get_elem? l i ≢ none
beyond [] i h e = absurd (omega arith)
beyond (x ∷ l) zero h e = cc
beyond (x ∷ l) (suc i) h e = beyond l i (omega arith) e

-- How `current` ends.
pub record Current {T : Type 0} (c : Config) (idx : ℕ) (array : Array T)
    (o : Outcome (Shard T × Array T)) : Type 0 where
  pub shard : Shard T
  pub array' : Array T
  pub returned : o ≡ returns (shard, array')
  pub covered : Covered array'
  pub stored : get_elem? array'.shards idx ≡ some (some shard)
  pub kept :
      (get_elem? array.shards idx ≡ some (some shard))
      ⊎ ((get_elem? array.shards idx ≡ some none) × (shard ≡ new_shard c idx))

module _ {T : Type 0} (c : Config) (idx : ℕ) (others : List (ℕ → ℕ)) (array : Array T) where
  -- For an index of the array `current` returns the thread's shard, the one that is there or else a
  -- new one, which the array then holds, and leaves no shard above the highest index, if the other
  -- threads only raise it.
  pub current_shard-Current :
      All Raise others
      → Covered array
      → idx < length array.shards
      → Current c idx array (current_shard c idx others array)
  unfolding current_shard
  current_shard-Current raise covered inside = go (get_elem? array.shards idx) refl
    where
      go :
          (o : Option (Option (Shard T)))
          → get_elem? array.shards idx ≡ o
          → Current c idx array (current_shard c idx others array)
      go none e = absurd (beyond array.shards idx inside e)
      go (some (some shard)) e = record {
        shard = shard;
        array' = array;
        returned = rw (current_shard, e) refl;
        covered = covered;
        stored = e;
        kept = inl e;
      }
      go (some none) e = record {
        shard = new_shard c idx;
        array' = record {
          shards = set array.shards idx (some (new_shard c idx));
          max = raise_max idx others array.max;
        };
        returned = rw (current_shard, e) refl;
        covered = λ i shard p.
            elim (set_cases array.shards idx i (some (new_shard c idx)) (some shard) p) [
              | inl (at, _) ↦ omega (arith, at, raise_max-bounds idx others array.max raise)
              | inr (_, q) ↦
                  omega (arith, covered i shard q, raise_max-bounds idx others array.max raise)
            ];
        stored = get_elem?-set_same array.shards idx e;
        kept = inr (e, refl);
      }
