-- ===== src/Shard/Array.antt =====
-- src/shard.rs: `Array`, the shards of a slab. The arguments `others` are what the other threads do
-- to `max` after the thread has read it, before each exchange.
use sharded_slab.Base.{
  ℕ, zero, suc, ◌≡◌, refl, List, [], ◌∷◌, Option, none, some, ltb, ◌==◌, if◌then◌else◌, get_elem?,
  length, set,
}
use sharded_slab.Config.{Config, max_shards}
use sharded_slab.Slot.Memory.{Slot, Outcome, returns, panics, ◌>>=◌}
use sharded_slab.Shard.{Shard, new_shard}

pub record Array (T : Type 0) : Type 0 where
  pub shards : List (Option (Shard T))
  pub max : ℕ

abbrev pub nulls : {T : Type 0} → ℕ → List (Option (Shard T))
nulls zero = []
nulls (suc n) = none ∷ nulls n

-- `Array::new`
unfoldable pub new_array : {T : Type 0} → Config → Array T
new_array c = record { shards = nulls (max_shards c); max = 0 }

-- `Array::get`
unfoldable pub get_shard : {T : Type 0} → ℕ → Array T → Option (Shard T)
get_shard idx array = elim (get_elem? array.shards idx) [ none ↦ none | some ptr ↦ ptr ]

-- The loop of `Array::current` that raises `max` to `idx`, from a value that has just been read.
unfoldable pub raise_max : ℕ → List (ℕ → ℕ) → ℕ → ℕ
raise_max idx [] max = if ltb max idx then idx else max
raise_max idx (f ∷ fs) max =
    let retry = raise_max idx fs (f max) in
    if ltb max idx then (if f max == max then idx else retry) else max

-- `Array::current` for the thread `idx`: its shard, which is made at the first call.
unfoldable pub current_shard :
    {T : Type 0} → Config → ℕ → List (ℕ → ℕ) → Array T → Outcome (Shard T × Array T)
current_shard c idx others array = elim (get_elem? array.shards idx) [
  | none ↦ panics
  | some ptr ↦ elim ptr [
    | some shard ↦ returns (shard, array)
    | none ↦
        let shard = new_shard c idx in
        returns (
          shard,
          record {
            shards = set array.shards idx (some shard);
            max = raise_max idx others array.max;
          },
        )
  ]
]

-- The items of `shards[0..=n]`.
abbrev pub up_to : {A : Type 0} → ℕ → List A → List A
up_to n [] = []
up_to zero (a ∷ l) = a ∷ []
up_to (suc n) (a ∷ l) = a ∷ up_to n l

-- The loop of the drop of an `Array`: the shards whose boxes it takes back and drops.
unfoldable pub dropped_shards : {T : Type 0} → List (Option (Shard T)) → List (Shard T)
dropped_shards [] = []
dropped_shards (none ∷ ptrs) = dropped_shards ptrs
dropped_shards (some shard ∷ ptrs) = shard ∷ dropped_shards ptrs

-- The drop of an `Array`, as the list of the shards that it drops.
unfoldable pub drop_array : {T : Type 0} → Array T → Outcome (List (Shard T))
unfolding dropped_shards
drop_array array =
    if ltb array.max (length array.shards)
    then returns (dropped_shards (up_to array.max array.shards))
    else panics

-- What the other threads do to a slot while a call works on it.
abbrev pub Interference : Type 0 → Type 0
Interference T = List (Slot T → Slot T)

-- A shard is changed in place; the array holds the pointer to it.
abbrev pub put_shard : {T : Type 0} → ℕ → Shard T → Array T → Array T
put_shard idx shard array = record array { shards = set array.shards idx (some shard) }

module _ {T A : Type 0} where
  -- The call on the shard at an index, or the answer where there is none.
  unfoldable pub on_shard :
      A → (Shard T → Outcome (A × Shard T)) → ℕ → Array T → Outcome (A × Array T)
  on_shard missing op idx array = elim (get_shard idx array) [
    | none ↦ returns (missing, array)
    | some shard ↦ do (result, shard') ← op shard; returns (result, put_shard idx shard' array)
  ]

  pub on_shard-found :
      (missing : A) (op : Shard T → Outcome (A × Shard T)) (idx : ℕ) (array : Array T)
      (shard shard' : Shard T) (result : A)
      → get_elem? array.shards idx ≡ some (some shard)
      → op shard ≡ returns (result, shard')
      → on_shard missing op idx array ≡ returns (result, put_shard idx shard' array)
  unfolding on_shard get_shard
  on_shard-found missing op idx array shard shard' result h e = rw (on_shard, get_shard, h, e) refl
