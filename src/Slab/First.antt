-- ===== src/Slab/First.antt =====
-- A new slab, and the first value in it (src/lib.rs).
use sharded_slab.Base.{ℕ, zero, suc, ◌≤◌, ◌<◌, ◌≡◌, refl, [], Option, none, some, get_elem?, arith}
use sharded_slab.Config.{Config, max_shards}
use sharded_slab.Config.Valid.{IsConfig}
use sharded_slab.Slot.Memory.{returns}
use sharded_slab.Slot.Story.{option_clear}
use sharded_slab.Shard.Array.{nulls, new_array}
use sharded_slab.Shard.First.{no_shard-Room}
use sharded_slab.Slab.{Slab, new_with_config, slab_insert, slab_get}
use sharded_slab.Slab.Trip.{slab_insert-slab_get}

get_elem?-nulls : {T : Type 0} (n i : ℕ) → i < n → get_elem? (nulls {T = T} n) i ≡ some none
get_elem?-nulls zero i h = absurd (omega arith)
get_elem?-nulls (suc n) zero h = refl
get_elem?-nulls (suc n) (suc i) h = get_elem?-nulls n i (omega arith)

-- A slab can be made of every valid configuration. Every thread whose id is below the number of
-- shards can insert a value in it, where a shard has pages at all, and any thread finds it.
new_with_config-slab_insert :
    {T : Type 0} {c : Config} (v : IsConfig c) (me you : ℕ) (value : T)
    → 1 ≤ c.max_pages
    → me < max_shards c
    → (key : ℕ) × (slab slab' slab'' : Slab T) × (new_with_config c ≡ returns slab)
      × (slab_insert c me value (λ page. []) [] slab ≡ returns (some key, slab'))
      × (slab_get c you key [] slab' ≡ returns (some (record { value = value; key = key }), slab''))
unfolding new_with_config new_array
new_with_config-slab_insert {T} {c} v me you value some_pages in_array =
    let room =
      no_shard-Room v option_clear me (new_array {T = Option T} c)
        (get_elem?-nulls (max_shards c) me in_array) some_pages in_array in
    let (key, slab', slab'', inserted, got) =
      slab_insert-slab_get v me you (new_array c) room value in
    (key, new_array c, slab', slab'', rw v.validates refl, inserted, got)
