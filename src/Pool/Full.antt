-- ===== src/Pool/Full.antt =====
-- What `Pool::create`, `create_owned` and `create_with` (src/pool.rs) do where no slot is free.
use sharded_slab.Base.{ℕ, ◌≡◌, refl, [], none}
use sharded_slab.Config.{Config}
use sharded_slab.Slot.Memory.{returns}
use sharded_slab.Slot.Ops.{Clear}
use sharded_slab.Shard.Full.{NoRoom, array_left, init_shard-NoRoom}
use sharded_slab.Pool.{Pool, create_init, create, create_owned_init, create_owned, create_with}

-- Where every page of the thread's shard is exhausted, `create`, `create_owned` and `create_with`
-- answer `None`, the last without running the initialiser. They leave every slot and every local
-- list of the shard as it was.
create-NoRoom :
    {T : Type 0} {c : Config} (cl : Clear T) (me : ℕ) (pool : Pool T) (init : T → T)
    (full : NoRoom c me pool)
    → (create c cl me (λ page. []) [] pool ≡ returns (none, array_left full))
      × (create_owned c cl me (λ page. []) [] pool ≡ returns (none, array_left full))
      × (create_with c cl me init (λ page. []) [] [] [] [] pool ≡ returns (none, array_left full))
unfolding create create_owned create_with
create-NoRoom {T} {c} cl me pool init full =
    let none_created : create c cl me (λ page. []) [] pool ≡ returns (none, array_left full) =
      rw (create, full.found_shard, init_shard-NoRoom full cl (create_init c)) refl in
    (
      none_created,
      rw (create_owned, full.found_shard, init_shard-NoRoom full cl (create_owned_init c cl me))
          refl,
      rw (create_with, none_created) refl,
    )
