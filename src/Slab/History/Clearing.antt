-- ===== src/Slab/History/Clearing.antt =====
-- What the drop of an entry runs on the shard, and on the count of references (src/shard.rs,
-- src/page/slot.rs).
use sharded_slab.Base.{ℕ, suc, ◌-◌, ◌≡◌, inl, inr, refl, ap, true, false, ◌==◌, [], some, arith}
use sharded_slab.Config.{Config}
use sharded_slab.Key.{unpack_tid}
use sharded_slab.Lifecycle.Encode.{Life}
use sharded_slab.Page.Ops.{clear}
use sharded_slab.Slot.Memory.{Outcome, returns, panics, spins, ◌>>=◌}
use sharded_slab.Slot.Ops.{clear_storage}
use sharded_slab.Slot.Spec.{last_marked}
use sharded_slab.Slot.Story.{option_clear}
use sharded_slab.Shard.{clear_local, clear_remote, clear_after_release}
use sharded_slab.Shard.Array.{get_shard, put_shard, on_shard}
use sharded_slab.Shard.Guards.{clear_released}
use sharded_slab.Shard.Threads.{either_thread}
use sharded_slab.Shard.Located.{Located}
use sharded_slab.Slab.{Slab}
use sharded_slab.Slab.History.Slots.{Active}

-- The answer of the operation is dropped.
forget_answer :
    {A S S' : Type 0} (o : Outcome (A × S)) (keep : S → S') (answer : A) (after : S')
    → ◌>>=◌ {B = A × S'} o (λ r. returns (r.0, keep r.1)) ≡ returns (answer, after)
    → ◌>>=◌ {B = Unit {0} × S'}
        (◌>>=◌ {B = Unit {0} × S} (◌>>=◌ {B = S} o (λ r. returns r.1)) (λ s. returns (tt, s)))
        (λ r. returns (r.0, keep r.1))
      ≡ returns (tt {0}, after)
forget_answer (returns (r, s)) keep answer after e =
    let same : keep s ≡ after = cc in ap (λ t. returns (tt, t)) same
forget_answer panics keep answer after e = absurd cc
forget_answer spins keep answer after e = absurd cc

module _ {T : Type 0} {c : Config} (me : ℕ) {key : ℕ} {slab : Slab T}
    (z : Located c (unpack_tid c key) key slab) where
  pub cleared_after :
      (after : Slab T)
      → on_shard false
          (either_thread c key false
            (λ F fl gen o free w. clear_storage c fl option_clear gen o free w)
            (me == z.shard.tid))
          (unpack_tid c key)
          slab
        ≡ returns (true, after)
      → clear_released c option_clear me (unpack_tid c key) key [] slab ≡ returns (tt, after)
  unfolding clear_released clear_after_release clear_local clear_remote clear on_shard get_shard
  cleared_after after e =
      let there : get_shard (unpack_tid c key) slab ≡ some z.shard = rw (get_shard, z.held) refl in
      rw (clear_released, on_shard, there)
        (forget_answer
          (either_thread c key false
            (λ F fl gen o free w. clear_storage c fl option_clear gen o free w) (me == z.shard.tid)
            z.shard)
          (λ s. put_shard (unpack_tid c key) s slab) true after (rw (on_shard, there) at e))

-- A slot with one reference less.
module _ {T : Type 0} (l : Life) (value : T) where
  pub not_last :
      (rest : ℕ)
      → l.refs ≡ suc rest
      → last_marked l ≡ false
      → Active l (some value)
      → Active (record l { refs = l.refs - 1 }) (some value)
  not_last rest counted last (inl present) = inl present
  not_last rest counted last (inr (marked, referred)) = inr (marked, ground arith)

  pub last-refs : last_marked l ≡ true → l.refs ≡ 1
  last-refs last = ground arith
