-- ===== src/Slot/Spinning.antt =====
-- `release_with` of src/page/slot.rs on a slot with references that nobody drops.
use sharded_slab.Base.{ℕ, ◌≤◌, ◌≡◌, refl, [], Option, none, arith}
use sharded_slab.Config.{Config}
use sharded_slab.Config.Valid.{IsConfig}
use sharded_slab.Lifecycle.Encode.{Life, IsLife, encode}
use sharded_slab.Slot.Memory.{Slot, spins, load, after_others}
use sharded_slab.Slot.Ops.{FreeList, Mutator, release_with, remove_value}
use sharded_slab.Slot.Quiet.{quiet}
use sharded_slab.Slot.Rounds.{Call}
use sharded_slab.Slot.Waiting.{release_loop-spins}

pub remove_value-spins :
    {T F : Type 0} {c : Config} (v : IsConfig c) (fl : FreeList (Option T) F) (s : Slot (Option T))
    (l : Life)
    → IsLife c l
    → s.lifecycle ≡ encode c l
    → 1 ≤ l.refs
    → (offset : ℕ) (free : F) → remove_value c fl l.gen offset free (quiet s) ≡ spins
unfolding remove_value release_with load after_others
remove_value-spins {T} {F} {c} v fl s l i word some_refs offset free =
    let mutator : Mutator (Option T) (Option T) = record {
      on_none = none;
      on_some = λ item. (none, item);
    } in
    let x : Call c (Option T) F (Option T) = record {
      fl = fl;
      mutator = mutator;
      gen = l.gen;
      offset = offset;
      free = free;
      gen_fits = i.gen_fits;
    } in
    release_loop-spins v x 2 [] (quiet s) l tt i word refl (omega arith)
