-- ===== src/Tests/Slots.antt =====
-- The properties of slots (src/page/slot.rs) at slots of the default configuration.
use sharded_slab.Base.{
  ℕ, ◌-◌, ◌^◌, ◌<◌, ◌≡◌, ◌≢◌, refl, ap, true, false, Option, some, none, [], ◌∷◌, arith,
}
use sharded_slab.Pack.{bits, pack, from_packed}
use sharded_slab.Config.{
  Config, default_config, gen_field, ref_count_field, tid_field, max_refs, lifecycle_gen_field,
}
use sharded_slab.Config.Valid.{IsConfig}
use sharded_slab.Lifecycle.{
  State, refs_from_packed, pack_refs, state_from_packed, state_from_usize, pack_gen, pack_state,
  gen_from_packed, incr,
}
use sharded_slab.Lifecycle.Encode.{IsLife, encode, refs_from_packed-encode, pack_refs-encode}
use sharded_slab.Slot.Memory.{Slot, World, returns, spins}
use sharded_slab.Slot.Ops.{
  Mutator, get, release, mark_release, release_loop, release_with, init, try_remove_value,
}
use sharded_slab.Slot.Access.{
  WellFormed, Got, Released, Marked, get-Got, release-Released, mark_release-Marked,
}
use sharded_slab.Slot.Rounds.{Drops, Call, Removed}
use sharded_slab.Slot.Removal.{release_with-Removed}
use sharded_slab.Slot.Waiting.{release_loop-spins}
use sharded_slab.Slot.Quiet.{quiet, emptied, TryRemoved, try_remove_value-TryRemoved}
use sharded_slab.Slot.Lives.{life}
use sharded_slab.Stack.{local_list, set_next}
use sharded_slab.Slot.Exchanges.{Reachable, starts, steps, fills, gets}
use sharded_slab.Slot.Interleaved.{refs_counted}
use sharded_slab.Slot.Attempts.{get_attempt}
use sharded_slab.Slot.Story.{vacant_removed}
use sharded_slab.Slot.Generations.{generation_after, generation_after_cycle}
use sharded_slab.Tests.{default_config-IsConfig, gen_len_default, ref_count_len_default}

abbrev c : Config
c = default_config

v : IsConfig c
v = default_config-IsConfig

abbrev slot : State → ℕ → Slot (Option ℕ)
slot state refs = record { lifecycle = encode c (life state refs 5); next = 7; item = some 42 }

small-IsLife : (state : State) (refs : ℕ) → refs < 8 → IsLife c (life state refs 5)
small-IsLife state refs h = record {
  refs_fit = omega (arith, ref_count_len_default, ap (λ (t : ℕ). 2 ^ t) ref_count_len_default);
  gen_fits = omega (arith, gen_len_default, ap (λ (t : ℕ). 2 ^ t) gen_len_default);
}

abbrev taking : Mutator (Option ℕ) (Option ℕ)
taking = record { on_none = none; on_some = λ item. (none, item) }

five_fits : 5 < 2 ^ (gen_field c).len
five_fits = (small-IsLife State.present 0 (omega arith)).gen_fits

abbrev call : Call c (Option ℕ) ℕ (Option ℕ)
call = record {
  fl = local_list;
  mutator = taking;
  gen = 5;
  offset = 3;
  free = 9;
  gen_fits = five_fits;
}

-- Another thread that gives a reference back.
abbrev drop_one : Slot (Option ℕ) → Slot (Option ℕ)
drop_one s = record s { lifecycle = pack_refs c (refs_from_packed c s.lifecycle - 1) s.lifecycle }

drop_one-Drops : Drops c 1 drop_one
drop_one-Drops = record {
  new_state = λ s l. l.state;
  dropped = λ s l i word.
      rw (word, refs_from_packed-encode v i)
        (pack_refs-encode v i (l.refs - 1) (omega (arith, i.refs_fit)));
  keeps_item = λ s. refl;
}

abbrev waiting : World (Option ℕ)
waiting = record { slot = slot State.present 1; others = drop_one ∷ [] }

release_with-Removed_example :
    Removed c local_list taking 5 3 9 (some 42) (release_with c local_list taking 5 3 9 waiting)
release_with-Removed_example =
    release_with-Removed v call (1 ∷ []) waiting (life State.present 1 5) (drop_one-Drops, tt)
      (small-IsLife State.present 1 (omega arith)) refl refl (omega arith)

release_loop-spins_example :
    release_loop c local_list taking 5 3 100 false
      (slot State.present 1).lifecycle
      9
      (quiet (slot State.present 1))
    ≡ spins
release_loop-spins_example =
    release_loop-spins v call 100 [] (quiet (slot State.present 1)) (life State.present 1 5) tt
      (small-IsLife State.present 1 (omega arith)) refl refl (omega arith)

well_formed : (state : State) (refs : ℕ) → refs < 8 → WellFormed c (slot state refs)
well_formed state refs h = record {
  life = life state refs 5;
  is_life = small-IsLife state refs h;
  word = refl;
}

get-Got_example : Got c 5 (quiet (slot State.present 1)) (get c 5 (quiet (slot State.present 1)))
get-Got_example =
    get-Got v 5 (quiet (slot State.present 1)) tt (well_formed State.present 1 (omega arith))

release-Released_example :
    Released c (quiet (slot State.marked 1)) (release c (quiet (slot State.marked 1)))
unfolding well_formed
release-Released_example =
    release-Released v (quiet (slot State.marked 1)) tt
      (record { well_formed = well_formed State.marked 1 (omega arith); some_ref = omega arith })

mark_release-Marked_example :
    Marked c 5 (quiet (slot State.present 1)) (mark_release c 5 (quiet (slot State.present 1)))
mark_release-Marked_example =
    mark_release-Marked v 5 (quiet (slot State.present 1)) tt
      (well_formed State.present 1 (omega arith))

try_remove_value-TryRemoved_example :
    TryRemoved c local_list 5 3 9
      (slot State.present 0)
      (life State.present 0 5)
      (try_remove_value c local_list 5 3 9 (quiet (slot State.present 0)))
try_remove_value-TryRemoved_example =
    try_remove_value-TryRemoved v local_list (slot State.present 0) (life State.present 0 5)
      (small-IsLife State.present 0 (omega arith)) refl 3 9 5

vacant_removed_example :
    (init c (quiet (slot State.marked 0)) ≡ (
      some (record { curr_lifecycle = (slot State.marked 0).lifecycle; released = false }),
      quiet (slot State.marked 0),
    ))
    × (try_remove_value c local_list 5 3 9 (quiet (slot State.marked 0))
        ≡ returns
            (true, 3, quiet (set_next 9 (emptied c (slot State.marked 0) (life State.marked 0 5)))))
vacant_removed_example =
    vacant_removed v local_list (slot State.marked 0) (life State.marked 0 5)
      (small-IsLife State.marked 0 (omega arith)) refl 3 9 refl refl

generations : bits (gen_field c) ≡ 8191
unfolding bits gen_field
generations = refl

generation_after_cycle_example :
    (generation_after c 3 5 ≢ 5) × (generation_after c (bits (gen_field c)) 5 ≡ 5)
generation_after_cycle_example =
    generation_after_cycle c 3 5 (omega (arith, generations)) (omega arith)
      (omega (arith, generations))

-- A new slot that gets a value, and then a guard.
one_guard : Reachable c (record { word = 4; live = 1 })
unfolding pack_gen pack_state pack_refs gen_from_packed refs_from_packed state_from_packed
    state_from_usize from_packed pack lifecycle_gen_field ref_count_field gen_field tid_field
    get_attempt incr max_refs
one_guard = steps (steps starts (fills refl)) (gets 0 refl)

refs_counted_example :
    (refs_from_packed c 4 ≡ 1) × ((state : State) × (state_from_packed c 4 ≡ some state))
refs_counted_example = refs_counted v {s = record { word = 4; live = 1 }} one_guard
