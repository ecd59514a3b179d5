-- ===== src/Slot/Ops.antt =====
-- The operations of src/page/slot.rs on a slot.
use sharded_slab.Base.{
  ℕ, zero, suc, ◌+◌, Bool, true, false, not, ◌&&◌, Option, none, some, ◌==◌, if◌then◌else◌, length,
}
use mathlib.Core.Option
use sharded_slab.Config.{Config}
use sharded_slab.Lifecycle.{
  State, as_usize, refs_from_packed, pack_refs, gen_from_packed, pack_gen, pack_state, advance,
}
use sharded_slab.Slot.Memory.{
  Slot, Outcome, returns, spins, World, load, store, cas_loop, run, ◌>>=◌,
}
use sharded_slab.Slot.Attempts.{Guard, get_attempt, mark_attempt, release_attempt, removing_attempt}

-- The trait `FreeList` of src/page/mod.rs: `push` takes the offset of a slot and the slot.
pub record FreeList (T F : Type 0) : Type 0 where
  pub push : ℕ → Slot T → F → Slot T × F

-- `M: FnOnce(Option<&mut T>) -> R`
pub record Mutator (T R : Type 0) : Type 0 where
  pub on_none : R
  pub on_some : T → T × R

-- The traits `Clear` and `Default` of the item.
pub record Clear (T : Type 0) : Type 0 where
  pub clear : T → T
  pub default : T

pub record InitGuard : Type 0 where
  pub curr_lifecycle : ℕ
  pub released : Bool

-- `InitGuard::generation`
unfoldable pub generation : Config → InitGuard → ℕ
generation c guard = gen_from_packed c guard.curr_lifecycle

module _ {T : Type 0} (c : Config) where
  -- `Slot::get`
  unfoldable pub get : ℕ → World T → Outcome (Option Guard × World T)
  get gen w = run (get_attempt c gen) w

  -- `Slot::mark_release`
  unfoldable pub mark_release : ℕ → World T → Outcome (Option Bool × World T)
  mark_release gen w = do
    (left, w') ← run (mark_attempt c gen) w
    returns (Option.map (λ lifecycle. refs_from_packed c lifecycle == 0) left, w')

  -- `Slot::release` and `Guard::release`
  unfoldable pub release : World T → Outcome (Bool × World T)
  release w = run (release_attempt c) w

  -- `Slot::init`
  unfoldable pub init : World T → Option InitGuard × World T
  init w =
      let w' = load w in
      let lifecycle = w'.slot.lifecycle in
      if not (refs_from_packed c lifecycle == 0)
      then (none, w')
      else (some (record { curr_lifecycle = lifecycle; released = false }), w')

  -- `InitGuard::release2`
  unfoldable pub release2 : InitGuard → ℕ → World T → Outcome (Bool × InitGuard × World T)
  release2 guard new_refs w =
      let guard' = record guard { released = true } in
      let new_lifecycle =
        pack_gen c (gen_from_packed c guard.curr_lifecycle) (pack_state c State.present new_refs) in
      let w' = load w in
      let fall_back = do
        (dropping, w'') ← cas_loop (removing_attempt c (generation c guard)) w'.others w'.slot
        returns (dropping, guard', w'')
      in if guard.released
        then returns (false, guard, w)
        else if w'.slot.lifecycle == guard.curr_lifecycle
        then returns (false, guard', record w' { slot = store new_lifecycle w'.slot })
        else fall_back

  -- `InitGuard::release`
  unfoldable pub release_init : InitGuard → World T → Outcome (Bool × InitGuard × World T)
  release_init guard w = release2 guard 0 w

  -- `InitGuard::downgrade`
  unfoldable pub downgrade : InitGuard → World T → Outcome (Guard × InitGuard × World T)
  downgrade guard w = do
    (_, guard', w') ← release2 guard (pack_refs c 1 0) w
    returns (tt, guard', w')

  module _ {F R : Type 0} (fl : FreeList T F) (mutator : Mutator T R) (gen offset : ℕ) where
    -- The removal itself, once the generation has advanced and no reference is left.
    unfoldable pub finish_release : F → World T → R × F × World T
    finish_release free w =
        let (item', value) = mutator.on_some w.slot.item in
        let (slot', free') = fl.push offset (record (w.slot) { item = item' }) free in
        (value, free', record w { slot = slot' })

    -- The loop of `release_with`, at most `fuel` rounds of it.
    unfoldable pub release_loop : ℕ → Bool → ℕ → F → World T → Outcome (R × F × World T)
    release_loop zero advanced lifecycle free w = spins
    release_loop (suc fuel) advanced lifecycle free w =
        let w' = load w in
        let won = record w' { slot = store (pack_gen c (advance c gen) lifecycle) w'.slot } in
        let spin = release_loop fuel true lifecycle free won in
        let retry = release_loop fuel advanced w'.slot.lifecycle free w' in
        if not advanced && not (gen == gen_from_packed c lifecycle)
        then returns (mutator.on_none, free, w)
        else if w'.slot.lifecycle == lifecycle
        then (if refs_from_packed c lifecycle == 0 then returns (finish_release free won) else spin)
        else retry

    -- `Slot::release_with`
    unfoldable pub release_with : F → World T → Outcome (R × F × World T)
    release_with free w =
        let w' = load w in release_loop (length w'.others + 2) false w'.slot.lifecycle free w'

-- `Slot::insert` from the answer of `init` on; the second result is what is left in `value`.
unfoldable pub fill :
    {T : Type 0}
    → Config
    → Option T
    → Option InitGuard × World (Option T)
    → Outcome (Option ℕ × Option T × World (Option T))
fill c value (none, w) = returns (none, value, w)
fill c value (some guard, w) = do
  let slot = w.slot
  (_, _, w') ← release_init c guard (record w { slot = record slot { item = value } })
  returns (some (generation c guard), slot.item, w')

-- `Slot::insert`
unfoldable pub insert :
    {T : Type 0}
    → Config
    → Option T
    → World (Option T)
    → Outcome (Option ℕ × Option T × World (Option T))
insert c value w = fill c value (init c w)

-- `Slot::new`
unfoldable pub new_slot : {T : Type 0} → Clear T → ℕ → Slot T
new_slot cl next = record { lifecycle = as_usize State.removing; next = next; item = cl.default }

module _ {T F : Type 0} (c : Config) (fl : FreeList T F) (cl : Clear T) where
  -- `Slot::clear_storage`
  unfoldable pub clear_storage : ℕ → ℕ → F → World T → Outcome (Bool × F × World T)
  clear_storage gen offset free w =
      release_with c fl (record { on_none = false; on_some = λ t. (cl.clear t, true) }) gen offset
        free w

  -- `Slot::try_clear_storage`
  unfoldable pub try_clear_storage : ℕ → ℕ → F → World T → Outcome (Bool × F × World T)
  try_clear_storage gen offset free w = do
    (marked, w') ← mark_release c gen w
    elim marked [
      | none ↦ returns (false, free, w')
      | some should_clear ↦
          if should_clear then clear_storage gen offset free w' else returns (true, free, w')
    ]

module _ {T F : Type 0} (c : Config) (fl : FreeList (Option T) F) where
  -- `Slot::remove_value`
  unfoldable pub remove_value :
      ℕ → ℕ → F → World (Option T) → Outcome (Option T × F × World (Option T))
  remove_value gen offset free w =
      release_with c fl (record { on_none = none; on_some = λ item. (none, item) }) gen offset free
        w

  -- `Slot::try_remove_value`
  unfoldable pub try_remove_value :
      ℕ → ℕ → F → World (Option T) → Outcome (Bool × F × World (Option T))
  try_remove_value gen offset free w = do
    (marked, w') ← mark_release c gen w
    elim marked [
      | none ↦ returns (false, free, w')
      | some should_remove ↦
          let removed = do
            (_, free', w'') ← remove_value gen offset free w'
            returns (true, free', w'')
          in if should_remove then removed else returns (true, free, w')
    ]
