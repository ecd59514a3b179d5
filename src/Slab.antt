-- ===== src/Slab.antt =====
-- src/lib.rs: `Slab`, its entries and their drop. `me` is the id of the calling thread. The
-- arguments `others` are what the other threads do to the slots that the call works on, and
-- `other_max` what they do to the highest index of a shard.
pub mod Calls
pub mod Filling
pub mod PageMap
pub mod Trip
pub mod Taken
pub mod First
pub mod Refused
pub mod Full
pub mod Removed
pub mod Vacant
pub mod Valid
pub mod History
pub mod Reused
use sharded_slab.Base.{ℕ, Bool, true, false, List, [], Option, none, some, ◌==◌, if◌then◌else◌, set}
use mathlib.Core.Option
use sharded_slab.Pack.{pack}
use sharded_slab.Config.{Config, tid_field, gen_field, validate}
use sharded_slab.Key.{unpack_tid, unpack_gen, vacant_key}
use sharded_slab.Slot.Memory.{Slot, World, Outcome, returns, panics, ◌>>=◌}
use sharded_slab.Slot.Ops.{InitGuard, get, init, insert, generation, release, release_init}
use sharded_slab.Slot.Story.{option_clear}
use sharded_slab.Shard.{
  Shard, with_shard_slot, init_shard, take_local, take_remote, remove_local, remove_remote,
}
use sharded_slab.Shard.Guards.{on_guarded, drop_guard, drop_owned_guard}
use sharded_slab.Shard.Array.{Array, Interference, new_array, current_shard, put_shard, on_shard}

abbrev pub Slab : Type 0 → Type 0
Slab T = Array (Option T)

-- `Slab::new_with_config`
unfoldable pub new_with_config : {T : Type 0} → Config → Outcome (Slab T)
new_with_config c = if validate c then returns (new_array c) else panics

-- `Entry`
pub record Entry (T : Type 0) : Type 0 where
  pub value : T
  pub key : ℕ

-- `OwnedEntry`
pub record OwnedEntry (T : Type 0) : Type 0 where
  pub value : T
  pub key : ℕ

-- `VacantEntry`
pub record VacantEntry : Type 0 where
  pub inner : InitGuard
  pub key : ℕ

module _ {T : Type 0} (c : Config) where
  -- The closure of `Slab::insert`.
  unfoldable pub insert_init : T → ℕ → World (Option T) → Outcome (Option ℕ × World (Option T))
  insert_init value idx w = do
    (gen, _, w') ← insert c (some value) w
    returns (Option.map (λ g. pack c.width (gen_field c) g idx) gen, w')

  -- The closure of `Slab::get`; `unwrap` panics on a slot without a value.
  unfoldable pub get_entry : ℕ → World (Option T) → Outcome (Option (Entry T) × World (Option T))
  get_entry key w = do
    (inner, w') ← get c (unpack_gen c key) w
    elim inner [
      | none ↦ returns (none, w')
      | some guard ↦ elim w'.slot.item [
        | none ↦ panics
        | some value ↦ returns (some (record { value = value; key = key }), w')
      ]
    ]

  -- The closure of `Slab::get_owned`
  unfoldable pub get_owned_entry :
      ℕ → World (Option T) → Outcome (Option (OwnedEntry T) × World (Option T))
  get_owned_entry key w = do
    (inner, w') ← get c (unpack_gen c key) w
    elim inner [
      | none ↦ returns (none, w')
      | some guard ↦ elim w'.slot.item [
        | none ↦ panics
        | some value ↦ returns (some (record { value = value; key = key }), w')
      ]
    ]

module _ {T : Type 0} (c : Config) (me : ℕ) where
  -- `Slab::insert`
  unfoldable pub slab_insert :
      T → (ℕ → Interference (Option T)) → List (ℕ → ℕ) → Slab T → Outcome (Option ℕ × Slab T)
  slab_insert value others other_max slab = do
    (shard, slab') ← current_shard c me other_max slab
    (idx, shard') ← init_shard c option_clear (insert_init c value) others shard
    returns (Option.map (λ i. pack c.width (tid_field c) me i) idx, put_shard me shard' slab')

  -- The closure of `Slab::vacant_entry`.
  unfoldable pub vacant_init :
      ℕ → World (Option T) → Outcome (Option VacantEntry × World (Option T))
  vacant_init idx w =
      let (inner, w') = init c w in
      returns (
        Option.map (λ g. record { inner = g; key = vacant_key c me (generation c g) idx }) inner,
        w',
      )

  -- `Slab::vacant_entry`
  unfoldable pub vacant_entry :
      (ℕ → Interference (Option T)) → List (ℕ → ℕ) → Slab T → Outcome (Option VacantEntry × Slab T)
  vacant_entry others other_max slab = do
    (shard, slab') ← current_shard c me other_max slab
    (entry, shard') ← init_shard c option_clear vacant_init others shard
    returns (entry, put_shard me shard' slab')

  -- `Slab::remove`
  unfoldable pub slab_remove : ℕ → Interference (Option T) → Slab T → Outcome (Bool × Slab T)
  slab_remove key others slab =
      on_shard false
        (λ shard.
          if unpack_tid c key == me
          then remove_local c key others shard
          else remove_remote c key others shard)
        (unpack_tid c key) slab

  -- `Slab::take`
  unfoldable pub slab_take : ℕ → Interference (Option T) → Slab T → Outcome (Option T × Slab T)
  slab_take key others slab =
      on_shard none
        (λ shard.
          if unpack_tid c key == me
          then take_local c key others shard
          else take_remote c key others shard)
        (unpack_tid c key) slab

  -- `Slab::get`
  unfoldable pub slab_get :
      ℕ → Interference (Option T) → Slab T → Outcome (Option (Entry T) × Slab T)
  slab_get key others slab =
      on_shard none (λ shard. with_shard_slot c key (get_entry c key) others shard)
        (unpack_tid c key) slab

  -- `Slab::get_owned`
  unfoldable pub slab_get_owned :
      ℕ → Interference (Option T) → Slab T → Outcome (Option (OwnedEntry T) × Slab T)
  slab_get_owned key others slab =
      on_shard none (λ shard. with_shard_slot c key (get_owned_entry c key) others shard)
        (unpack_tid c key) slab

  -- The drop of an `Entry`
  unfoldable pub drop_entry :
      Entry T
      → Interference (Option T)
      → Interference (Option T)
      → Slab T
      → Outcome (Unit {0} × Slab T)
  drop_entry entry others later slab =
      drop_guard c option_clear me (release c) (unpack_tid c entry.key) entry.key others later slab

  -- The drop of an `OwnedEntry`
  unfoldable pub drop_owned_entry :
      OwnedEntry T
      → Interference (Option T)
      → Interference (Option T)
      → Slab T
      → Outcome (Unit {0} × Slab T)
  drop_owned_entry entry others later slab =
      drop_owned_guard c option_clear me (release c) entry.key others later slab

  -- `Slab::contains`: the entry is dropped at once.
  unfoldable pub contains :
      ℕ
      → Interference (Option T)
      → Interference (Option T)
      → Interference (Option T)
      → Slab T
      → Outcome (Bool × Slab T)
  contains key others before later slab = do
    (entry, slab') ← slab_get key others slab
    elim entry [
      | none ↦ returns (false, slab')
      | some e ↦ do (_, slab'') ← drop_entry e before later slab'; returns (true, slab'')
    ]

  -- What `VacantEntry::insert` does to the slot that its guard points to.
  unfoldable pub vacant_insert : VacantEntry → T → World (Option T) → Outcome (World (Option T))
  vacant_insert entry val w = do
    (_, _, w') ←
        release_init c entry.inner (record w { slot = record (w.slot) { item = some val } })
    returns w'

  -- `VacantEntry::insert`
  unfoldable pub insert_vacant :
      VacantEntry → T → Interference (Option T) → Slab T → Outcome (Option (Unit {0}) × Slab T)
  insert_vacant entry val others slab =
      on_guarded c (λ w. do w' ← vacant_insert entry val w; returns (tt, w'))
        (unpack_tid c entry.key) entry.key others slab
