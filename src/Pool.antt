-- ===== src/Pool.antt =====
-- src/pool.rs: `Pool`, its guards and their drop. `me` is the id of the calling thread. The arguments
-- `others`, `before` and `later` are what the other threads do to the slots that the call works on,
-- and `other_max` what they do to the highest index of a shard.
pub mod Calls
pub mod Guarded
pub mod Created
pub mod Trip
pub mod Cleared
pub mod Exclusive
pub mod Owned
pub mod Refused
pub mod Full
use sharded_slab.Base.{ℕ, Bool, false, List, [], Option, none, some, ◌==◌, if◌then◌else◌}
use mathlib.Core.Option
use sharded_slab.Pack.{pack}
use sharded_slab.Config.{Config, tid_field, gen_field, validate}
use sharded_slab.Key.{unpack_tid, unpack_gen}
use sharded_slab.Slot.Memory.{Slot, World, Outcome, returns, panics, ◌>>=◌}
use sharded_slab.Slot.Attempts.{Guard}
use sharded_slab.Slot.Ops.{
  Clear, InitGuard, get, init, generation, release, release_init, downgrade,
}
use sharded_slab.Shard.{Shard, with_shard_slot, init_shard, mark_clear_local, mark_clear_remote}
use sharded_slab.Shard.Array.{Array, Interference, new_array, current_shard, put_shard, on_shard}
use sharded_slab.Shard.Guards.{on_guarded, drop_guard, drop_owned_guard}

-- `Pool`
abbrev pub Pool : Type 0 → Type 0
Pool T = Array T

-- `Pool::new_with_config`
unfoldable pub new_pool : {T : Type 0} → Config → Outcome (Pool T)
new_pool c = if validate c then returns (new_array c) else panics

-- `Ref`; `shard` is the index of the shard that it points to.
pub record Ref : Type 0 where
  pub inner : Guard
  pub shard : ℕ
  pub key : ℕ

-- `RefMut`
pub record RefMut : Type 0 where
  pub inner : InitGuard
  pub shard : ℕ
  pub key : ℕ

-- `OwnedRef`
pub record OwnedRef : Type 0 where
  pub inner : Guard
  pub key : ℕ

-- `OwnedRefMut`
pub record OwnedRefMut : Type 0 where
  pub inner : InitGuard
  pub key : ℕ

module _ {T : Type 0} (c : Config) where
  -- The closure of `Pool::create`.
  unfoldable pub create_init : ℕ → World T → Outcome (Option (ℕ × InitGuard) × World T)
  create_init idx w =
      let (guard, w') = init c w in
      returns (Option.map (λ g. (pack c.width (gen_field c) (generation c g) idx, g)) guard, w')

  -- `Pool::get`, up to the guard that it makes.
  unfoldable pub get_guard : ℕ → Interference T → Pool T → Outcome (Option Guard × Pool T)
  get_guard key others pool =
      on_shard none (λ shard. with_shard_slot c key (get c (unpack_gen c key)) others shard)
        (unpack_tid c key) pool

  -- `Pool::get`
  unfoldable pub pool_get : ℕ → Interference T → Pool T → Outcome (Option Ref × Pool T)
  pool_get key others pool = do
    (guard, pool') ← get_guard key others pool
    returns
        (Option.map (λ g. record { inner = g; shard = unpack_tid c key; key = key }) guard, pool')

  -- `Pool::get_owned`
  unfoldable pub pool_get_owned : ℕ → Interference T → Pool T → Outcome (Option OwnedRef × Pool T)
  pool_get_owned key others pool = do
    (guard, pool') ← get_guard key others pool
    returns (Option.map (λ g. record { inner = g; key = key }) guard, pool')

  -- `Ref::value`, of the slot that the guard points to.
  unfoldable pub deref : Ref → Interference T → Pool T → Outcome (Option T × Pool T)
  deref guard others pool =
      on_guarded c (λ w. returns (w.slot.item, w)) guard.shard guard.key others pool

  -- `RefMut::deref_mut`: the caller changes the item through the guard.
  unfoldable pub deref_mut :
      RefMut → (T → T) → Interference T → Pool T → Outcome (Option (Unit {0}) × Pool T)
  deref_mut guard change others pool =
      on_guarded c
        (λ w. returns (tt, record w { slot = record (w.slot) { item = change w.slot.item } }))
        guard.shard guard.key others pool

  -- `self.inner.release()` of a mutable guard, in its drop.
  unfoldable pub release_mut : InitGuard → World T → Outcome (Bool × World T)
  release_mut inner w = do (dropping, _, w') ← release_init c inner w; returns (dropping, w')

  -- `self.inner.downgrade()`
  unfoldable pub downgrade_inner : InitGuard → World T → Outcome ((Guard × InitGuard) × World T)
  downgrade_inner inner w = do
    (guard, inner', w') ← downgrade c inner w
    returns ((guard, inner'), w')

module _ {T : Type 0} (c : Config) (cl : Clear T) (me : ℕ) where
  -- `Pool::create`
  unfoldable pub create :
      (ℕ → Interference T) → List (ℕ → ℕ) → Pool T → Outcome (Option RefMut × Pool T)
  create others other_max pool = do
    (shard, pool') ← current_shard c me other_max pool
    (created, shard') ← init_shard c cl (create_init c) others shard
    returns (
      Option.map
          (λ (key, inner). record {
            inner = inner;
            shard = me;
            key = pack c.width (tid_field c) me key;
          })
          created,
      put_shard me shard' pool',
    )

  -- The closure of `Pool::create_owned`.
  unfoldable pub create_owned_init : ℕ → World T → Outcome (Option (InitGuard × ℕ) × World T)
  create_owned_init idx w =
      let (inner, w') = init c w in
      returns (
        Option.map
            (λ g.
              (g, pack c.width (tid_field c) me (pack c.width (gen_field c) (generation c g) idx)))
            inner,
        w',
      )

  -- `Pool::create_owned`
  unfoldable pub create_owned :
      (ℕ → Interference T) → List (ℕ → ℕ) → Pool T → Outcome (Option OwnedRefMut × Pool T)
  create_owned others other_max pool = do
    (shard, pool') ← current_shard c me other_max pool
    (created, shard') ← init_shard c cl create_owned_init others shard
    returns (
      Option.map (λ (inner, key). record { inner = inner; key = key }) created,
      put_shard me shard' pool',
    )

  -- The drop of a `Ref`
  unfoldable pub drop_ref :
      Ref → Interference T → Interference T → Pool T → Outcome (Unit {0} × Pool T)
  drop_ref guard others later pool =
      drop_guard c cl me (release c) guard.shard guard.key others later pool

  -- The drop of a `RefMut`
  unfoldable pub drop_ref_mut :
      RefMut → Interference T → Interference T → Pool T → Outcome (Unit {0} × Pool T)
  drop_ref_mut guard others later pool =
      drop_guard c cl me (release_mut c guard.inner) guard.shard guard.key others later pool

  -- The drop of an `OwnedRef`
  unfoldable pub drop_owned_ref :
      OwnedRef → Interference T → Interference T → Pool T → Outcome (Unit {0} × Pool T)
  drop_owned_ref guard others later pool =
      drop_owned_guard c cl me (release c) guard.key others later pool

  -- The drop of an `OwnedRefMut`
  unfoldable pub drop_owned_ref_mut :
      OwnedRefMut → Interference T → Interference T → Pool T → Outcome (Unit {0} × Pool T)
  drop_owned_ref_mut guard others later pool =
      drop_owned_guard c cl me (release_mut c guard.inner) guard.key others later pool

  -- `RefMut::downgrade`: the guard that it consumes is dropped at the end.
  unfoldable pub downgrade_ref :
      RefMut
      → Interference T
      → Interference T
      → Interference T
      → Pool T
      → Outcome (Option Ref × Pool T)
  downgrade_ref guard others before later pool = do
    (inner, pool') ← on_guarded c (downgrade_inner c guard.inner) guard.shard guard.key others pool
    elim inner [
      | none ↦ returns (none, pool')
      | some (inner', old) ↦ do
        (_, pool'') ← drop_ref_mut (record guard { inner = old }) before later pool'
        returns (some (record { inner = inner'; shard = guard.shard; key = guard.key }), pool'')
    ]

  -- `OwnedRefMut::downgrade`
  unfoldable pub downgrade_owned :
      OwnedRefMut
      → Interference T
      → Interference T
      → Interference T
      → Pool T
      → Outcome (Option OwnedRef × Pool T)
  downgrade_owned guard others before later pool = do
    (inner, pool') ←
        on_guarded c (downgrade_inner c guard.inner) (unpack_tid c guard.key) guard.key others pool
    elim inner [
      | none ↦ returns (none, pool')
      | some (inner', old) ↦ do
        (_, pool'') ← drop_owned_ref_mut (record guard { inner = old }) before later pool'
        returns (some (record { inner = inner'; key = guard.key }), pool'')
    ]

  -- `Pool::create_with`: the guard is dropped at the end.
  unfoldable pub create_with :
      (T → T)
      → (ℕ → Interference T)
      → List (ℕ → ℕ)
      → Interference T
      → Interference T
      → Interference T
      → Pool T
      → Outcome (Option ℕ × Pool T)
  create_with init others other_max during before later pool = do
    (created, pool') ← create others other_max pool
    elim created [
      | none ↦ returns (none, pool')
      | some guard ↦ do
        (_, pool'') ← deref_mut c guard init during pool'
        (_, pool''') ← drop_ref_mut guard before later pool''
        returns (some guard.key, pool''')
    ]

  -- `Pool::clear`
  unfoldable pub pool_clear : ℕ → Interference T → Pool T → Outcome (Bool × Pool T)
  pool_clear key others pool =
      on_shard false
        (λ shard.
          if unpack_tid c key == me
          then mark_clear_local c cl key others shard
          else mark_clear_remote c cl key others shard)
        (unpack_tid c key) pool
