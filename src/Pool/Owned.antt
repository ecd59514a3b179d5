-- ===== src/Pool/Owned.antt =====
-- The owned guards of src/pool.rs beside the borrowed ones.
use mathlib.Core.Option
use sharded_slab.Base.{ℕ, ◌≤◌, ◌≡◌, refl, sym, ap, ◌∙◌, true, false, [], Option, none, some, arith}
use sharded_slab.Word.Fields.{two_pow-pos}
use sharded_slab.Config.{Config, ref_count_field}
use sharded_slab.Config.Valid.{IsConfig}
use sharded_slab.Key.{unpack_tid, unpack_gen}
use sharded_slab.Lifecycle.Encode.{Life, IsLife, encode, encode_zero}
use sharded_slab.Slot.Memory.{Outcome, returns, panics, spins, store, ◌>>=◌}
use sharded_slab.Slot.Attempts.{Guard}
use sharded_slab.Slot.Ops.{Clear, release, release2, release_init}
use sharded_slab.Slot.Spec.{last_marked, without_ref}
use sharded_slab.Slot.Quiet.{quiet, release-quiet}
use sharded_slab.Slot.Insert.{fresh_guard, present_life, release2_present, downgrade-present}
use sharded_slab.Shard.Array.{Interference}
use sharded_slab.Shard.Located.{Located}
use sharded_slab.Shard.Room.{Room, key, unpack_gen-key}
use sharded_slab.Shard.Guards.{on_guarded-Left, drop_owned_guard-drop_guard}
use sharded_slab.Pool.{
  Pool, Ref, RefMut, OwnedRef, OwnedRefMut, create, create_owned, get_guard, pool_get,
  pool_get_owned, pool_clear, release_mut, downgrade_inner, drop_ref, drop_ref_mut, drop_owned_ref,
  drop_owned_ref_mut, downgrade_ref, downgrade_owned,
}
use sharded_slab.Lifecycle.{State}
use sharded_slab.Slot.Lives.{life, one_ref-IsLife}
use sharded_slab.Slot.Access.{marked_life}
use sharded_slab.Pool.Calls.{pool_clear-marked}
use sharded_slab.Pool.Guarded.{
  ref, drop_ref-cleared, downgrade_ref-present, ref_mut, released_guard, released_twice,
}
use sharded_slab.Pool.Created.{
  created, created-Located, guard, create-created, create_owned-created,
}

abbrev pub own_ref : Ref → OwnedRef
own_ref guard = record { inner = guard.inner; key = guard.key }

abbrev pub own_mut : RefMut → OwnedRefMut
own_mut guard = record { inner = guard.inner; key = guard.key }

-- `get_owned` does what `get` does.
abbrev pub as_owned_ref : {T : Type 0} → Option Ref × Pool T → Outcome (Option OwnedRef × Pool T)
as_owned_ref (guard, p) = returns (Option.map own_ref guard, p)

module _ {T : Type 0} (c : Config) (k : ℕ) (others : Interference T) (pool : Pool T) where
  abbrev as_ref : Option Guard × Pool T → Outcome (Option Ref × Pool T)
  as_ref (g, p) =
      returns (Option.map (λ g. record { inner = g; shard = unpack_tid c k; key = k }) g, p)

  abbrev as_owned : Option Guard × Pool T → Outcome (Option OwnedRef × Pool T)
  as_owned (g, p) = returns (Option.map (λ g. record { inner = g; key = k }) g, p)

  same_guard :
      (o : Outcome (Option Guard × Pool T)) → (o >>= as_owned) ≡ (o >>= as_ref >>= as_owned_ref)
  same_guard (returns (none, p)) = refl
  same_guard (returns (some g, p)) = refl
  same_guard panics = refl
  same_guard spins = refl

  -- `get_owned` does what `get` does.
  pub pool_get_owned-pool_get :
      pool_get_owned c k others pool ≡ (pool_get c k others pool >>= as_owned_ref)
  unfolding pool_get_owned pool_get
  pool_get_owned-pool_get = same_guard (get_guard c k others pool)

module _ {T : Type 0} {c : Config} (v : IsConfig c) (cl : Clear T) (me : ℕ) {key : ℕ}
    {pool : Pool T} (z : Located c (unpack_tid c key) key pool) (l : Life) (i : IsLife c l)
    (word : z.slot.lifecycle ≡ encode c l) where
  pub drop_owned_ref-drop_ref :
      1 ≤ l.refs
      → (guard : Ref) → guard.shard ≡ unpack_tid c key
      → guard.key ≡ key
      → drop_owned_ref c cl me (own_ref guard) [] [] pool ≡ drop_ref c cl me guard [] [] pool
  unfolding drop_owned_ref drop_ref
  drop_owned_ref-drop_ref some_ref guard at_shard at_key =
      rw (at_shard, at_key)
        (drop_owned_guard-drop_guard z cl me (release c) (store (encode c (without_ref l)) z.slot)
          (last_marked l) (release-quiet v z.slot l i word some_ref))

  pub drop_owned_ref_mut-fresh :
      drop_owned_ref_mut c cl me (record { inner = fresh_guard c l; key = key }) [] [] pool
      ≡ drop_ref_mut c cl me (ref_mut z (fresh_guard c l)) [] [] pool
  unfolding drop_owned_ref_mut drop_ref_mut release_mut release_init
  drop_owned_ref_mut-fresh =
      drop_owned_guard-drop_guard z cl me (release_mut c (fresh_guard c l))
        (store (encode c (present_life 0 l)) z.slot) false
        (ap (λ o. o >>= λ (dropping, _, w'). returns (dropping, w'))
          (release2_present v l i (quiet z.slot) (fresh_guard c l) 0 0 tt word refl refl
            (two_pow-pos (ref_count_field c).len) (sym (encode_zero c))))

  pub downgrade_owned-downgrade_ref :
      downgrade_owned c cl me (record { inner = fresh_guard c l; key = key }) [] [] [] pool
      ≡ (downgrade_ref c cl me (ref_mut z (fresh_guard c l)) [] [] [] pool >>= as_owned_ref)
  unfolding downgrade_owned downgrade_ref downgrade_inner drop_owned_ref_mut drop_ref_mut
      release_mut release_init release2
  downgrade_owned-downgrade_ref =
      let r =
        on_guarded-Left z (downgrade_inner c (fresh_guard c l))
          (tt, released_guard z v cl me l i word) (store (encode c (present_life 1 l)) z.slot)
          (ap (λ o. o >>= λ (guard, inner', w'). returns ((guard, inner'), w'))
            (downgrade-present v l i (quiet z.slot) tt word)) in
      let q = released_twice z v cl me l i word r.array r.located in
      let same =
        drop_owned_guard-drop_guard r.located cl me
          (release_mut c (released_guard z v cl me l i word)) r.located.slot false refl in
      rw (downgrade_owned, downgrade_ref, r.returned)
        (rw (drop_owned_ref_mut, same, drop_ref_mut, q.returned) refl)

-- `create_owned` makes what `create` makes, and `get_owned` gives what `get` gives; the owned guard
-- does what the borrowed one does when it is dropped and when it is downgraded, and so does the
-- owned reference that the downgrade leaves when it is dropped, also where the key has been cleared
-- in the meantime, when the drop of either clears the item; this is where the creating thread's
-- shard has a free slot, or is yet to be made, and no other thread interferes.
pub create_owned-create :
    {T : Type 0} {c : Config} (v : IsConfig c) (cl : Clear T) (me you clearer : ℕ) (pool : Pool T)
    (room : Room c cl me pool)
    → (guard : RefMut) × (mine : Ref) × (made shared marked gone : Pool T) × (create c cl me
          (λ page. [])
          []
          pool
        ≡ returns (some guard, made))
      × (create_owned c cl me (λ page. []) [] pool ≡ returns (some (own_mut guard), made))
      × (pool_get_owned c guard.key [] made ≡ (pool_get c guard.key [] made >>= as_owned_ref))
      × (drop_owned_ref_mut c cl you (own_mut guard) [] [] made
          ≡ drop_ref_mut c cl you guard [] [] made)
      × (downgrade_ref c cl you guard [] [] [] made ≡ returns (some mine, shared))
      × (downgrade_owned c cl you (own_mut guard) [] [] [] made
          ≡ returns (some (own_ref mine), shared))
      × (drop_owned_ref c cl you (own_ref mine) [] [] shared ≡ drop_ref c cl you mine [] [] shared)
      × (pool_clear c cl clearer guard.key [] shared ≡ returns (true, marked))
      × (drop_ref c cl you mine [] [] marked ≡ returns (tt, gone))
      × (drop_owned_ref c cl you (own_ref mine) [] [] marked ≡ returns (tt, gone))
      × ((y : Located c (unpack_tid c guard.key) guard.key gone) × (y.slot.item
            ≡ cl.clear room.slot.item))
create_owned-create {T} {c} v cl me you clearer pool room =
    let z = created-Located v room in
    let shared = downgrade_ref-present z v cl you room.life room.is_life room.word in
    let gen_eq = unpack_gen-key v room in
    let in_use : (state : State) → IsLife c (life state 1 room.life.gen) =
      λ state. one_ref-IsLife v state room.life.gen room.is_life.gen_fits in
    let marked =
      pool_clear-marked v shared.located (life State.present 1 room.life.gen) (in_use State.present)
        shared.alike.0 cl clearer (ground (arith, gen_eq)) in
    let marks : marked_life (unpack_gen c (key v room)) (life State.present 1 room.life.gen)
        ≡ life State.marked 1 room.life.gen =
      ground (arith, gen_eq) in
    let word = marked.alike.0 ∙ ap (encode c) marks in
    let last = life State.marked 1 room.life.gen in
    let (gone, heads) =
      drop_ref-cleared marked.located v cl you last (in_use State.marked) word (omega arith) refl
        gen_eq in
    (
      ref_mut z (guard v room),
      ref z,
      created v room,
      shared.array,
      marked.array,
      gone.array,
      create-created v room,
      create_owned-created v room,
      pool_get_owned-pool_get c (key v room) [] (created v room),
      drop_owned_ref_mut-fresh v cl you z room.life room.is_life room.word,
      shared.returned,
      downgrade_owned-downgrade_ref v cl you z room.life room.is_life room.word
          ∙ ap (λ o. o >>= as_owned_ref) shared.returned,
      drop_owned_ref-drop_ref v cl you shared.located (life State.present 1 room.life.gen)
          (one_ref-IsLife v State.present room.life.gen room.is_life.gen_fits) shared.alike.0
          (omega arith) (ref z) refl refl,
      marked.returned,
      gone.returned,
      drop_owned_ref-drop_ref v cl you marked.located last (in_use State.marked) word (omega arith)
            (ref z) refl refl
          ∙ gone.returned,
      (gone.located, gone.alike.1 ∙ ap cl.clear (marked.alike.1 ∙ shared.alike.1)),
    )
