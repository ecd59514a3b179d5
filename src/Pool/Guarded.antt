-- ===== src/Pool/Guarded.antt =====
-- The guards of src/pool.rs on the slot that they point to, with no other thread interfering.
use sharded_slab.Base.{ℕ, ◌≤◌, ◌≡◌, refl, sym, ap, ◌∙◌, true, false, [], some, ◌==◌}
use sharded_slab.Word.Fields.{two_pow-pos}
use sharded_slab.Config.{Config, ref_count_field}
use sharded_slab.Config.Valid.{IsConfig}
use sharded_slab.Key.{unpack_gen}
use sharded_slab.Lifecycle.Encode.{Life, IsLife, encode, encode_zero}
use sharded_slab.Slot.Memory.{returns, store, ◌>>=◌}
use sharded_slab.Slot.Ops.{Clear, InitGuard, release, release_init, release2}
use sharded_slab.Slot.Spec.{without_ref, last_marked}
use sharded_slab.Slot.Quiet.{quiet, release-quiet}
use sharded_slab.Slot.Insert.{fresh_guard, present_life, release2_present, downgrade-present}
use sharded_slab.Lifecycle.{State}
use sharded_slab.Slot.Lives.{life, no_ref-IsLife}
use sharded_slab.Slot.Clearing.{cleared}
use sharded_slab.Shard.Located.{Located}
use sharded_slab.Shard.Threads.{Left, Heads}
use sharded_slab.Shard.Guards.{on_guarded-Left, drop_guard-released, drop_guard-cleared}
use sharded_slab.Pool.{
  Pool, Ref, RefMut, deref, deref_mut, release_mut, downgrade_inner, drop_ref, drop_ref_mut,
  downgrade_ref,
}

module _ {T : Type 0} {c : Config} {idx key : ℕ} {pool : Pool T} (z : Located c idx key pool) where
  abbrev pub ref : Ref
  ref = record { inner = tt; shard = idx; key = key }

  abbrev pub ref_mut : InitGuard → RefMut
  ref_mut inner = record { inner = inner; shard = idx; key = key }

  pub deref-found : Left c idx key z.slot (some z.slot.item) (deref c ref [] pool)
  unfolding deref
  deref-found = on_guarded-Left z (λ w. returns (w.slot.item, w)) z.slot.item z.slot refl

  pub deref_mut-found :
      (inner : InitGuard) (change : T → T)
      → Left c idx key
          (record (z.slot) { item = change z.slot.item })
          (some tt)
          (deref_mut c (ref_mut inner) change [] pool)
  unfolding deref_mut
  deref_mut-found inner change = on_guarded-Left z _ tt _ refl

  module _ (v : IsConfig c) (cl : Clear T) (me : ℕ) (l : Life) (i : IsLife c l)
      (word : z.slot.lifecycle ≡ encode c l) where
    -- A reference that is not the last one of a marked slot.
    pub drop_ref-released :
        1 ≤ l.refs
        → last_marked l ≡ false
        → Left c idx key
            (store (encode c (without_ref l)) z.slot)
            tt
            (drop_ref c cl me ref [] [] pool)
    unfolding drop_ref
    drop_ref-released some_ref last =
        drop_guard-released z v cl me (release c) (store (encode c (without_ref l)) z.slot) (
          release-quiet v z.slot l i word some_ref
          ∙ ap (λ b. returns (b, quiet (store (encode c (without_ref l)) z.slot))) last)

    -- Before its item is shared, a slot that `create` has taken is not touched by the others: its
    -- guard makes it present when it is dropped.
    pub drop_ref_mut-present :
        Left c idx key
          (store (encode c (present_life 0 l)) z.slot)
          tt
          (drop_ref_mut c cl me (ref_mut (fresh_guard c l)) [] [] pool)
    unfolding drop_ref_mut release_mut release_init
    drop_ref_mut-present =
        drop_guard-released z v cl me (release_mut c (fresh_guard c l))
          (store (encode c (present_life 0 l)) z.slot)
          (ap (λ o. o >>= λ (dropping, _, w'). returns (dropping, w'))
            (release2_present v l i (quiet z.slot) (fresh_guard c l) 0 0 tt word refl refl
              (two_pow-pos (ref_count_field c).len) (sym (encode_zero c))))

    -- The last reference of a marked slot.
    pub drop_ref-cleared :
        1 ≤ l.refs
        → last_marked l ≡ true
        → unpack_gen c key ≡ l.gen
        → (r : Left c idx key
            (cleared c cl z.slot (life State.removing 0 l.gen))
            tt
            (drop_ref c cl me ref [] [] pool))
          × Heads (me == r.located.shard.tid) r.located
    unfolding drop_ref
    drop_ref-cleared some_ref last at_gen =
        drop_guard-cleared z v cl me (release c)
          (store (encode c (life State.removing 0 l.gen)) z.slot)
          (release-quiet v z.slot l i word some_ref ∙ rw last refl) (life State.removing 0 l.gen)
          (no_ref-IsLife v State.removing l.gen i.gen_fits) refl refl at_gen

-- `downgrade` shares the item of a slot that `create` has taken, with one reference.
module _ {T : Type 0} {c : Config} {idx key : ℕ} {pool : Pool T} (z : Located c idx key pool)
    (v : IsConfig c) (cl : Clear T) (me : ℕ) (l : Life) (i : IsLife c l)
    (word : z.slot.lifecycle ≡ encode c l) where
  abbrev pub released_guard : InitGuard
  released_guard = record { curr_lifecycle = encode c l; released = true }

  pub released_twice :
      (pool' : Pool T) (y : Located c idx key pool')
      → Left c idx key y.slot tt (drop_ref_mut c cl me (ref_mut z released_guard) [] [] pool')
  unfolding drop_ref_mut release_mut release_init release2
  released_twice pool' y = drop_guard-released y v cl me (release_mut c released_guard) y.slot refl

  pub downgrade_ref-present :
      Left c idx key
        (store (encode c (present_life 1 l)) z.slot)
        (some (ref z))
        (downgrade_ref c cl me (ref_mut z (fresh_guard c l)) [] [] [] pool)
  unfolding downgrade_ref downgrade_inner
  downgrade_ref-present =
      let r =
        on_guarded-Left z (downgrade_inner c (fresh_guard c l)) (tt, released_guard)
          (store (encode c (present_life 1 l)) z.slot)
          (ap (λ o. o >>= λ (guard, inner', w'). returns ((guard, inner'), w'))
            (downgrade-present v l i (quiet z.slot) tt word)) in
      let q = released_twice r.array r.located in
      record {
        array = q.array;
        returned = rw (downgrade_ref, r.returned) (rw q.returned refl);
        located = q.located;
        alike = (q.alike.0 ∙ r.alike.0, q.alike.1 ∙ r.alike.1);
      }
