-- ===== src/Shard/Guards.antt =====
-- What the guards of src/pool.rs and src/lib.rs do when they are used and dropped. A guard is a
-- pointer to a slot of a shard; the model names the slot by the shard's index and the guard's key.
-- `others` act before the release of the guard, and `later` after it.
use sharded_slab.Base.{
  ℕ, ◌≡◌, refl, sym, subst, ap, ◌∙◌, Bool, true, false, [], Option, none, some, ◌==◌, if◌then◌else◌,
}
use mathlib.Core.Option
use sharded_slab.Config.{Config}
use sharded_slab.Config.Valid.{IsConfig}
use sharded_slab.Key.{unpack_tid, unpack_gen}
use sharded_slab.Lifecycle.Encode.{Life, IsLife, encode}
use sharded_slab.Slot.Memory.{Slot, World, Outcome, returns, ◌>>=◌}
use sharded_slab.Slot.Ops.{Clear, clear_storage}
use sharded_slab.Slot.Quiet.{quiet}
use sharded_slab.Slot.Clearing.{cleared, clear_storage-quiet}
use sharded_slab.Page.Ops.{clear}
use sharded_slab.Shard.{with_shard_slot, clear_local, clear_remote, clear_after_release}
use sharded_slab.Shard.Array.{Array, Interference, get_shard, on_shard}
use sharded_slab.Shard.Located.{Located, offset}
use sharded_slab.Shard.Threads.{Left, Heads, Moved-Left, freed-Moved, with_shard_slot-Left}

module _ {T : Type 0} (c : Config) where
  -- A function of the slot that a guard points to; `none` where there is no such slot, which the
  -- guard excludes.
  unfoldable pub on_guarded :
      {A : Type 0}
      → (World T → Outcome (A × World T))
      → ℕ
      → ℕ
      → Interference T
      → Array T
      → Outcome (Option A × Array T)
  on_guarded f shard key others array =
      on_shard none
        (λ sh. with_shard_slot c key (λ w. do (a, w') ← f w; returns (some a, w')) others sh) shard
        array

module _ {T : Type 0} (c : Config) (cl : Clear T) (me : ℕ) where
  -- `shard.clear_after_release(key)`
  unfoldable pub clear_released : ℕ → ℕ → Interference T → Array T → Outcome (Unit {0} × Array T)
  clear_released shard key later array =
      on_shard tt (λ sh. do sh' ← clear_after_release c cl key later sh me; returns (tt, sh')) shard
        array

  -- The drop of a guard that points to its shard; `release` tells whether to clear the slot.
  unfoldable pub drop_guard :
      (World T → Outcome (Bool × World T))
      → ℕ
      → ℕ
      → Interference T
      → Interference T
      → Array T
      → Outcome (Unit {0} × Array T)
  drop_guard release shard key others later array = do
    (should_clear, array') ← on_guarded c release shard key others array
    if Option.get_or should_clear false
        then clear_released shard key later array'
        else returns (tt, array')

  -- The drop of a guard that owns the array. It looks its shard up by the key, and does no more
  -- where there is none.
  unfoldable pub drop_owned_guard :
      (World T → Outcome (Bool × World T))
      → ℕ
      → Interference T
      → Interference T
      → Array T
      → Outcome (Unit {0} × Array T)
  drop_owned_guard release key others later array = do
    (should_clear, array') ← on_guarded c release (unpack_tid c key) key others array
    if Option.get_or should_clear false
        then elim (get_shard (unpack_tid c key) array') [
          | none ↦ returns (tt, array')
          | some shard ↦ clear_released (unpack_tid c key) key later array'
        ]
        else returns (tt, array')

module _ {T : Type 0} {c : Config} {idx key : ℕ} {array : Array T}
    (z : Located c idx key array) where
  pub on_guarded-Left :
      {A : Type 0} (f : World T → Outcome (A × World T)) (answer : A) (s : Slot T)
      → f (quiet z.slot) ≡ returns (answer, quiet s)
      → Left c idx key s (some answer) (on_guarded c f idx key [] array)
  unfolding on_guarded
  on_guarded-Left f answer s e =
      with_shard_slot-Left z _ none (some answer) s
        (ap (λ o. o >>= λ (a, w'). returns (some a, w')) e)

  module _ (v : IsConfig c) (cl : Clear T) (me : ℕ) (l : Life) (i : IsLife c l)
      (word : z.slot.lifecycle ≡ encode c l) (no_refs : l.refs ≡ 0)
      (at_gen : unpack_gen c key ≡ l.gen) where
    pub clear_released-Left :
        (r : Left c idx key (cleared c cl z.slot l) tt (clear_released c cl me idx key [] array))
        × Heads (me == r.located.shard.tid) r.located
    unfolding clear_released clear_after_release clear_local clear_remote clear
    clear_released-Left =
        let (m, heads, same_tid) =
          freed-Moved z false true
            (λ F fl gen offset free w. clear_storage c fl cl gen offset free w)
            (cleared c cl z.slot l)
            (λ F fl free.
              rw at_gen (clear_storage-quiet v fl cl (offset z) free z.slot l i word no_refs))
            (me == z.shard.tid) in
        (
          Moved-Left z m tt tt _
              (ap (λ o. (o >>= λ (_, sh). returns sh) >>= λ sh. returns (tt, sh)) m.returned),
          subst (λ tid. Heads (me == tid) m.located) (sym same_tid) heads,
        )

module _ {T : Type 0} {c : Config} {idx key : ℕ} {array : Array T} (z : Located c idx key array)
    (v : IsConfig c) (cl : Clear T) (me : ℕ) (release : World T → Outcome (Bool × World T))
    (s : Slot T) where
  -- A guard that is not the last of a marked slot only lets go of it.
  pub drop_guard-released :
      release (quiet z.slot) ≡ returns (false, quiet s)
      → Left c idx key s tt (drop_guard c cl me release idx key [] [] array)
  unfolding drop_guard
  drop_guard-released e =
      let r = on_guarded-Left z release false s e in
      record {
        array = r.array;
        returned = rw (drop_guard, r.returned) refl;
        located = r.located;
        alike = r.alike;
      }

  -- The last one clears it, and it is the first slot to be used again.
  pub drop_guard-cleared :
      release (quiet z.slot) ≡ returns (true, quiet s)
      → (l : Life) → IsLife c l
      → s.lifecycle ≡ encode c l
      → l.refs ≡ 0
      → unpack_gen c key ≡ l.gen
      → (r : Left c idx key (cleared c cl s l) tt (drop_guard c cl me release idx key [] [] array))
        × Heads (me == r.located.shard.tid) r.located
  unfolding drop_guard
  drop_guard-cleared e l i word no_refs at_gen =
      let r = on_guarded-Left z release true s e in
      let (q, heads) =
        clear_released-Left r.located v cl me l i (r.alike.0 ∙ word) no_refs at_gen in
      (
        record {
          array = q.array;
          returned = rw (drop_guard, r.returned) q.returned;
          located = q.located;
          alike = (q.alike.0, q.alike.1 ∙ ap cl.clear r.alike.1);
        },
        heads,
      )

module _ {T : Type 0} {c : Config} {key : ℕ} {array : Array T}
    (z : Located c (unpack_tid c key) key array) (cl : Clear T) (me : ℕ)
    (release : World T → Outcome (Bool × World T)) (s : Slot T) where
  same_end :
      (b : Bool) (after : Array T)
      → Located c (unpack_tid c key) key after
      → (if b
          then elim (get_shard (unpack_tid c key) after) [
            | none ↦ returns (tt, after)
            | some shard ↦ clear_released c cl me (unpack_tid c key) key [] after
          ]
          else returns (tt, after))
        ≡ (if b
            then clear_released c cl me (unpack_tid c key) key [] after
            else returns (tt, after))
  unfolding get_shard
  same_end true after y = rw (get_shard, y.held) refl
  same_end false after y = refl

  -- An owned guard finds its shard again under the key.
  pub drop_owned_guard-drop_guard :
      (should_clear : Bool)
      → release (quiet z.slot) ≡ returns (should_clear, quiet s)
      → drop_owned_guard c cl me release key [] [] array
        ≡ drop_guard c cl me release (unpack_tid c key) key [] [] array
  unfolding drop_owned_guard drop_guard
  drop_owned_guard-drop_guard should_clear e =
      let r = on_guarded-Left z release should_clear s e in
      rw (drop_owned_guard, drop_guard, r.returned) (same_end should_clear r.array r.located)
