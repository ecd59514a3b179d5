-- ===== src/Slot/Waiting.antt =====
-- `release_with` (src/page/slot.rs) where it does not remove: a reference is left, or the slot has
-- another generation.
use native.Mathlib.Decide.{ℕ_discrete}
use native.Mathlib.Nat.{sub-zero}
use sharded_slab.Base.{
  ℕ, zero, suc, ◌+◌, ◌≤◌, ◌<◌, ◌≡◌, ◌≢◌, refl, sym, ap, ◌∙◌, Bool, true, false, List, [], ◌∷◌,
  ne→==, length, arith,
}
use sharded_slab.Config.{Config}
use sharded_slab.Config.Valid.{IsConfig}
use sharded_slab.Lifecycle.Encode.{Life, IsLife, encode, gen_from_packed-encode}
use sharded_slab.Slot.Memory.{Slot, World, returns, spins, load}
use sharded_slab.Slot.Rounds.{
  Drops, DropsAll, Call, total, load-quiet, load-interfered, At, round_spin, round_retry, seen_refs,
  passes, retried, current, spun, loop, won,
}
use sharded_slab.Slot.Removal.{start}
use sharded_slab.Slot.Ops.{release_loop, release_with}

abbrev still : {T : Type 0} → Slot T → Slot T
still s = s

still-Drops : {T : Type 0} (c : Config) → Drops {T = T} c 0 still
still-Drops c = record {
  new_state = λ s l. l.state;
  dropped = λ s l i e. rw sub-zero e;
  keeps_item = λ s. refl;
}

module _ {T F R : Type 0} {c : Config} (v : IsConfig c) (x : Call c T F R) where
  open x use {fl, mutator, gen, offset, free, gen_fits}

  -- One round with a reference left: `f` is what the others do before the exchange.
  waits :
      (fuel k : ℕ) (f : Slot T → Slot T) (fs fs' : List (Slot T → Slot T)) (d : Drops c k f)
      {advanced : Bool} {seen : ℕ} {s : Slot T} {l : Life} (a : At v x advanced seen s l)
      → load (record { slot = s; others = fs }) ≡ record { slot = f s; others = fs' }
      → k < l.refs
      → ((advanced' : Bool) (seen' : ℕ) (s' : Slot T) (l' : Life)
          → At v x advanced' seen' s' l'
          → l.refs ≤ l'.refs + k
          → loop v x fuel advanced' seen' (record { slot = s'; others = fs' }) ≡ spins)
      → loop v x (suc fuel) advanced seen (record { slot = s; others = fs }) ≡ spins
  waits fuel k f fs fs' d {advanced} {seen} {s} {l} a loaded some_left rest =
      elim (ℕ_discrete (f s).lifecycle seen) [
        | yes race ↦
            round_spin v x fuel advanced seen (record { slot = s; others = fs }) (passes v x a)
              (ap (λ w. w.slot.lifecycle) loaded ∙ race)
              (λ e. absurd (omega (arith, seen_refs v x a, old_refs race)))
            ∙ ap (λ w. loop v x fuel true seen (won v x seen w)) loaded
            ∙ rest true seen _ _ (spun v x a k f d race (omega arith)) (omega arith)
        | no race ↦
            round_retry v x fuel advanced seen (record { slot = s; others = fs }) (passes v x a)
              (λ e. race (ap (λ w. w.slot.lifecycle) (sym loaded) ∙ e))
            ∙ ap (λ w. loop v x fuel advanced w.slot.lifecycle w) loaded
            ∙ rest advanced _ _ _ (retried v x a k f d) (omega arith)
      ]
    where
      old_refs : (f s).lifecycle ≡ seen → a.old.refs ≡ l.refs
      old_refs race = ap (λ (y : Life). y.refs) (current v x a k f d race)

  stays :
      (fuel : ℕ) (ks : List ℕ) (fs : List (Slot T → Slot T))
      → DropsAll c ks fs
      → (advanced : Bool) (seen : ℕ) (s : Slot T) (l : Life) → At v x advanced seen s l
      → total ks < l.refs
      → loop v x fuel advanced seen (record { slot = s; others = fs }) ≡ spins
  unfolding release_loop
  stays zero ks fs d advanced seen s l a h = refl
  stays (suc fuel) [] [] d advanced seen s l a h =
      waits fuel 0 still [] [] (still-Drops c) a (load-quiet s) h
        (λ advanced' seen' s' l' a' le. stays fuel [] [] tt advanced' seen' s' l' a' (omega arith))
  stays (suc fuel) [] (f ∷ fs) d advanced seen s l a h = elim d [ ]
  stays (suc fuel) (k ∷ ks) [] d advanced seen s l a h = elim d [ ]
  stays (suc fuel) (k ∷ ks) (f ∷ fs) (d, ds) advanced seen s l a h =
      waits fuel k f (f ∷ fs) fs d a (load-interfered s f fs) (omega arith)
        (λ advanced' seen' s' l' a' le. stays fuel ks fs ds advanced' seen' s' l' a' (omega arith))

  -- While the other threads drop fewer references than there are, no number of rounds is enough.
  pub release_loop-spins :
      (fuel : ℕ) (ks : List ℕ) (w : World T) (l : Life)
      → DropsAll c ks w.others
      → IsLife c l
      → w.slot.lifecycle ≡ encode c l
      → l.gen ≡ gen
      → total ks < l.refs
      → release_loop c fl mutator gen offset fuel false w.slot.lifecycle free w ≡ spins
  release_loop-spins fuel ks w l d i e g h =
      stays fuel ks w.others d false w.slot.lifecycle w.slot l (start v x w.slot l i e g) h

  -- At another generation nothing is removed, and the slot and the free list stay as they are.
  pub release_with_stale :
      (w : World T) (l : Life)
      → IsLife c l
      → (load w).slot.lifecycle ≡ encode c l
      → gen ≢ l.gen
      → release_with c fl mutator gen offset free w ≡ returns (mutator.on_none, free, load w)
  unfolding release_with release_loop
  release_with_stale w l i e g =
      let n : length (load w).others + 2 ≡ suc (length (load w).others + 1) = omega arith in
      rw n (rw (e, gen_from_packed-encode v i) (rw (ne→== gen l.gen g) refl))
