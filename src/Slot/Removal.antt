-- ===== src/Slot/Removal.antt =====
-- `release_with` of src/page/slot.rs where the references are dropped while it runs.
use mathlib.Core.Bool.{false≢true}
use native.Mathlib.Decide.{dec_lt, ℕ_discrete}
use sharded_slab.Base.{
  ℕ, zero, suc, ◌+◌, ◌≤◌, ◌<◌, ◌≡◌, refl, sym, ap, subst, ◌∙◌, inl, inr, Bool, true, false, List,
  [], ◌∷◌, length, arith,
}
use sharded_slab.Config.{Config}
use sharded_slab.Config.Valid.{IsConfig}
use sharded_slab.Lifecycle.{pack_gen, advance}
use sharded_slab.Lifecycle.Encode.{Life, IsLife, encode, advance-lt}
use sharded_slab.Slot.Memory.{Slot, World, Outcome, returns, load, store}
use sharded_slab.Slot.Rounds.{
  DropsAll, Call, total, Removed, load-quiet, load-interfered, At, round_done, round_spin,
  round_retry, seen_refs, passes, advanced_word, retried, refs, current, spun, loop, won,
  dropped_life,
}
use sharded_slab.Slot.Ops.{finish_release, release_with}

module _ {T F R : Type 0} {c : Config} (v : IsConfig c) (x : Call c T F R) where
  open x use {fl, mutator, gen, offset, free, gen_fits}

  abbrev Done : T → Outcome (R × F × World T) → Type 0
  Done item o = Removed c fl mutator gen offset free item o

  -- The last round: the exchange succeeds on a slot with no reference.
  finished :
      {advanced : Bool} {seen : ℕ} (s s' : Slot T) {l : Life} (fuel : ℕ)
      (fs fs' : List (Slot T → Slot T)) (a : At v x advanced seen s l)
      → load (record { slot = s; others = fs }) ≡ record { slot = s'; others = fs' }
      → s'.lifecycle ≡ seen
      → a.old.refs ≡ 0
      → Done s'.item (loop v x (suc fuel) advanced seen (record { slot = s; others = fs }))
  unfolding finish_release
  finished {advanced} {seen} s s' fuel fs fs' a e p q = record {
    left = record s' {
      lifecycle = pack_gen c (advance c gen) seen;
      item = (mutator.on_some s'.item).0;
    };
    rest = fs';
    life = record (a.old) { gen = advance c gen };
    is_life = record {
      refs_fit = a.old_is_life.refs_fit;
      gen_fits = omega (arith, advance-lt v gen);
    };
    word = advanced_word v x a;
    no_refs = q;
    next_gen = refl;
    item_left = refl;
    returned =
        round_done v x fuel advanced seen (record { slot = s; others = fs }) (passes v x a)
          (ap (λ y. y.slot.lifecycle) e ∙ p) (seen_refs v x a ∙ q)
        ∙ ap (λ y. returns (finish_release c fl mutator gen offset free (won v x seen y))) e;
  }

  carry : {o : Outcome (R × F × World T)} {x y : T} → x ≡ y → Done x o → Done y o
  carry {o} e r = subst (λ t. Done t o) e r

  -- Once the interferences have dropped every reference, the loop v x has removed the value.
  removes :
      (fuel : ℕ) (ks : List ℕ) (fs : List (Slot T → Slot T))
      → length fs < fuel
      → DropsAll c ks fs
      → (advanced : Bool) (seen : ℕ) (s : Slot T) (l : Life) → At v x advanced seen s l
      → l.refs ≤ total ks
      → Done s.item (loop v x fuel advanced seen (record { slot = s; others = fs }))
  removes zero ks fs lt d advanced seen s l a h = absurd (omega arith)
  removes (suc fuel) [] [] lt d advanced seen s l a h =
      finished s s fuel [] [] a (load-quiet s) (a.word ∙ ap (encode c) (sym here) ∙ sym a.seen_word)
        (omega (arith, ap (λ (y : Life). y.refs) here))
    where
      here : a.old ≡ l
      here = elim a.same [ inl e ↦ e | inr (_, _, some_ref) ↦ absurd (omega arith) ]
  removes (suc fuel) [] (f ∷ fs) lt d advanced seen s l a h = elim d [ ]
  removes (suc fuel) (k ∷ ks) [] lt d advanced seen s l a h = elim d [ ]
  removes (suc fuel) (k ∷ ks) (f ∷ fs) lt (d, ds) advanced seen s l a h =
      elim (ℕ_discrete (f s).lifecycle seen) [
        | yes race ↦ elim (dec_lt 0 l.refs) [
          | yes some_ref ↦
              subst (Done s.item)
                (sym (
                  round_spin v x fuel advanced seen (record { slot = s; others = f ∷ fs })
                    (passes v x a) (ap (λ w. w.slot.lifecycle) loaded ∙ race)
                    (λ e. absurd (omega (arith, seen_refs v x a, refs_eq race)))
                  ∙ ap (λ w. loop v x fuel true seen (won v x seen w)) loaded))
                (carry (d.keeps_item s) (
                  removes fuel ks fs (omega arith) ds true seen
                    (store (pack_gen c (advance c gen) seen) (f s))
                    (record l { gen = advance c gen }) (spun v x a k f d race some_ref)
                    (omega (arith, refs v x a k f d race, refs_eq race))))
          | no none ↦
              carry (d.keeps_item s)
                (finished s (f s) fuel (f ∷ fs) fs a loaded race (omega (arith, refs_eq race)))
        ]
        | no race ↦
            subst (Done s.item)
              (sym (
                round_retry v x fuel advanced seen (record { slot = s; others = f ∷ fs })
                  (passes v x a) (λ e. race (ap (λ w. w.slot.lifecycle) (sym loaded) ∙ e))
                ∙ ap (λ w. loop v x fuel advanced w.slot.lifecycle w) loaded))
              (carry (d.keeps_item s) (
                removes fuel ks fs (omega arith) ds advanced (f s).lifecycle (f s)
                  (dropped_life v x a k f d) (retried v x a k f d) (omega arith)))
      ]
    where
      loaded : load (record { slot = s; others = f ∷ fs }) ≡ record { slot = f s; others = fs }
      loaded = load-interfered s f fs

      refs_eq : (f s).lifecycle ≡ seen → a.old.refs ≡ l.refs
      refs_eq race = ap (λ (y : Life). y.refs) (current v x a k f d race)

  -- From the loop's first word on.
  abbrev pub start :
      (s : Slot T) (l : Life)
      → IsLife c l
      → s.lifecycle ≡ encode c l
      → l.gen ≡ gen
      → At v x false s.lifecycle s l
  start s l i e g = record {
    is_life = i;
    word = e;
    old = l;
    old_is_life = i;
    seen_word = e;
    same = inl refl;
    before = λ _. g;
    after = λ e. absurd (false≢true e);
  }

  -- `release_with` at the slot's generation returns with the value taken out, the slot pushed once
  -- and the generation advanced, if the other threads drop every reference that there is.
  pub release_with-Removed :
      (ks : List ℕ) (w : World T) (l : Life)
      → DropsAll c ks w.others
      → IsLife c l
      → w.slot.lifecycle ≡ encode c l
      → l.gen ≡ gen
      → l.refs ≤ total ks
      → Done w.slot.item (release_with c fl mutator gen offset free w)
  unfolding release_with
  release_with-Removed ks w l d i e g h = go ks w.others d h
    where
      go :
          (ks : List ℕ) (fs : List (Slot T → Slot T))
          → DropsAll c ks fs
          → l.refs ≤ total ks
          → Done w.slot.item
              (release_with c fl mutator gen offset free (record { slot = w.slot; others = fs }))
      go [] [] d h = rw (load-quiet w.slot) (
          removes 2 [] [] (omega arith) tt false w.slot.lifecycle w.slot l (start w.slot l i e g) h)
      go [] (f ∷ fs) d h = elim d [ ]
      go (k ∷ ks) [] d h = elim d [ ]
      go (k ∷ ks) (f ∷ fs) (d, ds) h =
          let a = start w.slot l i e g in
          rw (load-interfered w.slot f fs) (
            carry (d.keeps_item w.slot) (
              removes (length fs + 2) ks fs (omega arith) ds false (f w.slot).lifecycle (f w.slot)
                (dropped_life v x a k f d) (retried v x a k f d) (omega arith)))
