-- ===== src/Slot/Rounds.antt =====
-- The rounds of the loop in `release_with` (src/page/slot.rs), and where it stands between two.
use sharded_slab.Base.{
  ℕ, suc, ◌+◌, ◌-◌, ◌^◌, ◌<◌, ◌≡◌, ◌≢◌, refl, sym, ap, ◌∙◌, ◌⊎◌, inl, inr, Bool, true, false, not,
  ◌&&◌, List, [], ◌∷◌, ◌==◌, Bool-cases, eq→==, ne→==, arith,
}
use sharded_slab.Config.{Config, gen_field}
use sharded_slab.Config.Valid.{IsConfig}
use sharded_slab.Lifecycle.{State, refs_from_packed, gen_from_packed, pack_gen, advance}
use sharded_slab.Lifecycle.Encode.{
  Life, IsLife, encode, refs_from_packed-encode, gen_from_packed-encode, pack_gen-encode,
  advance-lt, advance-ne,
}
use sharded_slab.Slot.Memory.{Slot, World, Outcome, returns, load, after_others, store}
use sharded_slab.Slot.Ops.{FreeList, Mutator, finish_release, release_loop}

-- An interference that drops `k` references: it may change the state (the last guard of a marked
-- slot does), and leaves the generation, the item and the link alone.
pub record Drops {T : Type 0} (c : Config) (k : ℕ) (f : Slot T → Slot T) : Type 0 where
  pub new_state : Slot T → Life → State
  pub dropped :
      (s : Slot T) (l : Life)
      → IsLife c l
      → s.lifecycle ≡ encode c l
      → (f s).lifecycle
        ≡ encode c (record { state = new_state s l; refs = l.refs - k; gen = l.gen })
  pub keeps_item : (s : Slot T) → (f s).item ≡ s.item

abbrev pub DropsAll : {T : Type 0} → Config → List ℕ → List (Slot T → Slot T) → Type 0
DropsAll c [] [] = Unit
DropsAll c [] (f ∷ fs) = ⊥
DropsAll c (k ∷ ks) [] = ⊥
DropsAll c (k ∷ ks) (f ∷ fs) = Drops c k f × DropsAll c ks fs

abbrev pub total : List ℕ → ℕ
total [] = 0
total (k ∷ ks) = k + total ks

-- The call has removed `item`: the slot went to the free list with the next generation, no
-- reference, and what the mutator left.
pub record Removed {T F R : Type 0} (c : Config) (fl : FreeList T F) (mutator : Mutator T R)
    (gen offset : ℕ) (free : F) (item : T) (o : Outcome (R × F × World T)) : Type 0 where
  pub left : Slot T
  pub rest : List (Slot T → Slot T)
  pub life : Life
  pub is_life : IsLife c life
  pub word : left.lifecycle ≡ encode c life
  pub no_refs : life.refs ≡ 0
  pub next_gen : life.gen ≡ advance c gen
  pub item_left : left.item ≡ (mutator.on_some item).0
  pub returned :
      o
      ≡ returns (
        (mutator.on_some item).1,
        (fl.push offset left free).1,
        record { slot = (fl.push offset left free).0; others = rest },
      )

pub load-quiet :
    {T : Type 0} (s : Slot T)
    → load (record { slot = s; others = [] }) ≡ record { slot = s; others = [] }
unfolding load after_others
load-quiet s = refl

pub load-interfered :
    {T : Type 0} (s : Slot T) (f : Slot T → Slot T) (fs : List (Slot T → Slot T))
    → load (record { slot = s; others = f ∷ fs }) ≡ record { slot = f s; others = fs }
unfolding load after_others
load-interfered s f fs = refl

-- The arguments of a call of `release_with`.
pub record Call (c : Config) (T F R : Type 0) : Type 0 where
  pub fl : FreeList T F
  pub mutator : Mutator T R
  pub gen : ℕ
  pub offset : ℕ
  pub free : F
  pub gen_fits : gen < 2 ^ (gen_field c).len

module _ {T F R : Type 0} {c : Config} (v : IsConfig c) (x : Call c T F R) where
  open x use {fl, mutator, gen, offset, free, gen_fits}

  abbrev pub loop : ℕ → Bool → ℕ → World T → Outcome (R × F × World T)
  loop fuel advanced seen w = release_loop c fl mutator gen offset fuel advanced seen free w

  abbrev pub won : ℕ → World T → World T
  won seen w = record w { slot = store (pack_gen c (advance c gen) seen) w.slot }

  -- One round, in each of its three ways on.
  module _ (fuel : ℕ) (advanced : Bool) (seen : ℕ) (w : World T)
      (go_on : (not advanced && not (gen == gen_from_packed c seen)) ≡ false) where
    pub round_done :
        (load w).slot.lifecycle ≡ seen
        → refs_from_packed c seen ≡ 0
        → loop (suc fuel) advanced seen w
          ≡ returns (finish_release c fl mutator gen offset free (won seen (load w)))
    unfolding release_loop
    round_done p q = rw go_on (rw (eq→== _ _ p) (rw (eq→== _ _ q) refl))

    pub round_spin :
        (load w).slot.lifecycle ≡ seen
        → refs_from_packed c seen ≢ 0
        → loop (suc fuel) advanced seen w ≡ loop fuel true seen (won seen (load w))
    unfolding release_loop
    round_spin p q = rw go_on (rw (eq→== _ _ p) (rw (ne→== _ _ q) refl))

    pub round_retry :
        (load w).slot.lifecycle ≢ seen
        → loop (suc fuel) advanced seen w ≡ loop fuel advanced (load w).slot.lifecycle (load w)
    unfolding release_loop
    round_retry p = rw go_on (rw (ne→== _ _ p) refl)

  -- Where the loop stands: `seen` is the word read last. Before the exchange and after a failed one
  -- it is the slot's; after a successful one it may be the word replaced.
  pub record At (advanced : Bool) (seen : ℕ) (s : Slot T) (l : Life) : Type 0 where
    pub is_life : IsLife c l
    pub word : s.lifecycle ≡ encode c l
    pub old : Life
    pub old_is_life : IsLife c old
    pub seen_word : seen ≡ encode c old
    pub same : (old ≡ l) ⊎ ((advanced ≡ true) × (old.gen ≡ gen) × (0 < l.refs))
    pub before : advanced ≡ false → l.gen ≡ gen
    pub after : advanced ≡ true → l.gen ≡ advance c gen

  module _ {advanced : Bool} {seen : ℕ} {s : Slot T} {l : Life} (a : At advanced seen s l) where
    open a use {is_life, word, old, old_is_life, seen_word, same, before, after}

    seen_gen : gen_from_packed c seen ≡ old.gen
    seen_gen = rw seen_word (gen_from_packed-encode v old_is_life)

    pub seen_refs : refs_from_packed c seen ≡ old.refs
    seen_refs = rw seen_word (refs_from_packed-encode v old_is_life)

    -- The generation check lets the loop go on.
    pub passes : (not advanced && not (gen == gen_from_packed c seen)) ≡ false
    passes = elim (Bool-cases advanced) [
      | inl later ↦ rw later refl
      | inr first ↦ elim same [
        | inl e ↦ rw (first, seen_gen, e, before first, eq→== gen gen refl) refl
        | inr (later, _, _) ↦ cc
      ]
    ]

    pub advanced_word :
        pack_gen c (advance c gen) seen ≡ encode c (record old { gen = advance c gen })
    advanced_word =
        rw seen_word
          (pack_gen-encode v old_is_life (advance c gen) (omega (arith, advance-lt v gen)))

  -- One interference `f` that drops `k` references, before the exchange.
  module _ {advanced : Bool} {seen : ℕ} {s : Slot T} {l : Life} (a : At advanced seen s l) (k : ℕ)
      (f : Slot T → Slot T) (d : Drops c k f) where
    abbrev pub dropped_life : Life
    dropped_life = record { state = d.new_state s l; refs = l.refs - k; gen = l.gen }

    dropped_word : (f s).lifecycle ≡ encode c dropped_life
    dropped_word = d.dropped s l a.is_life a.word

    dropped-IsLife : IsLife c dropped_life
    dropped-IsLife = record {
      refs_fit = omega (arith, a.is_life.refs_fit);
      gen_fits = a.is_life.gen_fits;
    }

    -- After a failed exchange the loop has read the slot's word.
    pub retried : At advanced (f s).lifecycle (f s) dropped_life
    retried = record {
      is_life = dropped-IsLife;
      word = dropped_word;
      old = dropped_life;
      old_is_life = dropped-IsLife;
      seen_word = dropped_word;
      same = inl refl;
      before = a.before;
      after = a.after;
    }

    module _ (won_race : (f s).lifecycle ≡ seen) where
      gens : l.gen ≡ a.old.gen
      gens =
          sym (gen_from_packed-encode v dropped-IsLife)
          ∙ ap (gen_from_packed c) (sym dropped_word ∙ won_race)
          ∙ seen_gen a

      pub refs : l.refs - k ≡ a.old.refs
      refs =
          sym (refs_from_packed-encode v dropped-IsLife)
          ∙ ap (refs_from_packed c) (sym dropped_word ∙ won_race)
          ∙ seen_refs a

      -- An exchange succeeds only while the word seen is the slot's.
      pub current : a.old ≡ l
      current = elim a.same [
        | inl e ↦ e
        | inr (later, old_gen, _) ↦
            absurd (advance-ne v gen gen_fits (sym (a.after later) ∙ gens ∙ old_gen))
      ]

      pub spun :
          0 < l.refs
          → At true seen
              (store (pack_gen c (advance c gen) seen) (f s))
              (record l { gen = advance c gen })
      spun some_ref = record {
        is_life = record {
          refs_fit = a.is_life.refs_fit;
          gen_fits = omega (arith, advance-lt v gen);
        };
        word =
            advanced_word a
            ∙ ap (λ (o : Life). encode c (record o { gen = advance c gen })) current;
        old = a.old;
        old_is_life = a.old_is_life;
        seen_word = a.seen_word;
        same = spun_same;
        before = λ e. cc;
        after = λ _. refl;
      }
        where
          spun_same :
              (a.old ≡ record l { gen = advance c gen })
              ⊎ ((true ≡ true) × (a.old.gen ≡ gen) × (0 < l.refs))
          spun_same = elim (Bool-cases advanced) [
            | inl later ↦ inl (current ∙ ap (λ g. record l { gen = g }) (a.after later))
            | inr first ↦ inr (refl, sym gens ∙ a.before first, some_ref)
          ]
