-- ===== src/Slot/Insert.antt =====
-- `init`, `insert`, `release2` and `downgrade` of src/page/slot.rs: a slot off the free list gets a
-- value under its current generation.
use sharded_slab.Base.{
  ℕ, ◌^◌, ◌<◌, ◌≡◌, refl, sym, ap, ◌∙◌, true, false, List, [], ◌∷◌, Option, none, some, eq→==,
  ne→==, All, arith,
}
use sharded_slab.Word.Fields.{two_pow-pos}
use sharded_slab.Word.Powers.{two_pow_mono}
use sharded_slab.Config.{Config, gen_field, ref_count_field}
use sharded_slab.Config.Valid.{IsConfig, ref_bits}
use sharded_slab.Lifecycle.{
  State, pack_gen, pack_state, pack_refs, refs_from_packed, gen_from_packed,
}
use sharded_slab.Lifecycle.Encode.{
  Life, IsLife, encode, gen_from_packed-encode, refs_from_packed-encode, pack_gen-encode,
  pack_state-encode, pack_refs-encode, encode_zero,
}
use sharded_slab.Slot.Memory.{Slot, World, returns, load, after_others, store, ◌>>=◌}
use sharded_slab.Slot.Ops.{
  InitGuard, init, insert, fill, generation, release2, release_init, downgrade,
}

-- An interference that leaves the slot alone while its word stands for `l`.
abbrev pub Leaves : {T : Type 0} → Config → Life → (Slot T → Slot T) → Type 0
Leaves {T} c l f = (s : Slot T) → s.lifecycle ≡ encode c l → f s ≡ s

abbrev pub rest_of : {T : Type 0} → List (Slot T → Slot T) → List (Slot T → Slot T)
rest_of [] = []
rest_of (f ∷ fs) = fs

pub load-left :
    {T : Type 0} (c : Config) (l : Life) (w : World T)
    → All (Leaves c l) w.others
    → w.slot.lifecycle ≡ encode c l
    → load w ≡ record { slot = w.slot; others = rest_of w.others }
unfolding load after_others
load-left {T} c l w keep word = go w.others keep
  where
    go :
        (fs : List (Slot T → Slot T))
        → All (Leaves c l) fs
        → after_others fs w.slot ≡ record { slot = w.slot; others = rest_of fs }
    go [] k = refl
    go (f ∷ fs) k = ap (λ s. record { slot = s; others = fs }) (k.0 w.slot word)

-- The life of a slot that has just been initialised.
abbrev pub present_life : ℕ → Life → Life
present_life refs l = record { state = State.present; refs = refs; gen = l.gen }

-- The word that `release2` stores, for no reference or one.
pub new_word :
    {c : Config} (v : IsConfig c) (l : Life)
    → IsLife c l
    → (n : ℕ) → n < 2 ^ (ref_count_field c).len
    → pack_gen c l.gen (
        pack_state c State.present (encode c (record { state = State.present; refs = n; gen = 0 })))
      ≡ encode c (present_life n l)
new_word {c} v l i n h =
    let b : IsLife c (record { state = State.present; refs = n; gen = 0 }) = record {
      refs_fit = h;
      gen_fits = two_pow-pos (gen_field c).len;
    } in
    ap (pack_gen c l.gen) (pack_state-encode v b State.present)
    ∙ pack_gen-encode v b l.gen i.gen_fits

module _ {T : Type 0} {c : Config} (v : IsConfig c) (l : Life) (i : IsLife c l) where
  -- `release2` makes the slot present if nobody has touched it since `init`.
  pub release2_present :
      (w : World T) (guard : InitGuard) (n new_refs : ℕ)
      → All (Leaves c l) w.others
      → w.slot.lifecycle ≡ encode c l
      → guard.released ≡ false
      → guard.curr_lifecycle ≡ encode c l
      → n < 2 ^ (ref_count_field c).len
      → new_refs ≡ encode c (record { state = State.present; refs = n; gen = 0 })
      → release2 c guard new_refs w
        ≡ returns (
          false,
          record guard { released = true },
          record { slot = store (encode c (present_life n l)) w.slot; others = rest_of w.others },
        )
  unfolding release2
  release2_present w guard n new_refs keep word fresh curr h e = rw fresh (
      rw (load-left c l w keep word) (
        rw (eq→== _ _ (word ∙ sym curr)) (
          ap
            (λ t. returns (
              false,
              record guard { released = true },
              record { slot = store t w.slot; others = rest_of w.others },
            ))
            (ap (λ t. pack_gen c t (pack_state c State.present new_refs))
                (ap (gen_from_packed c) curr ∙ gen_from_packed-encode v i)
              ∙ ap (λ t. pack_gen c l.gen (pack_state c State.present t)) e
              ∙ new_word v l i n h))))

-- `insert` puts the value in under the slot's generation, and hands back what the item held, if the
-- slot has no reference and the others leave it alone.
module _ {T : Type 0} {c : Config} (v : IsConfig c) (l : Life) (i : IsLife c l) where
  pub init-fresh :
      (w : World T)
      → All (Leaves c l) w.others
      → w.slot.lifecycle ≡ encode c l
      → l.refs ≡ 0
      → init c w ≡ (
        some (record { curr_lifecycle = w.slot.lifecycle; released = false }),
        record { slot = w.slot; others = rest_of w.others },
      )
  unfolding init
  init-fresh w keep word no_refs =
      rw (load-left c l w keep word)
        (rw (eq→== _ _ (ap (refs_from_packed c) word ∙ refs_from_packed-encode v i ∙ no_refs)) refl)

  -- A slot that is still referenced is not initialised.
  pub init_refused :
      (w : World T) → (load w).slot.lifecycle ≡ encode c l → 0 < l.refs → init c w ≡ (none, load w)
  unfolding init
  init_refused w word some_ref =
      rw
        (ne→== (refs_from_packed c (load w).slot.lifecycle) 0
          (λ e. absurd (omega (arith, ap (refs_from_packed c) word, refs_from_packed-encode v i))))
        refl

module _ {c : Config} (v : IsConfig c) where
  pub one_fits : 1 < 2 ^ (ref_count_field c).len
  one_fits = omega (arith, two_pow_mono {a = 2} (ref_bits v))

  -- The references that `downgrade` starts with.
  pub one_ref : pack_refs c 1 0 ≡ encode c (record { state = State.present; refs = 1; gen = 0 })
  one_ref =
      ap (pack_refs c 1) (sym (encode_zero c))
      ∙ pack_refs-encode v
          (record {
            refs_fit = two_pow-pos (ref_count_field c).len;
            gen_fits = two_pow-pos (gen_field c).len;
          })
          1 one_fits

abbrev pub fresh_guard : Config → Life → InitGuard
fresh_guard c l = record { curr_lifecycle = encode c l; released = false }

module _ {T : Type 0} {c : Config} (v : IsConfig c) (l : Life) (i : IsLife c l) where
  rest-Leaves : (fs : List (Slot T → Slot T)) → All (Leaves c l) fs → All (Leaves c l) (rest_of fs)
  rest-Leaves [] k = tt
  rest-Leaves (f ∷ fs) k = k.1

  -- `downgrade` makes the slot present with one reference, that of the guard it returns.
  pub downgrade-present :
      (w : World T)
      → All (Leaves c l) w.others
      → w.slot.lifecycle ≡ encode c l
      → downgrade c (fresh_guard c l) w
        ≡ returns (
          tt,
          record { curr_lifecycle = encode c l; released = true },
          record { slot = store (encode c (present_life 1 l)) w.slot; others = rest_of w.others },
        )
  unfolding downgrade
  downgrade-present w keep word =
      rw
        (
          release2_present v l i w (fresh_guard c l) 1 (pack_refs c 1 0) keep word refl refl
              (one_fits v) (one_ref v),
          ◌>>=◌,
        )
        refl

-- `insert` puts the value in under the slot's generation and hands back what the item held.
pub insert-present :
    {T : Type 0} {c : Config} (v : IsConfig c) (l : Life) (i : IsLife c l) (value : Option T)
    (w : World (Option T))
    → All (Leaves c l) w.others
    → w.slot.lifecycle ≡ encode c l
    → l.refs ≡ 0
    → insert c value w
      ≡ returns (
        some l.gen,
        w.slot.item,
        record {
          slot = record (w.slot) { lifecycle = encode c (present_life 0 l); item = value };
          others = rest_of (rest_of w.others);
        },
      )
unfolding insert fill release_init generation
insert-present {T} {c} v l i value w keep word no_refs =
    ap (fill c value) (init-fresh v l i w keep word no_refs)
    ∙ ap (λ o. o >>= λ (_, _, w'). returns (some (generation c guard), w.slot.item, w'))
        (release2_present v l i filled guard 0 0 (rest-Leaves v l i w.others keep) word refl word
          (two_pow-pos (ref_count_field c).len) (sym (encode_zero c)))
    ∙ ap (λ g. returns (some g, w.slot.item, present))
        (ap (gen_from_packed c) word ∙ gen_from_packed-encode v i)
  where
    guard : InitGuard
    guard = record { curr_lifecycle = w.slot.lifecycle; released = false }

    filled : World (Option T)
    filled = record { slot = record (w.slot) { item = value }; others = rest_of w.others }

    present : World (Option T)
    present = record {
      slot = record (w.slot) { lifecycle = encode c (present_life 0 l); item = value };
      others = rest_of (rest_of w.others);
    }
