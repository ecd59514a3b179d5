-- ===== src/Slot/Interleaved.antt =====
-- The word of one slot of src/page/slot.rs and the number of the guards that are alive, under the
-- exchanges of several threads.
use sharded_slab.Base.{
  ℕ, ◌+◌, ◌^◌, ◌<◌, ◌≡◌, refl, sym, ap, subst, ◌∙◌, inl, inr, Bool, true, Bool-cases, Option, none,
  some, ◌==◌, if◌then◌else◌, arith,
}
use sharded_slab.Word.Fields.{two_pow-pos}
use sharded_slab.Config.{Config, gen_field, ref_count_field}
use sharded_slab.Config.Valid.{IsConfig}
use sharded_slab.Lifecycle.{
  State, state_from_packed, refs_from_packed, gen_from_packed, pack_gen, pack_state, pack_refs,
  advance,
}
use sharded_slab.Lifecycle.Encode.{
  Life, IsLife, encode, state_from_packed-encode, refs_from_packed-encode, gen_from_packed-encode,
  pack_gen-encode, encode_removing, encode_zero, max_refs_lem, advance-lt,
}
use sharded_slab.Slot.Memory.{finish, exchange}
use sharded_slab.Slot.Attempts.{get_attempt, mark_attempt, release_attempt, removing_attempt}
use sharded_slab.Slot.Exchanges.{
  Watched, Exchange, gets, drops, marks, removes, fills, shares, clears, Reachable, starts, steps,
}
use sharded_slab.Slot.Spec.{
  accessible, with_ref, without_ref, last_marked, marking, get_attempt-encode, mark_attempt-encode,
  release_attempt-encode, removing_attempt-encode,
}
use sharded_slab.Slot.Insert.{present_life, new_word, one_fits, one_ref}

record Counted (c : Config) (s : Watched) : Type 0 where
  life : Life
  is_life : IsLife c life
  word_eq : s.word ≡ encode c life
  count : life.refs ≡ s.live

module _ {c : Config} (v : IsConfig c) where
  gets-Counted :
      (gen word new live : ℕ)
      → Counted c (record { word = word; live = live })
      → get_attempt c gen word ≡ exchange new (some tt)
      → Counted c (record { word = new; live = live + 1 })
  gets-Counted gen word new live k e = elim (Bool-cases (accessible c gen k.life)) [
    | inl allowed ↦ record {
      life = with_ref k.life;
      is_life = record {
        refs_fit = ground (arith, allowed, max_refs_lem v, k.is_life.refs_fit);
        gen_fits = k.is_life.gen_fits;
      };
      word_eq = ground (arith, allowed, word_is k, e);
      count = omega (arith, k.count);
    }
    | inr refused ↦ absurd (ground (arith, refused, word_is k, e))
  ]
    where
      word_is :
          (k : Counted c (record { word = word; live = live }))
          → get_attempt c gen word ≡ (
              if accessible c gen k.life
              then exchange (encode c (with_ref k.life)) (some tt)
              else finish none)
      word_is k = rw k.word_eq (get_attempt-encode v k.is_life gen)

  drops-Counted :
      (word new live : ℕ) (dropping : Bool)
      → Counted c (record { word = word; live = live + 1 })
      → release_attempt c word ≡ exchange new dropping
      → Counted c (record { word = new; live = live })
  drops-Counted word new live dropping k e =
      let stored : release_attempt c word
          ≡ exchange (encode c (without_ref k.life)) (last_marked k.life) =
        rw k.word_eq (release_attempt-encode v k.is_life (omega (arith, k.count))) in
      record {
        life = without_ref k.life;
        is_life = record {
          refs_fit = ground (arith, k.is_life.refs_fit, two_pow-pos (ref_count_field c).len);
          gen_fits = ground (arith, k.is_life.gen_fits);
        };
        word_eq = cc (e, stored);
        count = ground (arith, k.count);
      }

  marks-Counted :
      (gen word new live : ℕ) (old : Option ℕ)
      → Counted c (record { word = word; live = live })
      → mark_attempt c gen word ≡ exchange new old
      → Counted c (record { word = new; live = live })
  marks-Counted gen word new live old k e =
      let stored : mark_attempt c gen word
          ≡ (if gen == k.life.gen then marking v k.is_life else finish none) =
        rw k.word_eq (mark_attempt-encode v k.is_life gen) in
      record {
        life = record (k.life) { state = State.marked };
        is_life = record { refs_fit = k.is_life.refs_fit; gen_fits = k.is_life.gen_fits };
        word_eq = ground (arith, e, stored);
        count = k.count;
      }

  removes-Counted :
      (gen word live : ℕ)
      → Counted c (record { word = word; live = live })
      → Counted c (record { word = pack_gen c (advance c gen) word; live = live })
  removes-Counted gen word live k =
      let fits : advance c gen < 2 ^ (gen_field c).len = omega (arith, advance-lt v gen) in
      record {
        life = record (k.life) { gen = advance c gen };
        is_life = record { refs_fit = k.is_life.refs_fit; gen_fits = fits };
        word_eq =
            ap (pack_gen c (advance c gen)) k.word_eq
            ∙ pack_gen-encode v k.is_life (advance c gen) fits;
        count = k.count;
      }

  -- The word that `release2` stores, for no reference or one.
  filled-Counted :
      (word live n new_refs : ℕ)
      → Counted c (record { word = word; live = live })
      → refs_from_packed c word ≡ 0
      → n < 2 ^ (ref_count_field c).len
      → new_refs ≡ encode c (record { state = State.present; refs = n; gen = 0 })
      → Counted c (record {
        word = pack_gen c (gen_from_packed c word) (pack_state c State.present new_refs);
        live = live + n;
      })
  filled-Counted word live n new_refs k none_left fits e = record {
    life = present_life n k.life;
    is_life = record { refs_fit = fits; gen_fits = k.is_life.gen_fits };
    word_eq =
        ap (λ g. pack_gen c g (pack_state c State.present new_refs))
          (ap (gen_from_packed c) k.word_eq ∙ gen_from_packed-encode v k.is_life)
        ∙ ap (λ r. pack_gen c k.life.gen (pack_state c State.present r)) e
        ∙ new_word v k.life k.is_life n fits;
    count = omega (
      arith,
      k.count,
      none_left,
      ap (refs_from_packed c) k.word_eq,
      refs_from_packed-encode v k.is_life,
    );
  }

  clears-Counted :
      (gen word new live : ℕ) (dropping : Bool)
      → Counted c (record { word = word; live = live })
      → gen < 2 ^ (gen_field c).len
      → refs_from_packed c word ≡ 0
      → removing_attempt c gen word ≡ exchange new dropping
      → Counted c (record { word = new; live = live })
  clears-Counted gen word new live dropping k fits none_left e =
      let cleared : Life = record { state = State.removing; refs = 0; gen = gen } in
      let stored : removing_attempt c gen word ≡ exchange (encode c cleared) true =
        rw k.word_eq (removing_attempt-encode v k.is_life gen fits) in
      record {
        life = cleared;
        is_life = record { refs_fit = two_pow-pos (ref_count_field c).len; gen_fits = fits };
        word_eq = cc (e, stored);
        count = omega (
          arith,
          k.count,
          none_left,
          ap (refs_from_packed c) k.word_eq,
          refs_from_packed-encode v k.is_life,
        );
      }

  Exchange-Counted : {s t : Watched} → Exchange c s t → Counted c s → Counted c t
  Exchange-Counted (gets {word} {new} {live} gen e) k = gets-Counted gen word new live k e
  Exchange-Counted (drops {word} {new} {live} {dropping} e) k =
      drops-Counted word new live dropping k e
  Exchange-Counted (marks {word} {new} {live} {old} gen e) k =
      marks-Counted gen word new live old k e
  Exchange-Counted (removes {word} {live} gen) k = removes-Counted gen word live k
  Exchange-Counted (fills {word} {live} h) k =
      let same : live + 0 ≡ live = omega arith in
      subst
        (λ n. Counted c (record {
          word = pack_gen c (gen_from_packed c word) (pack_state c State.present 0);
          live = n;
        }))
        same
        (filled-Counted word live 0 0 k h (two_pow-pos (ref_count_field c).len)
          (sym (encode_zero c)))
  Exchange-Counted (shares {word} {live} h) k =
      filled-Counted word live 1 (pack_refs c 1 0) k h (one_fits v) (one_ref v)
  Exchange-Counted (clears {word} {new} {live} {dropping} gen fits h e) k =
      clears-Counted gen word new live dropping k fits h e

  Reachable-Counted : {s : Watched} → Reachable c s → Counted c s
  Reachable-Counted starts = record {
    life = record { state = State.removing; refs = 0; gen = 0 };
    is_life = record {
      refs_fit = two_pow-pos (ref_count_field c).len;
      gen_fits = two_pow-pos (gen_field c).len;
    };
    word_eq = sym (encode_removing c);
    count = refl;
  }
  Reachable-Counted (steps r e) = Exchange-Counted e (Reachable-Counted r)

  -- Whatever the threads do to a slot, in any order of their exchanges, its word counts exactly the
  -- guards that are alive, and has a valid state, if the second exchange of `release2`, on a word
  -- that is no longer the one of its guard, is made for the drop of an `InitGuard` only, and finds
  -- no reference, as its debug assertion demands.
  pub refs_counted :
      {s : Watched}
      → Reachable c s
      → (refs_from_packed c s.word ≡ s.live)
        × ((state : State) × (state_from_packed c s.word ≡ some state))
  refs_counted r =
      let k = Reachable-Counted r in
      (
        ap (refs_from_packed c) k.word_eq ∙ refs_from_packed-encode v k.is_life ∙ k.count,
        (k.life.state, ap (state_from_packed c) k.word_eq ∙ state_from_packed-encode v k.is_life),
      )
