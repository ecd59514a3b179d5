-- ===== src/Slot/Quiet.antt =====
-- The operations of src/page/slot.rs on a slot that no other thread touches meanwhile.
use sharded_slab.Base.{
  ℕ, ◌≤◌, ◌≡◌, refl, sym, ap, ◌∙◌, ◌⊎◌, inl, inr, Bool, true, false, [], Option, none, some,
  if◌then◌else◌, arith,
}
use sharded_slab.Config.{Config}
use sharded_slab.Config.Valid.{IsConfig}
use sharded_slab.Lifecycle.{advance}
use sharded_slab.Lifecycle.Encode.{Life, IsLife, encode, refs_from_packed-encode}
use sharded_slab.Slot.Memory.{
  Slot, World, Outcome, returns, panics, Attempt, finish, exchange, unreachable, load, after_others,
  store, cas_loop, run,
}
use sharded_slab.Slot.Attempts.{get_attempt, mark_attempt, release_attempt}
use sharded_slab.Slot.Ops.{
  FreeList, Mutator, get, release, mark_release, release_with, finish_release, remove_value,
  try_remove_value,
}
use sharded_slab.Slot.Access.{mark_answer, marked_life}
use sharded_slab.Slot.Rounds.{Call, load-quiet, round_done, seen_refs, passes, advanced_word, won}
use sharded_slab.Slot.Removal.{start}
use sharded_slab.Slot.Spec.{
  accessible, with_ref, without_ref, last_marked, get_attempt-encode, mark_attempt-encode,
  release_attempt-encode,
}

abbrev pub quiet : {T : Type 0} → Slot T → World T
quiet s = record { slot = s; others = [] }

run_quiet : {T A : Type 0} → Attempt A → Slot T → Outcome (A × World T)
run_quiet (finish a) s = returns (a, quiet s)
run_quiet (exchange new a) s = returns (a, quiet (store new s))
run_quiet unreachable s = panics

run-quiet :
    {T A : Type 0} (body : ℕ → Attempt A) (s : Slot T)
    → run body (quiet s) ≡ run_quiet (body s.lifecycle) s
unfolding run load after_others cas_loop run_quiet
run-quiet body s = ground arith

module _ {T : Type 0} {c : Config} (v : IsConfig c) (s : Slot T) (l : Life) (i : IsLife c l)
    (word : s.lifecycle ≡ encode c l) where
  pub get-quiet :
      (gen : ℕ)
      → get c gen (quiet s) ≡ (
          if accessible c gen l
          then returns (some tt, quiet (store (encode c (with_ref l)) s))
          else returns (none, quiet s))
  unfolding get run_quiet
  get-quiet gen =
      run-quiet (get_attempt c gen) s
      ∙ ap (λ a. run_quiet a s) (ap (get_attempt c gen) word ∙ get_attempt-encode v i gen)
      ∙ branch (accessible c gen l)
    where
      branch :
          (b : Bool)
          → run_quiet (if b then exchange (encode c (with_ref l)) (some tt) else finish none) s ≡ (
              if b
              then returns (some tt, quiet (store (encode c (with_ref l)) s))
              else returns (none, quiet s))
      branch true = refl
      branch false = refl

  pub release-quiet :
      1 ≤ l.refs
      → release c (quiet s) ≡ returns (last_marked l, quiet (store (encode c (without_ref l)) s))
  unfolding release run_quiet
  release-quiet some_ref =
      run-quiet (release_attempt c) s
      ∙ ap (λ a. run_quiet a s) (ap (release_attempt c) word ∙ release_attempt-encode v i some_ref)

  pub mark_release-quiet :
      (gen : ℕ)
      → mark_release c gen (quiet s)
        ≡ returns (mark_answer gen l, quiet (store (encode c (marked_life gen l)) s))
  unfolding mark_release run_quiet
  mark_release-quiet gen = ground (
    arith,
    run-quiet (mark_attempt c gen) s,
    mark_attempt-encode v i gen,
    refs_from_packed-encode v i,
  )

  pub release_with-quiet :
      {F R : Type 0} (fl : FreeList T F) (mutator : Mutator T R) (offset : ℕ) (free : F)
      → l.refs ≡ 0
      → release_with c fl mutator l.gen offset free (quiet s)
        ≡ returns (
            finish_release c fl mutator l.gen offset free
              (quiet (store (encode c (record l { gen = advance c l.gen })) s)))
  unfolding release_with
  release_with-quiet {F} {R} fl mutator offset free no_refs =
      let x : Call c T F R = record {
        fl = fl;
        mutator = mutator;
        gen = l.gen;
        offset = offset;
        free = free;
        gen_fits = i.gen_fits;
      } in
      let a = start v x s l i word refl in
      rw (load-quiet s) (
        round_done v x 1 false s.lifecycle (quiet s) (passes v x a)
          (ap (λ w. w.slot.lifecycle) (load-quiet s)) (seen_refs v x a ∙ no_refs)
        ∙ ap (λ w. returns (finish_release c fl mutator l.gen offset free (won v x s.lifecycle w)))
            (load-quiet s)
        ∙ ap (λ t. returns (finish_release c fl mutator l.gen offset free (quiet (store t s))))
            (advanced_word v x a))

-- A slot as `remove_value` hands it to the free list: the next generation and no value.
abbrev pub emptied : {T : Type 0} → Config → Slot (Option T) → Life → Slot (Option T)
emptied c s l = record s { lifecycle = encode c (record l { gen = advance c l.gen }); item = none }

-- What `try_remove_value` does at the generation `gen`: nothing at another one; with references
-- left it marks the slot; with none it empties the slot and pushes it.
abbrev pub TryRemoved :
    {T F : Type 0}
    → Config
    → FreeList (Option T) F
    → ℕ
    → ℕ
    → F
    → Slot (Option T)
    → Life
    → Outcome (Bool × F × World (Option T))
    → Type 0
TryRemoved c fl gen offset free s l o =
    ((mark_answer gen l ≡ none) × (o ≡ returns (false, free, quiet s)))
    ⊎ ((mark_answer gen l ≡ some false)
        × (o ≡ returns (true, free, quiet (store (encode c (marked_life gen l)) s))))
    ⊎ ((mark_answer gen l ≡ some true)
        × (o
            ≡ returns (
              true,
              (fl.push offset (emptied c s (marked_life gen l)) free).1,
              quiet (fl.push offset (emptied c s (marked_life gen l)) free).0,
            )))

module _ {T F : Type 0} {c : Config} (v : IsConfig c) (fl : FreeList (Option T) F)
    (s : Slot (Option T)) (l : Life) (i : IsLife c l) (word : s.lifecycle ≡ encode c l) (offset : ℕ)
    (free : F) where
  pub remove_value-quiet :
      l.refs ≡ 0
      → remove_value c fl l.gen offset free (quiet s)
        ≡ returns (
          s.item,
          (fl.push offset (emptied c s l) free).1,
          quiet (fl.push offset (emptied c s l) free).0,
        )
  unfolding remove_value finish_release
  remove_value-quiet no_refs = release_with-quiet v s l i word fl _ offset free no_refs

module _ {c : Config} (l : Life) (i : IsLife c l) where
  pub marked-IsLife : (gen : ℕ) → IsLife c (marked_life gen l)
  marked-IsLife gen = record {
    refs_fit = ground (arith, i.refs_fit);
    gen_fits = ground (arith, i.gen_fits);
  }

  pub removable :
      (gen : ℕ)
      → mark_answer gen l ≡ some true
      → (gen ≡ (marked_life gen l).gen) × ((marked_life gen l).refs ≡ 0)
  removable gen e = ground arith

module _ {T : Type 0} (c : Config) (s : Slot T) (l : Life) (word : s.lifecycle ≡ encode c l) where
  pub untouched : (gen : ℕ) → mark_answer gen l ≡ none → store (encode c (marked_life gen l)) s ≡ s
  untouched gen e =
      let same : marked_life gen l ≡ l = ground arith in
      ap (λ x. store (encode c x) s) same ∙ ap (λ t. store t s) (sym word)

module _ {T F : Type 0} {c : Config} (v : IsConfig c) (fl : FreeList (Option T) F)
    (s : Slot (Option T)) (l : Life) (i : IsLife c l) (word : s.lifecycle ≡ encode c l) (offset : ℕ)
    (free : F) where
  marked_removal :
      (gen : ℕ)
      → mark_answer gen l ≡ some true
      → remove_value c fl gen offset free (quiet (store (encode c (marked_life gen l)) s))
        ≡ returns (
          s.item,
          (fl.push offset (emptied c s (marked_life gen l)) free).1,
          quiet (fl.push offset (emptied c s (marked_life gen l)) free).0,
        )
  marked_removal gen e =
      let (at_gen, no_refs) = removable l i gen e in
      let marked = store (encode c (marked_life gen l)) s in
      ap (λ g. remove_value c fl g offset free (quiet marked)) at_gen
      ∙ remove_value-quiet v fl marked (marked_life gen l) (marked-IsLife l i gen) refl offset free
          no_refs

  -- Where no reference is left the slot is emptied and pushed.
  pub try_remove_value-freed :
      (gen : ℕ)
      → mark_answer gen l ≡ some true
      → try_remove_value c fl gen offset free (quiet s)
        ≡ returns (
          true,
          (fl.push offset (emptied c s (marked_life gen l)) free).1,
          quiet (fl.push offset (emptied c s (marked_life gen l)) free).0,
        )
  unfolding try_remove_value
  try_remove_value-freed gen e =
      rw (mark_release-quiet v s l i word gen, e) (rw (marked_removal gen e) refl)

  -- Where some are left the slot is marked.
  pub try_remove_value-marked :
      (gen : ℕ)
      → mark_answer gen l ≡ some false
      → try_remove_value c fl gen offset free (quiet s)
        ≡ returns (true, free, quiet (store (encode c (marked_life gen l)) s))
  unfolding try_remove_value
  try_remove_value-marked gen e = rw (mark_release-quiet v s l i word gen, e) refl

  try_remove_answer :
      (gen : ℕ) (answer : Option Bool)
      → mark_answer gen l ≡ answer
      → TryRemoved c fl gen offset free s l (try_remove_value c fl gen offset free (quiet s))
  unfolding try_remove_value
  try_remove_answer gen none e = inl (
    e,
    rw (mark_release-quiet v s l i word gen, e)
        (ap (λ t. returns (false, free, quiet t)) (untouched c s l word gen e)),
  )
  try_remove_answer gen (some false) e = inr (inl (e, try_remove_value-marked gen e))
  try_remove_answer gen (some true) e = inr (inr (e, try_remove_value-freed gen e))

  -- `try_remove_value` on every branch.
  pub try_remove_value-TryRemoved :
      (gen : ℕ)
      → TryRemoved c fl gen offset free s l (try_remove_value c fl gen offset free (quiet s))
  try_remove_value-TryRemoved gen = try_remove_answer gen (mark_answer gen l) refl
