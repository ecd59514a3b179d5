-- ===== src/Slot/Spec.antt =====
-- The loop bodies of src/page/slot.rs on an encoded word: what they do to the state, the references
-- and the generation that it stands for.
use sharded_slab.Base.{
  ℕ, ◌+◌, ◌-◌, ◌^◌, ◌≤◌, ◌<◌, ◌≡◌, subst, Bool, true, ◌&&◌, Option, none, some, ltb, ◌==◌,
  if◌then◌else◌, arith,
}
use sharded_slab.Word.Fields.{two_pow-pos}
use sharded_slab.Word.Powers.{two_pow_mono}
use sharded_slab.Config.{Config, ref_count_field, gen_field, max_refs}
use sharded_slab.Config.Valid.{IsConfig, lifecycle_Fits}
use sharded_slab.Lifecycle.{State, as_usize, state_eq, pack_gen, incr}
use sharded_slab.Lifecycle.Encode.{
  Life, IsLife, encode, state_from_packed-encode, refs_from_packed-encode, gen_from_packed-encode,
  pack_state-encode, pack_refs-encode, pack_gen-encode, max_refs_lem, decr_lem, encode_removing,
}
use sharded_slab.Slot.Memory.{Attempt, finish, exchange}
use sharded_slab.Slot.Attempts.{get_attempt, mark_attempt, release_attempt, removing_attempt}

-- May a slot with this lifecycle be accessed at the generation `gen`?
abbrev pub accessible : Config → ℕ → Life → Bool
accessible c gen l = gen == l.gen && (state_eq l.state State.present && ltb l.refs (max_refs c))

abbrev pub with_ref : Life → Life
with_ref l = record l { refs = l.refs + 1 }

-- Is the guard that is dropped the last one of a slot marked for removal?
abbrev pub last_marked : Life → Bool
last_marked l = l.refs == 1 && state_eq l.state State.marked

abbrev pub without_ref : Life → Life
without_ref l =
    if last_marked l
    then record { state = State.removing; refs = 0; gen = l.gen }
    else record l { refs = l.refs - 1 }

-- Packing over `State::Removing as usize` leaves no reference.
module _ {c : Config} (v : IsConfig c) where
  abbrev removed : ℕ → Life
  removed g = record { state = State.removing; refs = 0; gen = g }

  removed-IsLife : (g : ℕ) → g < 2 ^ (gen_field c).len → IsLife c (removed g)
  removed-IsLife g h = record { refs_fit = two_pow-pos (ref_count_field c).len; gen_fits = h }

  pub pack_gen-removing :
      (g : ℕ)
      → g < 2 ^ (gen_field c).len
      → pack_gen c g (as_usize State.removing) ≡ encode c (removed g)
  pack_gen-removing g h =
      subst (λ t. pack_gen c g t ≡ encode c (removed g)) blank
        (pack_gen-encode v (removed-IsLife 0 (two_pow-pos (gen_field c).len)) g h)
    where
      blank : encode c (removed 0) ≡ as_usize State.removing
      blank = encode_removing c

  refs-lt_word : {l : Life} → IsLife c l → l.refs < 2 ^ c.width
  refs-lt_word i = omega (
    arith,
    i.refs_fit,
    two_pow_mono {a = (ref_count_field c).len} {b = c.width}
        (omega (arith, (lifecycle_Fits v).all_inside)),
  )

module _ {c : Config} (v : IsConfig c) {l : Life} (i : IsLife c l) where
  pub with_ref-IsLife : l.refs < max_refs c → IsLife c (with_ref l)
  with_ref-IsLife h = record { refs_fit = omega (arith, max_refs_lem v); gen_fits = i.gen_fits }

  -- `get` takes a reference exactly where the slot is accessible.
  pub get_attempt-encode :
      (gen : ℕ)
      → get_attempt c gen (encode c l)
        ≡ (if accessible c gen l then exchange (encode c (with_ref l)) (some tt) else finish none)
  unfolding get_attempt incr
  get_attempt-encode gen = ground (
    arith,
    state_from_packed-encode v i,
    gen_from_packed-encode v i,
    refs_from_packed-encode v i,
    pack_refs-encode v i (l.refs + 1),
    max_refs_lem v,
  )

  -- What the loop of `mark_release` does at its generation: mark, or leave with the word.
  abbrev pub marking : Attempt (Option ℕ)
  marking = elim l.state [
    | State.present ↦ exchange (encode c (record l { state = State.marked })) (some (encode c l))
    | State.marked ↦ finish (some (encode c l))
    | State.removing ↦ finish none
  ]

  pub mark_attempt-encode :
      (gen : ℕ) → mark_attempt c gen (encode c l) ≡ (if gen == l.gen then marking else finish none)
  unfolding mark_attempt
  mark_attempt-encode gen = ground (
    arith,
    state_from_packed-encode v i,
    gen_from_packed-encode v i,
    pack_state-encode v i State.marked,
  )

  pub removing_attempt-encode :
      (gen : ℕ)
      → gen < 2 ^ (gen_field c).len
      → removing_attempt c gen (encode c l)
        ≡ exchange (encode c (record { state = State.removing; refs = 0; gen = gen })) true
  unfolding removing_attempt
  removing_attempt-encode gen h =
      ground (arith, state_from_packed-encode v i, pack_gen-removing v gen h)

  pub release_attempt-encode :
      1 ≤ l.refs
      → release_attempt c (encode c l) ≡ exchange (encode c (without_ref l)) (last_marked l)
  unfolding release_attempt
  release_attempt-encode some_ref = ground (
    arith,
    state_from_packed-encode v i,
    gen_from_packed-encode v i,
    refs_from_packed-encode v i,
    pack_gen-removing v l.gen i.gen_fits,
    decr_lem v l.refs some_ref (refs-lt_word v i),
    pack_refs-encode v i (l.refs - 1),
    i.refs_fit,
  )
