-- ===== src/Slot/Access.antt =====
-- `get`, `release` and `mark_release` of src/page/slot.rs while other threads change the slot.
use sharded_slab.Base.{
  ℕ, ◌≤◌, ◌≡◌, ◌≢◌, ap, ◌∙◌, ◌⊎◌, Bool, true, false, not, ◌&&◌, Option, none, some, ◌==◌,
  if◌then◌else◌, All, Moment, arith,
}
use mathlib.Core.Option
use sharded_slab.Config.{Config}
use sharded_slab.Config.Valid.{IsConfig}
use sharded_slab.Lifecycle.{State, state_eq, refs_from_packed}
use sharded_slab.Lifecycle.Encode.{Life, IsLife, encode, refs_from_packed-encode}
use sharded_slab.Slot.Memory.{
  Slot, World, Outcome, returns, finish, exchange, unreachable, store, ◌>>=◌,
}
use sharded_slab.Slot.Attempts.{Guard, get_attempt, mark_attempt, release_attempt}
use sharded_slab.Slot.Ops.{get, release, mark_release}
use sharded_slab.Slot.Spec.{
  accessible, with_ref, without_ref, last_marked, marking, get_attempt-encode, mark_attempt-encode,
  release_attempt-encode,
}
use sharded_slab.Slot.Loop.{Keeps, Acts, run-Linear}

-- The slot's word encodes a lifecycle.
pub record WellFormed {T : Type 0} (c : Config) (s : Slot T) : Type 0 where
  pub life : Life
  pub is_life : IsLife c life
  pub word : s.lifecycle ≡ encode c life

-- So does it, and a reference is counted, such as the guard's own.
pub record Referenced {T : Type 0} (c : Config) (s : Slot T) : Type 0 where
  pub well_formed : WellFormed c s
  pub open well_formed use *
  pub some_ref : 1 ≤ well_formed.life.refs

abbrev pub GetActs : {T : Type 0} → Config → ℕ → Life → Slot T → Option Guard → Slot T → Type 0
GetActs c gen life at result after =
    ((accessible c gen life ≡ true)
      × (result ≡ some tt)
      × (after ≡ store (encode c (with_ref life)) at))
    ⊎ ((accessible c gen life ≡ false) × (result ≡ none) × (after ≡ at))

-- How `get` ends: `at` is the slot as some of the others' changes have left it, the rest of which
-- are still to come.
pub record Got {T : Type 0} (c : Config) (gen : ℕ) (w : World T)
    (o : Outcome (Option Guard × World T)) : Type 0 where
  pub result : Option Guard
  pub final : World T
  pub at : Slot T
  pub returned : o ≡ returns (result, final)
  pub moment : Moment w.others w.slot at final.others
  pub well_formed : WellFormed c at
  pub acts : GetActs c gen well_formed.life at result final.slot

-- How `release` ends, with `at` as above.
pub record Released {T : Type 0} (c : Config) (w : World T) (o : Outcome (Bool × World T))
    : Type 0 where
  pub final : World T
  pub at : Slot T
  pub moment : Moment w.others w.slot at final.others
  pub referenced : Referenced c at
  pub returned : o ≡ returns (last_marked referenced.life, final)
  pub stored : final.slot ≡ store (encode c (without_ref referenced.life)) at

-- What `mark_release` answers at a slot with this life, and the word that it leaves there.
abbrev pub mark_answer : ℕ → Life → Option Bool
mark_answer gen l =
    if gen == l.gen && not (state_eq l.state State.removing) then some (l.refs == 0) else none

abbrev pub marked_life : ℕ → Life → Life
marked_life gen l =
    if gen == l.gen && state_eq l.state State.present then record l { state = State.marked } else l

-- How `mark_release` ends, with `at` as above.
pub record Marked {T : Type 0} (c : Config) (gen : ℕ) (w : World T)
    (o : Outcome (Option Bool × World T)) : Type 0 where
  pub final : World T
  pub at : Slot T
  pub moment : Moment w.others w.slot at final.others
  pub well_formed : WellFormed c at
  pub returned : o ≡ returns (mark_answer gen well_formed.life, final)
  pub stored : final.slot ≡ store (encode c (marked_life gen well_formed.life)) at
  pub others_keep : All (Keeps (WellFormed c)) final.others

module _ {c : Config} (v : IsConfig c) {T : Type 0} where
  module _ (gen : ℕ) where
    at_word :
        (s : Slot T) (p : WellFormed c s)
        → get_attempt c gen s.lifecycle ≡ (
            if accessible c gen p.life
            then exchange (encode c (with_ref p.life)) (some tt)
            else finish none)
    at_word s p = rw p.word (get_attempt-encode v p.is_life gen)

    get_safe : (s : Slot T) → WellFormed c s → get_attempt c gen s.lifecycle ≢ unreachable
    get_safe s p e = ground (arith, at_word s p)

    get_acts :
        (at after : Slot T) (result : Option Guard) (p : WellFormed c at)
        → Acts (get_attempt c gen) at result after
        → GetActs c gen p.life at result after
    get_acts at after result p a = ground (arith, at_word at p)

    -- `get` returns whatever the other threads do to the slot that keeps its word well-formed; it
    -- acts on the slot as it is after some of the others' changes, in their order, with the rest of
    -- them still to come: it takes one reference exactly where the slot is then present, of the
    -- given generation and below the reference limit, and else leaves the slot alone.
    pub get-Got :
        (w : World T)
        → All (Keeps (WellFormed c)) w.others
        → WellFormed c w.slot
        → Got c gen w (get c gen w)
    unfolding get
    get-Got w keep p = record {
      result = result;
      final = final;
      at = at;
      returned = returned;
      moment = moment;
      well_formed = holds;
      acts = get_acts at final.slot result holds acts;
    }
      where
        open (run-Linear (WellFormed c) (get_attempt c gen) get_safe w keep p) use {
          result, final, at, returned, moment, holds, acts,
        }

  release_word :
      (s : Slot T) (p : Referenced c s)
      → release_attempt c s.lifecycle
        ≡ exchange (encode c (without_ref p.life)) (last_marked p.life)
  release_word s p = rw p.word (release_attempt-encode v p.is_life p.some_ref)

  release_safe : (s : Slot T) → Referenced c s → release_attempt c s.lifecycle ≢ unreachable
  release_safe s p e = ground (arith, release_word s p)

  -- `release` returns whatever the other threads do to the slot that keeps its word well-formed,
  -- with a reference in it; it acts on the slot as it is after some of the others' changes, in
  -- their order, with the rest of them still to come: it drops one reference, and answers whether
  -- it was the last one of a slot marked for removal, which is then being removed.
  pub release-Released :
      (w : World T)
      → All (Keeps (Referenced c)) w.others
      → Referenced c w.slot
      → Released c w (release c w)
  unfolding release
  release-Released w keep p = record {
    final = final;
    at = at;
    moment = moment;
    referenced = holds;
    returned = returned ∙ ap (λ r. returns (r, final)) ended.0;
    stored = ended.1;
  }
    where
      open (run-Linear (Referenced c) (release_attempt c) release_safe w keep p) use {
        result, final, at, returned, moment, holds, acts,
      }

      ended :
          (result ≡ last_marked holds.life)
          × (final.slot ≡ store (encode c (without_ref holds.life)) at)
      ended = ground (arith, release_word at holds, acts)

  module _ (gen : ℕ) where
    mark_word :
        (s : Slot T) (p : WellFormed c s)
        → mark_attempt c gen s.lifecycle
          ≡ (if gen == p.life.gen then marking v p.is_life else finish none)
    mark_word s p = rw p.word (mark_attempt-encode v p.is_life gen)

    mark_safe : (s : Slot T) → WellFormed c s → mark_attempt c gen s.lifecycle ≢ unreachable
    mark_safe s p e = ground (arith, mark_word s p)

    mark_ended :
        (at after : Slot T) (left : Option ℕ) (p : WellFormed c at)
        → Acts (mark_attempt c gen) at left after
        → (Option.map (λ lifecycle. refs_from_packed c lifecycle == 0) left
            ≡ mark_answer gen p.life)
          × (after ≡ store (encode c (marked_life gen p.life)) at)
    mark_ended at after left p a =
        ground (arith, mark_word at p, p.word, refs_from_packed-encode v p.is_life)

    -- `mark_release` returns whatever the other threads do to the slot that keeps its word
    -- well-formed; it acts on the slot as it is after some of the others' changes, in their order,
    -- with the rest of them still to come: it marks the slot where that is then present and of the
    -- given generation, and else leaves its word as it is; it answers whether the slot has no
    -- reference, or none where it is of another generation or being removed.
    pub mark_release-Marked :
        (w : World T)
        → All (Keeps (WellFormed c)) w.others
        → WellFormed c w.slot
        → Marked c gen w (mark_release c gen w)
    unfolding mark_release
    mark_release-Marked w keep p = record {
      final = final;
      at = at;
      moment = moment;
      well_formed = holds;
      returned = rw (returned, ◌>>=◌) (ap (λ r. returns (r, final)) ended.0);
      stored = ended.1;
      others_keep = others_keep;
    }
      where
        open (run-Linear (WellFormed c) (mark_attempt c gen) mark_safe w keep p) use {
          result, final, at, returned, moment, holds, acts, others_keep,
        }

        ended :
            (Option.map (λ lifecycle. refs_from_packed c lifecycle == 0) result
              ≡ mark_answer gen holds.life)
            × (final.slot ≡ store (encode c (marked_life gen holds.life)) at)
        ended = mark_ended at final.slot result holds acts
