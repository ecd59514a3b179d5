-- ===== src/Slot/Memory.antt =====
-- A slot in memory that other threads change too, and the loop of compare-exchanges that the
-- operations of src/page/slot.rs share.
use sharded_slab.Base.{ℕ, List, [], ◌∷◌, ◌==◌, if◌then◌else◌}

pub record Slot (T : Type 0) : Type 0 where
  pub lifecycle : ℕ
  -- the next free slot of the page
  pub next : ℕ
  pub item : T

-- How a call ends: it returns, panics, or does not leave its loop.
pub data Outcome (A : Type 0) : Type 0 where
  returns : A → Outcome A
  panics : Outcome A
  spins : Outcome A

-- The slot as one thread sees it. `others` lists what the other threads do to it before each of
-- the thread's next atomic accesses; when it is used up they leave the slot alone.
pub record World (T : Type 0) : Type 0 where
  pub slot : Slot T
  pub others : List (Slot T → Slot T)

infixl 5 ◌>>=◌
abbrev pub ◌>>=◌ : {A B : Type 0} → Outcome A → (A → Outcome B) → Outcome B
returns a >>= f = f a
panics >>= f = panics
spins >>= f = spins

-- One round of a loop `loop { …; match lifecycle.compare_exchange(seen, new) { … } }`: what the
-- body makes of the word that it has seen.
pub data Attempt (A : Type 0) : Type 0 where
  -- a return or a break
  finish : A → Attempt A
  -- store the word if the slot still has the one seen, and then return
  exchange : ℕ → A → Attempt A
  -- `unreachable!`
  unreachable : Attempt A

module _ {T : Type 0} where
  -- What the others do before an access.
  unfoldable pub after_others : List (Slot T → Slot T) → Slot T → World T
  after_others [] s = record { slot = s; others = [] }
  after_others (f ∷ fs) s = record { slot = f s; others = fs }

  unfoldable pub load : World T → World T
  load w = after_others w.others w.slot

  abbrev pub store : ℕ → Slot T → Slot T
  store word s = record s { lifecycle = word }

  -- The loop, from a slot whose word has just been read. A failed exchange reads it again.
  unfoldable pub cas_loop :
      {A : Type 0} → (ℕ → Attempt A) → List (Slot T → Slot T) → Slot T → Outcome (A × World T)
  cas_loop body [] s = elim (body s.lifecycle) [
    | finish a ↦ returns (a, record { slot = s; others = [] })
    | exchange new a ↦ returns (a, record { slot = store new s; others = [] })
    | unreachable ↦ panics
  ]
  cas_loop body (f ∷ fs) s =
      let retry = cas_loop body fs (f s) in
      elim (body s.lifecycle) [
        | finish a ↦ returns (a, record { slot = s; others = f ∷ fs })
        | exchange new a ↦
            if (f s).lifecycle == s.lifecycle
            then returns (a, record { slot = store new (f s); others = fs })
            else retry
        | unreachable ↦ panics
      ]

  -- The loop with the load before it.
  unfoldable pub run : {A : Type 0} → (ℕ → Attempt A) → World T → Outcome (A × World T)
  run body w = let w' = load w in cas_loop body w'.others w'.slot
