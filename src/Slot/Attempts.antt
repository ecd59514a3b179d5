-- ===== src/Slot/Attempts.antt =====
-- The loop bodies of src/page/slot.rs, on the lifecycle word that the round has seen.
use sharded_slab.Base.{
  ℕ, Bool, true, false, not, ◌&&◌, ◌||◌, Option, none, some, ◌==◌, if◌then◌else◌,
}
use sharded_slab.Config.{Config}
use sharded_slab.Lifecycle.{
  State, as_usize, state_eq, state_from_packed, pack_state, refs_from_packed, pack_refs,
  gen_from_packed, pack_gen, incr, decr,
}
use sharded_slab.Slot.Memory.{Attempt, finish, exchange, unreachable}

-- A `Guard` is a pointer to the slot.
abbrev pub Guard : Type 0
Guard = Unit

-- The body of `Slot::get`.
unfoldable pub get_attempt : Config → ℕ → ℕ → Attempt (Option Guard)
get_attempt c gen lifecycle = elim (state_from_packed c lifecycle) [
  | none ↦ unreachable
  | some state ↦
      if not (gen == gen_from_packed c lifecycle) || not (state_eq state State.present)
      then finish none
      else elim (incr c (refs_from_packed c lifecycle)) [
        | none ↦ finish none
        | some new_refs ↦ exchange (pack_refs c new_refs lifecycle) (some tt)
      ]
]

-- The body of the loop in `Slot::mark_release`. `some` is a break, with the word last seen.
unfoldable pub mark_attempt : Config → ℕ → ℕ → Attempt (Option ℕ)
mark_attempt c gen lifecycle =
    if not (gen == gen_from_packed c lifecycle)
    then finish none
    else elim (state_from_packed c lifecycle) [
      | none ↦ unreachable
      | some state ↦ elim state [
        | State.removing ↦ finish none
        | State.marked ↦ finish (some lifecycle)
        | State.present ↦ exchange (pack_state c State.marked lifecycle) (some lifecycle)
      ]
    ]

-- The body of `Slot::release`; the result is `dropping`.
unfoldable pub release_attempt : Config → ℕ → Attempt Bool
release_attempt c lifecycle = elim (state_from_packed c lifecycle) [
  | none ↦ unreachable
  | some state ↦
      let refs = refs_from_packed c lifecycle in
      let gen = gen_from_packed c lifecycle in
      if refs == 1 && state_eq state State.marked
      then exchange (pack_gen c gen (as_usize State.removing)) true
      else exchange (pack_refs c (decr c refs) lifecycle) false
]

-- The body of the loop in `InitGuard::release2`, for a guard of the generation `gen`.
unfoldable pub removing_attempt : Config → ℕ → ℕ → Attempt Bool
removing_attempt c gen lifecycle = elim (state_from_packed c lifecycle) [
  | none ↦ unreachable
  | some state ↦ exchange (pack_gen c gen (as_usize State.removing)) true
]
