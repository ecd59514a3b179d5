-- ===== src/Tid.antt =====
-- src/tid.rs: the ids of the threads, and the registry that gives them out and takes them back. An
-- id is its number.
pub mod System
pub mod Ids
pub mod Unique
use sharded_slab.Base.{
  ℕ, ◌+◌, ◌-◌, ◌%◌, ◌^◌, Bool, true, false, not, ◌&&◌, List, [], ◌∷◌, ◌++◌, Option, none, some, ltb,
  if◌then◌else◌, length,
}
use sharded_slab.Pack.{bits}
use sharded_slab.Config.{Config, tid_field}

-- `Registry`; `poisoned` is the state of the mutex around `free`.
pub record Registry : Type 0 where
  pub next : ℕ
  pub free : List ℕ
  pub poisoned : Bool

abbrev pub new_registry : Registry
new_registry = record { next = 0; free = []; poisoned = false }

-- `Registration`, of one thread.
abbrev pub Registration : Type 0
Registration = Option ℕ

-- `VecDeque::pop_front`
abbrev pub pop_front : List ℕ → Option (ℕ × List ℕ)
pop_front [] = none
pop_front (x ∷ xs) = some (x, xs)

-- A new id; `none` is the panic where it has too many bits. A thread that is unwinding already does
-- not panic again, and keeps the id.
unfoldable pub next_id : Config → Bool → Registry → Option ℕ × Registry
next_id c panicking reg =
    let id = reg.next in
    let reg' = record reg { next = (id + 1) % 2 ^ c.width } in
    (if ltb (bits (tid_field c)) id && not panicking then none else some id, reg')

-- `Registration::register`, without the store to the thread's own cell.
unfoldable pub register : Config → Bool → Registry → Option ℕ × Registry
register c panicking reg =
    let fresh = next_id c panicking reg in
    if not reg.poisoned && ltb 1 (length reg.free)
    then elim (pop_front reg.free) [
      | none ↦ fresh
      | some front ↦ (some front.0, record reg { free = front.1 })
    ]
    else fresh

-- `Registration::current`; `panicking` tells whether the thread is unwinding.
unfoldable pub current :
    Config → Bool → Registration → Registry → Option ℕ × Registration × Registry
current c panicking registration reg = elim registration [
  | some id ↦ (some id, some id, reg)
  | none ↦ let (id, reg') = register c panicking reg in (id, id, reg')
]

-- The `Drop` of a `Registration`.
unfoldable pub drop_registration : Registration → Registry → Registry
drop_registration registration reg = elim registration [
  | none ↦ reg
  | some id ↦ record reg { free = reg.free ++ (id ∷ []) }
]
