-- ===== src/Lifecycle.antt =====
-- The lifecycle word of a slot (src/page/slot.rs): `State`, `Lifecycle`, `RefCount`, `Generation`
-- and `LifecycleGen`, with their impls of `Pack`. A `Generation` or a `RefCount` is its number.
pub mod Encode
use Prim.Native.Nat.{bit_and}
use sharded_slab.Base.{
  ℕ, ◌+◌, ◌-◌, ◌%◌, ◌^◌, Bool, true, false, Option, none, some, leb, ◌==◌, if◌then◌else◌,
}
use sharded_slab.Pack.{bits, mask, pack, from_packed}
use sharded_slab.Config.{
  Config, gen_field, lifecycle_field, ref_count_field, lifecycle_gen_field, max_refs,
}

pub data State : Type 0 where
  present marked removing : State

-- `State::Present as usize` and so on.
abbrev pub as_usize : State → ℕ
as_usize State.present = 0b00
as_usize State.marked = 0b01
as_usize State.removing = 0b11

abbrev pub state_eq : State → State → Bool
state_eq State.present State.present = true
state_eq State.marked State.marked = true
state_eq State.removing State.removing = true
state_eq _ _ = false

-- `Lifecycle::from_usize`; `none` is the panic "weird lifecycle".
unfoldable pub state_from_usize : Config → ℕ → Option State
unfolding mask
state_from_usize c u =
    let masked = bit_and u (mask c.width lifecycle_field) in
    if masked == 0b00
    then some State.present
    else if masked == 0b01
    then some State.marked
    else if masked == 0b11
    then some State.removing
    else none

unfoldable pub state_from_packed : Config → ℕ → Option State
unfolding state_from_usize from_packed
state_from_packed c from = state_from_usize c (from_packed c.width lifecycle_field from)

unfoldable pub pack_state : Config → State → ℕ → ℕ
unfolding pack
pack_state c state to = pack c.width lifecycle_field (as_usize state) to

unfoldable pub refs_from_packed : Config → ℕ → ℕ
unfolding ref_count_field from_packed
refs_from_packed c from = from_packed c.width (ref_count_field c) from

unfoldable pub pack_refs : Config → ℕ → ℕ → ℕ
unfolding ref_count_field pack
pack_refs c refs to = pack c.width (ref_count_field c) refs to

unfoldable pub gen_from_packed : Config → ℕ → ℕ
unfolding lifecycle_gen_field from_packed
gen_from_packed c from = from_packed c.width (lifecycle_gen_field c) from

unfoldable pub pack_gen : Config → ℕ → ℕ → ℕ
unfolding lifecycle_gen_field pack
pack_gen c gen to = pack c.width (lifecycle_gen_field c) gen to

-- `Generation::advance`
unfoldable pub advance : Config → ℕ → ℕ
unfolding gen_field bits
advance c gen = (gen + 1) % bits (gen_field c)

-- `RefCount::incr`
unfoldable pub incr : Config → ℕ → Option ℕ
unfolding max_refs
incr c refs = if leb (max_refs c) refs then none else some (refs + 1)

-- `RefCount::decr`; the subtraction wraps.
unfoldable pub decr : Config → ℕ → ℕ
decr c refs = (refs + 2 ^ c.width - 1) % 2 ^ c.width
