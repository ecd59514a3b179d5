-- ===== src/Slot/Exchanges.antt =====
-- The exchanges of src/page/slot.rs on the word of one slot by several threads, in any order.
use sharded_slab.Base.{ℕ, ◌+◌, ◌^◌, ◌<◌, ◌≡◌, Bool, Option, some}
use sharded_slab.Config.{Config, gen_field}
use sharded_slab.Lifecycle.{
  State, as_usize, refs_from_packed, gen_from_packed, pack_gen, pack_state, pack_refs, advance,
}
use sharded_slab.Slot.Memory.{exchange}
use sharded_slab.Slot.Attempts.{get_attempt, mark_attempt, release_attempt, removing_attempt}

-- The word, and how many guards there are.
pub record Watched : Type 0 where
  pub word : ℕ
  pub live : ℕ

-- One exchange that succeeds.
pub data Exchange (c : Config) : Watched → Watched → Type 0 where
  -- in `get`, which returns a guard
  gets :
      {word new live : ℕ} (gen : ℕ)
      → get_attempt c gen word ≡ exchange new (some tt)
      → Exchange c (record { word = word; live = live }) (record { word = new; live = live + 1 })
  -- in `release`, which uses a guard up
  drops :
      {word new live : ℕ} {dropping : Bool}
      → release_attempt c word ≡ exchange new dropping
      → Exchange c (record { word = word; live = live + 1 }) (record { word = new; live = live })
  -- in `mark_release`
  marks :
      {word new live : ℕ} {old : Option ℕ} (gen : ℕ)
      → mark_attempt c gen word ≡ exchange new old
      → Exchange c (record { word = word; live = live }) (record { word = new; live = live })
  -- in `release_with`, at its generation and again while it waits for the guards
  removes :
      {word live : ℕ} (gen : ℕ)
      → Exchange c
          (record { word = word; live = live })
          (record { word = pack_gen c (advance c gen) word; live = live })
  -- in `release2`, on the word in which `init` has seen no reference, for the drop of its guard
  fills :
      {word live : ℕ}
      → refs_from_packed c word ≡ 0
      → Exchange c
          (record { word = word; live = live })
          (record {
            word = pack_gen c (gen_from_packed c word) (pack_state c State.present 0);
            live = live;
          })
  -- the same for `downgrade`, which returns a guard
  shares :
      {word live : ℕ}
      → refs_from_packed c word ≡ 0
      → Exchange c
          (record { word = word; live = live })
          (record {
            word =
                pack_gen c (gen_from_packed c word) (pack_state c State.present (pack_refs c 1 0));
            live = live + 1;
          })
  -- the second one of `release2`, for the drop of a guard of that generation whose word is no longer
  -- the slot's: on a word with no reference, as its debug assertion demands
  clears :
      {word new live : ℕ} {dropping : Bool} (gen : ℕ)
      → gen < 2 ^ (gen_field c).len
      → refs_from_packed c word ≡ 0
      → removing_attempt c gen word ≡ exchange new dropping
      → Exchange c (record { word = word; live = live }) (record { word = new; live = live })

-- What a new slot can become.
pub data Reachable (c : Config) : Watched → Type 0 where
  starts : Reachable c (record { word = as_usize State.removing; live = 0 })
  steps : {s t : Watched} → Reachable c s → Exchange c s t → Reachable c t
