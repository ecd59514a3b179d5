-- ===== src/Slab/History/Guards.antt =====
-- The entries of a slab and its calls (src/lib.rs) after any calls of any threads.
use sharded_slab.Base.{
  ℕ, ◌<◌, ◌≡◌, ◌≢◌, ◌⊎◌, inl, inr, sym, ap, ◌∙◌, subst, false, List, [], ◌∷◌, Option, none, some,
  All, length, arith,
}
use sharded_slab.Config.{Config, max_shards}
use sharded_slab.Config.Valid.{IsConfig}
use sharded_slab.Key.{unpack_tid, unpack_addr, unpack_gen}
use sharded_slab.Lifecycle.{gen_from_packed, refs_from_packed}
use sharded_slab.Lifecycle.Encode.{Life, gen_from_packed-encode, refs_from_packed-encode}
use sharded_slab.Slot.Memory.{Slot, Outcome, returns, spins}
use sharded_slab.Page.Chain.{get_elem?-inside}
use sharded_slab.Slab.{
  Slab, Entry, OwnedEntry, slab_insert, slab_get, slab_get_owned, contains, slab_remove, slab_take,
  drop_entry, drop_owned_entry,
}
use sharded_slab.Slab.Valid.Moves.{Ends}
use sharded_slab.Slab.Valid.Nowhere.{missing-Ready}
use sharded_slab.Slab.Valid.Spot.{Spot-cases}
use sharded_slab.Slab.History.{Live, Reachable, slot_of, coming, live_at}
use sharded_slab.Slab.History.Slots.{Refers, SlotValid, Ready-no_entries}
use sharded_slab.Slab.History.Places.{slot_of-Located, slot_of-Absent, slot_valid}
use sharded_slab.Slab.History.Getting.{get-Ends, get_owned-Ends}
use sharded_slab.Slab.History.Removing.{take-Ends, remove-Ends}
use sharded_slab.Slab.History.Dropping.{drop-Ends, drop_owned-Ends}
use sharded_slab.Slab.History.Looking.{contains-Ends}
use sharded_slab.Slab.History.Inserting.{insert-Ends}
use sharded_slab.Slab.History.Safe.{history-IsValid}

-- The slot of a key keeps what the entries refer to: it counts them, and it has the value and the
-- generation of each. Where there is no slot there are no entries.
abbrev pub Guarded : {T : Type 0} → Config → List (T × ℕ) → Option (Slot (Option T)) → Type 0
Guarded c entries none = entries ≡ []
Guarded c entries (some s) =
    (refs_from_packed c s.lifecycle ≡ length entries)
    × All (λ entry. (s.item ≡ some entry.0) × (gen_from_packed c s.lifecycle ≡ entry.1)) entries

module _ {T : Type 0} {c : Config} (v : IsConfig c) where
  all_refer :
      (s : Slot (Option T)) (l : Life)
      → gen_from_packed c s.lifecycle ≡ l.gen
      → (entries : List (T × ℕ)) → All (Refers l s.item) entries
      → All (λ entry. (s.item ≡ some entry.0) × (gen_from_packed c s.lifecycle ≡ entry.1)) entries
  all_refer s l e [] h = tt
  all_refer s l e (entry ∷ entries) (h, hs) = ((h.0, e ∙ h.1), all_refer s l e entries hs)

  SlotValid-Guarded :
      (entries : List (T × ℕ)) (s : Slot (Option T))
      → SlotValid c entries s
      → Guarded c entries (some s)
  SlotValid-Guarded entries s h = (
    ap (refs_from_packed c) h.word ∙ refs_from_packed-encode v h.is_life ∙ h.counted,
    all_refer s h.life (ap (gen_from_packed c) h.word ∙ gen_from_packed-encode v h.is_life) entries
        h.refer,
  )

  -- After any calls of `insert`, `get`, `get_owned`, `contains`, `remove` and `take` and drops of
  -- live entries by any threads, one after another, where no lookup or removal had a key of the
  -- generation in which a free slot would be handed out next, the slot of every key counts as many
  -- references as there are entries alive with the thread and the address of the key, and still has
  -- the value and the generation that each of them was given: no value is dropped, replaced or
  -- freed while an entry refers to it.
  pub guards_safe :
      {slab : Slab T} {live : Live T}
      → Reachable c slab live
      → (key : ℕ) → Guarded c (live_at c key live) (slot_of c key slab)
  guards_safe {slab} {live} r key =
      let valid = history-IsValid v r in
      elim (Spot-cases v valid key) [
        | inl absent ↦ subst (Guarded c (live_at c key live)) (sym (slot_of-Absent absent)) (
            Ready-no_entries live (unpack_tid c key) (unpack_addr c key)
              (missing-Ready v valid key absent))
        | inr spot ↦
            subst (Guarded c (live_at c key live)) (sym (slot_of-Located spot.at))
              (SlotValid-Guarded (live_at c key live) spot.at.slot (slot_valid spot))
      ]

-- The call returns: it does not panic, and does not wait.
abbrev pub Returns : {A : Type 0} → Outcome A → Type 0
Returns {A} o = (a : A) × (o ≡ returns a)

Ends-Returns :
    {T A : Type 0} {c : Config} (ok : ℕ → _) (answer : A) (o : Outcome (A × Slab T))
    → Ends c ok answer o
    → Returns o
Ends-Returns ok answer o e = ((answer, e.slab), e.returned)

module _ {T : Type 0} {c : Config} (v : IsConfig c) {slab : Slab T} {live : Live T}
    (r : Reachable c slab live) (me : ℕ) where
  -- After any calls of `insert`, `get`, `get_owned`, `contains`, `remove` and `take` and drops of
  -- live entries by any threads, one after another, where no lookup or removal had a key of the
  -- generation in which a free slot would be handed out next, `insert` returns for every thread
  -- whose id is below the number of shards, and, for a key that is not of that generation either,
  -- `get`, `get_owned`, `contains` and `remove` return on every thread, and `take` returns or waits
  -- for entries that are alive: none of them panics.
  pub calls_return :
      (key : ℕ) (value : T)
      → me < max_shards c
      → coming c key slab ≡ false
      → Returns (slab_insert c me value (λ page. []) [] slab)
        × Returns (slab_get c me key [] slab)
        × Returns (slab_get_owned c me key [] slab)
        × Returns (contains c me key [] [] [] slab)
        × Returns (slab_remove c me key [] slab)
        × (Returns (slab_take c me key [] slab)
            ⊎ ((live_at c key live ≢ []) × (slab_take c me key [] slab ≡ spins)))
  calls_return key value in_array later =
      let valid = history-IsValid v r in
      let (ptr, place) = get_elem?-inside slab.shards me (omega (arith, valid.sized, in_array)) in
      (
        Ends-Returns _ _ _ (insert-Ends v valid me value ptr place).1,
        Ends-Returns _ _ _ (get-Ends v valid me key later).1,
        Ends-Returns _ _ _ (get_owned-Ends v valid me key later).1,
        Ends-Returns _ _ _ (contains-Ends v valid me key later).1,
        Ends-Returns _ _ _ (remove-Ends v valid me key later).1,
        elim (take-Ends v valid me key later) [
          | inl (taken, e) ↦ inl (Ends-Returns _ _ _ e)
          | inr waits ↦ inr waits
        ],
      )

  -- After any calls of `insert`, `get`, `get_owned`, `contains`, `remove` and `take` and drops of
  -- live entries by any threads, one after another, where no lookup or removal had a key of the
  -- generation in which a free slot would be handed out next, the drop of an entry that is alive
  -- returns on every thread, whether it was got by `get` or by `get_owned`.
  pub drops_return :
      (entry : Entry T) (owned : OwnedEntry T) (rest : List (T × ℕ))
      → live_at c entry.key live ≡ (entry.value, unpack_gen c entry.key) ∷ rest
      → owned.key ≡ entry.key
      → Returns (drop_entry c me entry [] [] slab)
        × Returns (drop_owned_entry c me owned [] [] slab)
  drops_return entry owned rest held same =
      let valid = history-IsValid v r in
      (
        Ends-Returns _ _ _ (drop-Ends v valid me entry rest held),
        Ends-Returns _ _ _ (drop_owned-Ends v valid me entry rest held owned same),
      )
