-- ===== src/Slab/History/Dropping.antt =====
-- The drop of an entry among other calls (src/lib.rs).
use sharded_slab.Base.{
  ℕ, ◌-◌, ◌≡◌, ◌≢◌, ◌⊎◌, inl, inr, refl, sym, ap, ◌∙◌, subst, true, false, ◌==◌, Bool-cases, List,
  [], ◌∷◌, Option, none, some, length, arith,
}
use mathlib.Core.Option.{some-injective}
use sharded_slab.Config.{Config}
use sharded_slab.Config.Valid.{IsConfig}
use sharded_slab.Key.{unpack_tid, unpack_addr, unpack_gen}
use sharded_slab.Lifecycle.{State}
use sharded_slab.Lifecycle.Encode.{Life, IsLife, encode}
use sharded_slab.Page.Held.{in_use}
use sharded_slab.Slot.Memory.{Slot, Outcome, returns, store, ◌>>=◌}
use sharded_slab.Slot.Ops.{release, clear_storage}
use sharded_slab.Slot.Spec.{last_marked, without_ref}
use sharded_slab.Slot.Story.{option_clear}
use sharded_slab.Slot.Clearing.{cleared, clear_storage-quiet}
use sharded_slab.Slot.Quiet.{quiet, emptied, release-quiet}
use sharded_slab.Stack.{set_next}
use sharded_slab.Shard.Array.{on_shard}
use sharded_slab.Shard.Guards.{
  on_guarded, drop_guard, drop_owned_guard, drop_owned_guard-drop_guard,
}
use sharded_slab.Shard.Refused.{Absent}
use sharded_slab.Shard.Threads.{either_thread}
use sharded_slab.Shard.Located.{offset, put, put-Located, with_shard_slot_located}
use sharded_slab.Slab.{Slab, Entry, OwnedEntry, drop_entry, drop_owned_entry}
use sharded_slab.Slab.Valid.{SlotOk, IsValid}
use sharded_slab.Slab.Valid.Changed.{put-IsValid}
use sharded_slab.Slab.Valid.Nowhere.{missing-Ready}
use sharded_slab.Slab.Valid.Spot.{Spot, Spot-cases}
use sharded_slab.Slab.Valid.Moves.{Ends, with_slot-Ends, freed-Ends, Spot-of}
use sharded_slab.Slab.History.{Live, live_at, with_live}
use sharded_slab.Slab.History.Slots.{
  Active, SlotValid, each_valid, Ready-no_entries, set_next-SlotValid, with_live-same, keep_others,
}
use sharded_slab.Slab.History.Places.{slot_of-Located, slot_valid}
use sharded_slab.Slab.History.Removing.{emptied-SlotValid}
use sharded_slab.Slab.History.Clearing.{cleared_after, not_last, last-refs}

module _ {T : Type 0} {c : Config} (v : IsConfig c) {live : Live T} {slab : Slab T}
    (valid : IsValid c (each_valid c live) slab) (me key : ℕ) (value : T) (rest : List (T × ℕ))
    (held : live_at c key live ≡ (value, unpack_gen c key) ∷ rest) where
  abbrev Dropped : Outcome (Unit {0} × Slab T) → Type 0
  Dropped o = Ends c (each_valid c (with_live c key rest live)) tt o

  -- The places of other keys are as they should be.
  abbrev elsewhere : ℕ → SlotOk T
  elsewhere t a s = (t ≢ unpack_tid c key) ⊎ (a ≢ unpack_addr c key) → each_valid c live t a s

  module _ (spot : Spot c (each_valid c live) key slab)
      (h : SlotValid c ((value, unpack_gen c key) ∷ rest) spot.at.slot) where
    abbrev released : Slot (Option T)
    released = store (encode c (without_ref h.life)) spot.at.slot

    pub release_now : release c (quiet spot.at.slot) ≡ returns (last_marked h.life, quiet released)
    release_now = release-quiet v spot.at.slot h.life h.is_life h.word (omega (arith, h.counted))

    busy : in_use spot.at.slot.item ≡ 1
    busy = ap in_use h.refer.0.0

    released-SlotValid : last_marked h.life ≡ false → SlotValid c rest released
    released-SlotValid last = record {
      life = record (h.life) { refs = h.life.refs - 1 };
      is_life = record {
        refs_fit = omega (arith, h.is_life.refs_fit);
        gen_fits = h.is_life.gen_fits;
      };
      word = ap (encode c) (rw last refl);
      counted = omega (arith, h.counted);
      refer = h.refer.1;
      active = subst (Active (record (h.life) { refs = h.life.refs - 1 })) (sym h.refer.0.0) (
          not_last h.life value (length rest) h.counted last
            (subst (Active h.life) h.refer.0.0 h.active));
    }

    pub kept-Dropped :
        last_marked h.life ≡ false
        → Dropped (drop_guard c option_clear me (release c) (unpack_tid c key) key [] [] slab)
    unfolding drop_guard on_guarded
    kept-Dropped last =
        let e =
          with_slot-Ends (each_valid c live) (each_valid c (with_live c key rest live)) valid spot
            (keep_others c key rest live) busy released
            (λ w. do (a, w') ← release c w; returns (some a, w')) none (some false) busy
            (subst (λ l. SlotValid c l released) (sym (with_live-same c key rest live))
              (released-SlotValid last))
            (rw release_now (ap (λ b. returns (some b, quiet released)) last)) in
        record {
          slab = e.slab;
          returned = rw (drop_guard, on_guarded, e.returned) refl;
          valid = e.valid;
        }

    module _ (last : last_marked h.life ≡ true) where
      abbrev last_life : Life
      last_life = record { state = State.removing; refs = 0; gen = h.life.gen }

      -- Between the release and the clearing only the slot itself is out of order.
      between : IsValid c elsewhere (put spot.at released)
      between =
          put-IsValid (each_valid c live) elsewhere valid spot (λ t a s other k q. k) busy released
            busy (λ other. elim other [ inl q ↦ absurd (q refl) | inr q ↦ absurd (q refl) ])

      let_go :
          on_guarded c (release c) (unpack_tid c key) key [] slab
          ≡ returns (some true, put spot.at released)
      unfolding on_guarded
      let_go =
          with_shard_slot_located spot.at (λ w. do (a, w') ← release c w; returns (some a, w')) []
            none (some true) (quiet released)
            (rw release_now (ap (λ b. returns (some b, quiet released)) last))

      spot_again : Spot c elsewhere key (put spot.at released)
      spot_again = Spot-of v between key (put-Located spot.at released)

      same_slot : spot_again.at.slot ≡ released
      same_slot =
          some-injective _ _
            (sym (slot_of-Located spot_again.at) ∙ slot_of-Located (put-Located spot.at released))

      same_word : spot_again.at.slot.lifecycle ≡ encode c last_life
      same_word = ap (λ s. s.lifecycle) same_slot ∙ ap (encode c) (rw last refl)

      none_left : length rest ≡ 0
      none_left = omega (arith, last-refs h.life value last, h.counted)

      last-IsLife : IsLife c last_life
      last-IsLife = record {
        refs_fit = omega (arith, h.is_life.refs_fit);
        gen_fits = h.is_life.gen_fits;
      }

      clearing : Ends c (each_valid c (with_live c key rest live)) true (
          on_shard false
            (either_thread c key false
              (λ F fl gen o free w. clear_storage c fl option_clear gen o free w)
              (me == spot_again.at.shard.tid))
            (unpack_tid c key)
            (put spot.at released))
      clearing =
          freed-Ends elsewhere (each_valid c (with_live c key rest live)) between spot_again
            (λ t a s other k. keep_others c key rest live t a s other (k other))
            (ap (λ s. in_use s.item) same_slot ∙ busy)
            (cleared c option_clear spot_again.at.slot last_life) false true
            (λ F fl gen o free w. clear_storage c fl option_clear gen o free w) refl
            (λ next.
              subst
                (λ l.
                  SlotValid c l
                    (set_next next (cleared c option_clear spot_again.at.slot last_life)))
                (sym (with_live-same c key rest live))
                (set_next-SlotValid rest next (emptied c spot_again.at.slot last_life) (
                  emptied-SlotValid v rest spot_again.at.slot last_life last-IsLife refl
                    none_left)))
            (λ F fl free. rw (sym h.refer.0.1) (
              clear_storage-quiet v fl option_clear (offset spot_again.at) free spot_again.at.slot
                last_life last-IsLife same_word refl))
            (me == spot_again.at.shard.tid)

      pub cleared-Dropped :
          Dropped (drop_guard c option_clear me (release c) (unpack_tid c key) key [] [] slab)
      unfolding drop_guard
      cleared-Dropped = record {
        slab = clearing.slab;
        returned =
            rw (drop_guard, let_go)
              (cleared_after me spot_again.at clearing.slab clearing.returned);
        valid = clearing.valid;
      }

  -- The slot that the entry refers to has it on its account.
  held_slot :
      (s : Slot (Option T))
      → SlotValid c (live_at c key live) s
      → SlotValid c ((value, unpack_gen c key) ∷ rest) s
  held_slot s = subst (λ l. SlotValid c l s) held

module _ {T : Type 0} {c : Config} (v : IsConfig c) {live : Live T} {slab : Slab T}
    (valid : IsValid c (each_valid c live) slab) (me : ℕ) (entry : Entry T) (rest : List (T × ℕ))
    (held : live_at c entry.key live ≡ (entry.value, unpack_gen c entry.key) ∷ rest) where
  -- An entry that is alive finds its slot.
  finds_slot : Absent c (unpack_tid c entry.key) entry.key slab → ⊥
  finds_slot absent =
      let e =
        sym held
        ∙ Ready-no_entries live (unpack_tid c entry.key) (unpack_addr c entry.key)
            (missing-Ready v valid entry.key absent) in
      cc

  pub drop-Ends :
      Ends c (each_valid c (with_live c entry.key rest live)) tt (drop_entry c me entry [] [] slab)
  unfolding drop_entry
  drop-Ends = elim (Spot-cases v valid entry.key) [
    | inl absent ↦ absurd (finds_slot absent)
    | inr spot ↦
        let h =
          held_slot v valid me entry.key entry.value rest held spot.at.slot (slot_valid spot) in
        elim (Bool-cases (last_marked h.life)) [
          | inl last ↦ cleared-Dropped v valid me entry.key entry.value rest held spot h last
          | inr more ↦ kept-Dropped v valid me entry.key entry.value rest held spot h more
        ]
  ]

  -- An owned entry is dropped like another one.
  drop_owned-same :
      Spot c (each_valid c live) entry.key slab
      → (owned : OwnedEntry T) → owned.key ≡ entry.key
      → drop_owned_entry c me owned [] [] slab ≡ drop_entry c me entry [] [] slab
  unfolding drop_owned_entry drop_entry
  drop_owned-same spot owned same =
      let h = held_slot v valid me entry.key entry.value rest held spot.at.slot (slot_valid spot) in
      ap (λ (k : ℕ). drop_owned_guard c option_clear me (release c) k [] [] slab) same
      ∙ drop_owned_guard-drop_guard spot.at option_clear me (release c) _ (last_marked h.life)
          (release_now v valid me entry.key entry.value rest held spot h)

  pub drop_owned-Ends :
      (owned : OwnedEntry T)
      → owned.key ≡ entry.key
      → Ends c
          (each_valid c (with_live c entry.key rest live))
          tt
          (drop_owned_entry c me owned [] [] slab)
  drop_owned-Ends owned same = elim (Spot-cases v valid entry.key) [
    | inl absent ↦ absurd (finds_slot absent)
    | inr spot ↦ record {
      slab = drop-Ends.slab;
      returned = drop_owned-same spot owned same ∙ drop-Ends.returned;
      valid = drop-Ends.valid;
    }
  ]
