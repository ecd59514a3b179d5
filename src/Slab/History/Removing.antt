-- ===== src/Slab/History/Removing.antt =====
-- `take` and `remove` among other calls (src/lib.rs).
use native.Mathlib.Decide.{ℕ_discrete}
use sharded_slab.Base.{
  ℕ, ◌≤◌, ◌≡◌, ◌≢◌, ◌⊎◌, inl, inr, refl, sym, ap, ◌∙◌, subst, Bool, true, false, ◌==◌, Bool-cases,
  Option-cases, List, [], ◌∷◌, Option, none, some, length, arith,
}
use sharded_slab.Config.{Config}
use sharded_slab.Config.Valid.{IsConfig}
use sharded_slab.Key.{unpack_tid, unpack_addr, unpack_gen}
use sharded_slab.Lifecycle.{State, advance}
use sharded_slab.Lifecycle.Encode.{Life, IsLife, encode, advance-lt}
use sharded_slab.Page.Held.{in_use}
use sharded_slab.Page.Ops.{take, remove}
use sharded_slab.Slot.Memory.{Slot, spins, store}
use sharded_slab.Slot.Access.{mark_answer, marked_life}
use sharded_slab.Slot.Ops.{remove_value, try_remove_value}
use sharded_slab.Slot.Spinning.{remove_value-spins}
use sharded_slab.Slot.Quiet.{
  emptied, marked-IsLife, remove_value-quiet, try_remove_value-freed, try_remove_value-marked,
}
use sharded_slab.Stack.{set_next}
use sharded_slab.Shard.{take_local, take_remote, remove_local, remove_remote}
use sharded_slab.Shard.Located.{offset}
use sharded_slab.Shard.Spinning.{on_shard-spins}
use sharded_slab.Shard.Refused.{Refuses, absent, stale}
use sharded_slab.Slab.{Slab, slab_take, slab_remove}
use sharded_slab.Slab.Refused.{take_refused, remove_refused}
use sharded_slab.Slab.Valid.{IsValid}
use sharded_slab.Slab.Valid.Spot.{Spot, Spot-cases}
use sharded_slab.Slab.Valid.Moves.{Ends, kept-Ends, freed-Ends}
use sharded_slab.Slab.History.{Live, coming, live_at}
use sharded_slab.Slab.History.Slots.{Active, SlotValid, each_valid, set_next-SlotValid}
use sharded_slab.Slab.History.Places.{slot_valid, not_coming}

-- A slot that has been emptied.
pub emptied-SlotValid :
    {T : Type 0} {c : Config} (v : IsConfig c) (entries : List (T × ℕ)) (s : Slot (Option T))
    (l : Life)
    → IsLife c l
    → l.refs ≡ 0
    → length entries ≡ 0
    → SlotValid c entries (emptied c s l)
emptied-SlotValid {c = c} v [] s l i no_refs none_left = record {
  life = record l { gen = advance c l.gen };
  is_life = record { refs_fit = i.refs_fit; gen_fits = omega (arith, advance-lt v l.gen) };
  word = refl;
  counted = no_refs;
  refer = tt;
  active = no_refs;
}
emptied-SlotValid v (entry ∷ entries) s l i no_refs none_left = absurd (omega (arith, none_left))

module _ {T : Type 0} {c : Config} (v : IsConfig c) {live : Live T} {slab : Slab T}
    (valid : IsValid c (each_valid c live) slab) (me key : ℕ)
    (later : coming c key slab ≡ false) where
  -- The key finds the value of its own generation, or nothing.
  own_slot :
      Refuses c (unpack_tid c key) key slab
      ⊎ ((spot : Spot c (each_valid c live) key slab) × (h : SlotValid c
            (live_at c key live)
            spot.at.slot)
          × (unpack_gen c key ≡ h.life.gen)
          × (value : T) × (spot.at.slot.item ≡ some value))
  own_slot = elim (Spot-cases v valid key) [
    | inl a ↦ inl (absent a)
    | inr spot ↦
        let h = slot_valid spot in
        elim (ℕ_discrete (unpack_gen c key) h.life.gen) [
          | no other ↦ inl (stale spot.at h.life h.is_life h.word other)
          | yes same ↦ elim (Option-cases spot.at.slot.item) [
            | inl gone ↦ absurd (not_coming v spot.at _ h later gone same)
            | inr (value, item) ↦ inr (spot, h, same, value, item)
          ]
        ]
  ]

  module _ (spot : Spot c (each_valid c live) key slab)
      (h : SlotValid c (live_at c key live) spot.at.slot) (l : Life) (i : IsLife c l)
      (no_refs : l.refs ≡ 0) (none_left : length (live_at c key live) ≡ 0) where
    emptied_anywhere :
        (next : ℕ)
        → each_valid c live
            (unpack_tid c key)
            (unpack_addr c key)
            (set_next next (emptied c spot.at.slot l))
    emptied_anywhere next =
        set_next-SlotValid (live_at c key live) next (emptied c spot.at.slot l)
          (emptied-SlotValid v (live_at c key live) spot.at.slot l i no_refs none_left)

  -- `take` returns and leaves a well-formed slab, or waits for the entries.
  pub take-Ends :
      ((taken : Option T) × Ends c (each_valid c live) taken (slab_take c me key [] slab))
      ⊎ ((live_at c key live ≢ []) × (slab_take c me key [] slab ≡ spins))
  unfolding slab_take take_local take_remote take
  take-Ends = elim own_slot [
    | inl refused ↦
        inl (none, record { slab = slab; returned = take_refused v me refused; valid = valid })
    | inr (spot, h, at_gen, value, item) ↦ elim (Bool-cases (h.life.refs == 0)) [
      | inl e ↦
          let no_refs : h.life.refs ≡ 0 = ground (arith, e) in
          inl (
            spot.at.slot.item,
            freed-Ends (each_valid c live) (each_valid c live) valid spot (λ t a s other k. k)
                (ap in_use item) (emptied c spot.at.slot h.life) none spot.at.slot.item
                (λ F fl gen o free w. remove_value c fl gen o free w) refl
                (emptied_anywhere spot h h.life h.is_life no_refs
                  (omega (arith, no_refs, h.counted)))
                (λ F fl free. rw at_gen (
                  remove_value-quiet v fl spot.at.slot h.life h.is_life h.word (offset spot.at) free
                    no_refs))
                (unpack_tid c key == me),
          )
      | inr e ↦ inr (
        (λ q. ground (arith, e, h.counted, ap length q)),
        on_shard-spins spot.at none (λ F fl gen o free w. remove_value c fl gen o free w)
            (λ F fl free. rw at_gen (
              remove_value-spins v fl spot.at.slot h.life h.is_life h.word (ground (arith, e))
                (offset spot.at) free))
            (unpack_tid c key == me),
      )
    ]
  ]

-- A slot with a value that a removal marks: it is not being removed, and is present where nothing
-- refers to it.
module _ {T : Type 0} (l : Life) (value : T) (gen : ℕ) (at_gen : gen ≡ l.gen) where
  busy-marked : Active l (some value) → marked_life gen l ≡ record l { state = State.marked }
  busy-marked (inl present) = ground (arith, at_gen, present)
  busy-marked (inr (marked, referred)) = ground (arith, at_gen, marked)

  busy-answer : Active l (some value) → mark_answer gen l ≡ some (l.refs == 0)
  busy-answer (inl present) = ground (arith, at_gen, present)
  busy-answer (inr (marked, referred)) = ground (arith, at_gen, marked)

module _ {T : Type 0} {c : Config} (v : IsConfig c) {live : Live T} {slab : Slab T}
    (valid : IsValid c (each_valid c live) slab) (me key : ℕ)
    (later : coming c key slab ≡ false) where
  module _ (spot : Spot c (each_valid c live) key slab)
      (h : SlotValid c (live_at c key live) spot.at.slot) (at_gen : unpack_gen c key ≡ h.life.gen)
      (value : T) (item : spot.at.slot.item ≡ some value) where
    marked_as : marked_life (unpack_gen c key) h.life ≡ record (h.life) { state = State.marked }
    marked_as =
        busy-marked h.life value (unpack_gen c key) at_gen (subst (Active h.life) item h.active)

    answer_as : mark_answer (unpack_gen c key) h.life ≡ some (h.life.refs == 0)
    answer_as =
        busy-answer h.life value (unpack_gen c key) at_gen (subst (Active h.life) item h.active)

    marked-SlotValid :
        1 ≤ h.life.refs
        → SlotValid c
            (live_at c key live)
            (store (encode c (marked_life (unpack_gen c key) h.life)) spot.at.slot)
    marked-SlotValid referred = record {
      life = record (h.life) { state = State.marked };
      is_life = record { refs_fit = h.is_life.refs_fit; gen_fits = h.is_life.gen_fits };
      word = ap (encode c) marked_as;
      counted = h.counted;
      refer = h.refer;
      active =
          subst (Active (record (h.life) { state = State.marked })) (sym item)
            (inr (refl, referred));
    }

  pub remove-Ends :
      (answer : Bool) × Ends c (each_valid c live) answer (slab_remove c me key [] slab)
  unfolding slab_remove remove_local remove_remote remove
  remove-Ends = elim (own_slot v valid me key later) [
    | inl refused ↦
        (false, record { slab = slab; returned = remove_refused v me refused; valid = valid })
    | inr (spot, h, at_gen, value, item) ↦
        let answer = answer_as spot h at_gen value item in
        let marked = marked_life (unpack_gen c key) h.life in
        (
          true,
          elim (Bool-cases (h.life.refs == 0)) [
            | inl e ↦
                let no_refs : marked.refs ≡ 0 =
                  ground (arith, e, marked_as spot h at_gen value item) in
                freed-Ends (each_valid c live) (each_valid c live) valid spot (λ t a s other k. k)
                  (ap in_use item) (emptied c spot.at.slot marked) false true
                  (λ F fl gen o free w. try_remove_value c fl gen o free w) refl
                  (emptied_anywhere v valid me key later spot h marked
                    (marked-IsLife h.life h.is_life (unpack_gen c key)) no_refs
                    (ground (arith, e, h.counted)))
                  (λ F fl free.
                    try_remove_value-freed v fl spot.at.slot h.life h.is_life h.word
                      (offset spot.at) free (unpack_gen c key) (answer ∙ ap some e))
                  (unpack_tid c key == me)
            | inr e ↦
                kept-Ends (each_valid c live) (each_valid c live) valid spot (λ t a s other k. k)
                  (ap in_use item) (store (encode c marked) spot.at.slot) false true
                  (λ F fl gen o free w. try_remove_value c fl gen o free w) (ap in_use item)
                  (marked-SlotValid spot h at_gen value item (ground (arith, e)))
                  (λ F fl free.
                    try_remove_value-marked v fl spot.at.slot h.life h.is_life h.word
                      (offset spot.at) free (unpack_gen c key) (answer ∙ ap some e))
                  (unpack_tid c key == me)
          ],
        )
  ]
