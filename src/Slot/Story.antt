-- ===== src/Slot/Story.antt =====
-- Operations of src/page/slot.rs one after another on one slot: what a removal leaves for the next
-- `init`.
use sharded_slab.Base.{ℕ, ◌≡◌, ap, ◌∙◌, true, false, Option, none, some, inl, inr, arith}
use sharded_slab.Config.{Config}
use sharded_slab.Config.Valid.{IsConfig}
use sharded_slab.Lifecycle.{State}
use sharded_slab.Lifecycle.Encode.{Life, IsLife, encode}
use sharded_slab.Slot.Memory.{Slot, returns}
use sharded_slab.Slot.Ops.{FreeList, Clear, init, try_remove_value}
use sharded_slab.Slot.Access.{mark_answer, marked_life}
use sharded_slab.Slot.Insert.{init-fresh}
use sharded_slab.Slot.Quiet.{quiet, emptied, try_remove_value-TryRemoved}

-- `impl Clear for Option` of src/clear.rs: `clear` takes the value out.
abbrev pub option_clear : {T : Type 0} → Clear (Option T)
option_clear = record { clear = λ item. none; default = none }

module _ {T F : Type 0} {c : Config} (v : IsConfig c) (fl : FreeList (Option T) F)
    (s : Slot (Option T)) (l : Life) (i : IsLife c l) (word : s.lifecycle ≡ encode c l) (offset : ℕ)
    (free : F) where
  -- A slot that was marked when it was removed can be removed again while `init` has it.
  pub vacant_removed :
      l.state ≡ State.marked
      → l.refs ≡ 0
      → let next = emptied c s l in
        (init c (quiet s)
          ≡ (some (record { curr_lifecycle = s.lifecycle; released = false }), quiet s))
        × (try_remove_value c fl l.gen offset free (quiet s)
            ≡ returns (true, (fl.push offset next free).1, quiet (fl.push offset next free).0))
  vacant_removed marked no_refs = (init-fresh v l i (quiet s) tt word no_refs, removed)
    where
      answers : mark_answer l.gen l ≡ some true
      answers = ground arith

      same : marked_life l.gen l ≡ l
      same = ground arith

      removed :
          try_remove_value c fl l.gen offset free (quiet s)
          ≡ returns (
            true,
            (fl.push offset (emptied c s l) free).1,
            quiet (fl.push offset (emptied c s l) free).0,
          )
      removed = elim (try_remove_value-TryRemoved v fl s l i word offset free l.gen) [
        | inl (e, _) ↦ absurd (ground (arith, e, answers))
        | inr (inl (e, _)) ↦ absurd (ground (arith, e, answers))
        | inr (inr (e, o)) ↦
            o
            ∙ ap
                (λ x. returns (
                  true,
                  (fl.push offset (emptied c s x) free).1,
                  quiet (fl.push offset (emptied c s x) free).0,
                ))
                same
      ]
