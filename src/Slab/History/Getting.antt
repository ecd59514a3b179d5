-- ===== src/Slab/History/Getting.antt =====
-- `get` among other calls (src/lib.rs).
use mathlib.Core.Option
use sharded_slab.Base.{
  ℕ, ◌<◌, ◌≡◌, inl, inr, refl, sym, ap, ◌∙◌, subst, true, false, Bool-cases, Option-cases, [], ◌∷◌,
  Option, none, some, arith,
}
use sharded_slab.Word.Fields.{two_pow-pos}
use sharded_slab.Config.{Config, max_refs, ref_count_field}
use sharded_slab.Config.Valid.{IsConfig}
use sharded_slab.Key.{unpack_tid, unpack_gen}
use sharded_slab.Lifecycle.{State}
use sharded_slab.Lifecycle.Encode.{Life, encode, max_refs_lem}
use sharded_slab.Page.Held.{in_use}
use sharded_slab.Slot.Memory.{Slot, World, Outcome, returns, panics, store}
use sharded_slab.Slot.Spec.{accessible, with_ref}
use sharded_slab.Slot.Ops.{get}
use sharded_slab.Slot.Quiet.{quiet, get-quiet}
use sharded_slab.Shard.Refused.{with_shard_slot-Absent, with_shard_slot-kept}
use sharded_slab.Shard.{with_shard_slot}
use sharded_slab.Shard.Array.{on_shard}
use sharded_slab.Slab.{Slab, get_entry, get_owned_entry, slab_get, slab_get_owned}
use sharded_slab.Slab.Valid.{IsValid}
use sharded_slab.Slab.Valid.Spot.{Spot, Spot-cases}
use sharded_slab.Slab.Valid.Moves.{Ends, with_slot-Ends}
use sharded_slab.Slab.History.{Live, coming, live_at, with_live, answered}
use sharded_slab.Slab.History.Slots.{Active, SlotValid, each_valid, with_live-same, keep_others}
use sharded_slab.Slab.History.Places.{slot_valid, not_coming}

accessible_lem :
    (c : Config) (gen : ℕ) (l : Life)
    → accessible c gen l ≡ true
    → (gen ≡ l.gen) × (l.state ≡ State.present) × (l.refs < max_refs c)
accessible_lem c gen l h = (ground arith, ground arith, ground arith)

module _ {T : Type 0} {c : Config} (v : IsConfig c) {live : Live T} {slab : Slab T}
    (valid : IsValid c (each_valid c live) slab) (me key : ℕ)
    (later : coming c key slab ≡ false) where
  -- One entry more.
  got-SlotValid :
      (spot : Spot c (each_valid c live) key slab)
      (h : SlotValid c (live_at c key live) spot.at.slot) (value : T)
      → accessible c (unpack_gen c key) h.life ≡ true
      → spot.at.slot.item ≡ some value
      → SlotValid c
          ((value, unpack_gen c key) ∷ live_at c key live)
          (store (encode c (with_ref h.life)) spot.at.slot)
  got-SlotValid spot h value allowed item =
      let (at_gen, present, some_room) = accessible_lem c (unpack_gen c key) h.life allowed in
      record {
        life = with_ref h.life;
        is_life = record {
          refs_fit = omega (arith, some_room, max_refs_lem v, two_pow-pos (ref_count_field c).len);
          gen_fits = h.is_life.gen_fits;
        };
        word = refl;
        counted = omega (arith, h.counted);
        refer = ((item, sym at_gen), h.refer);
        active = subst (Active (with_ref h.life)) (sym item) (inl present);
      }

  -- What `get` and `get_owned` share: `f` is the closure on the slot, and `make` what it makes of the
  -- value.
  module _ {E : Type 0} (f : World (Option T) → Outcome (Option E × World (Option T)))
      (make : T → E)
      (refuse : (s : Slot (Option T))
        → get c (unpack_gen c key) (quiet s) ≡ returns (none, quiet s)
        → f (quiet s) ≡ returns (none, quiet s))
      (accept : (s t : Slot (Option T)) (value : T)
        → get c (unpack_gen c key) (quiet s) ≡ returns (some tt, quiet t)
        → t.item ≡ some value
        → f (quiet s) ≡ returns (some (make value), quiet t)) where
    abbrev found : Outcome (Option E × Slab T)
    found = on_shard none (λ shard. with_shard_slot c key f [] shard) (unpack_tid c key) slab

    pub lookup-Ends :
        (value : Option T) × Ends c
          (each_valid c (answered c key value live))
          (Option.map make value)
          (on_shard none (λ shard. with_shard_slot c key f [] shard) (unpack_tid c key) slab)
    lookup-Ends = elim (Spot-cases v valid key) [
      | inl absent ↦
          (none, record { slab = slab; returned = with_shard_slot-Absent f absent; valid = valid })
      | inr spot ↦
          let h = slot_valid spot in
          let seen = get-quiet v spot.at.slot h.life h.is_life h.word (unpack_gen c key) in
          elim (Bool-cases (accessible c (unpack_gen c key) h.life)) [
            | inl allowed ↦ elim (Option-cases spot.at.slot.item) [
              | inl gone ↦ absurd (
                  not_coming v spot.at _ h later gone
                    (accessible_lem c (unpack_gen c key) h.life allowed).0)
              | inr (value, item) ↦
                  let entries = (value, unpack_gen c key) ∷ live_at c key live in
                  let t = store (encode c (with_ref h.life)) spot.at.slot in
                  (
                    some value,
                    with_slot-Ends (each_valid c live) (each_valid c (with_live c key entries live))
                        valid spot (keep_others c key entries live) (ap in_use item) t f none
                        (some (make value)) (ap in_use item)
                        (subst (λ l. SlotValid c l t) (sym (with_live-same c key entries live))
                          (got-SlotValid spot h value allowed item))
                        (accept spot.at.slot t value (seen ∙ rw allowed refl) item),
                  )
            ]
            | inr refused ↦ (
              none,
              record {
                slab = slab;
                returned =
                    with_shard_slot-kept spot.at f none
                      (refuse spot.at.slot (seen ∙ rw refused refl));
                valid = valid;
              },
            )
          ]
    ]

  pub get-Ends :
      (value : Option T) × Ends c
        (each_valid c (answered c key value live))
        (Option.map (λ x. record { value = x; key = key }) value)
        (slab_get c me key [] slab)
  unfolding slab_get get_entry
  get-Ends =
      lookup-Ends (get_entry c key) (λ x. record { value = x; key = key })
        (λ s e. rw (get_entry, e) refl)
        (λ s t value e item.
          rw (get_entry, e)
            (ap
              (λ o. elim o [
                | none ↦ panics
                | some x ↦ returns (some (record { value = x; key = key }), quiet t)
              ])
              item))

  pub get_owned-Ends :
      (value : Option T) × Ends c
        (each_valid c (answered c key value live))
        (Option.map (λ x. record { value = x; key = key }) value)
        (slab_get_owned c me key [] slab)
  unfolding slab_get_owned get_owned_entry
  get_owned-Ends =
      lookup-Ends (get_owned_entry c key) (λ x. record { value = x; key = key })
        (λ s e. rw (get_owned_entry, e) refl)
        (λ s t value e item.
          rw (get_owned_entry, e)
            (ap
              (λ o. elim o [
                | none ↦ panics
                | some x ↦ returns (some (record { value = x; key = key }), quiet t)
              ])
              item))
