-- ===== src/Slab/PageMap.antt =====
-- A page (src/page/mod.rs) under the `insert` and the `take` of a slab (src/lib.rs), as a map from
-- its slots in use to their values and generations.
pub mod Inserting
pub mod Starting
pub mod Taking
use sharded_slab.Base.{
  ℕ, zero, suc, ◌+◌, ◌-◌, ◌%◌, ◌^◌, ◌≤◌, ◌<◌, ◌≡◌, ◌⊎◌, refl, sym, ap, ◌∙◌, subst, Bool, true,
  false, ◌==◌, ltb, ltb→lt, lt→ltb, List, [], ◌∷◌, Option, none, some, inl, inr, get_elem?, set,
  arith, length, Bool-cases, ==→eq,
}
use mathlib.Core.Option.{some-injective}
use sharded_slab.Config.{Config, null_addr, gen_field, ref_count_field}
use sharded_slab.Config.Valid.{IsConfig}
use sharded_slab.Pack.{pack}
use sharded_slab.Lifecycle.{State, advance}
use sharded_slab.Lifecycle.Encode.{Life, IsLife, encode, encode_removing, advance-lt}
use sharded_slab.Slot.Memory.{Slot, returns}
use sharded_slab.Slot.Ops.{new_slot}
use sharded_slab.Slot.Quiet.{quiet, emptied}
use sharded_slab.Slot.Insert.{present_life}
use sharded_slab.Slot.Lives.{life, no_ref-IsLife}
use sharded_slab.Slot.Story.{option_clear}
use sharded_slab.Stack.{push, set_next, local_list, remote_list}
use sharded_slab.Page.{Shared, new_shared, new_local, allocate, put_slot, init_with}
use sharded_slab.Page.Ops.{take}
use sharded_slab.Page.Chain.{get_elem?-set_same, get_elem?-set_other, get_elem?-lt}
use sharded_slab.Page.Free.{FreeLists, drained, set-FreeLists, rest-FreeLists, moved-FreeLists}
use sharded_slab.Page.Alloc.{init_with-first, init_with-drained, init_with_full}
use sharded_slab.Page.Held.{
  one_if, count, Held, in_use, bind, SharedOut, first_free, used-SharedOut, freed-SharedOut,
  count-Apart,
}
use sharded_slab.Slab.{insert_init}
use sharded_slab.Slab.Filling.{filled_slot, fills}

-- A slot that holds nothing, or a value in a generation. Nobody refers to it.
abbrev pub Stands : {T : Type 0} → Config → Option (T × ℕ) → Slot (Option T) → Type 0
Stands c none s =
    (l : Life) × IsLife c l × (s.lifecycle ≡ encode c l) × (l.refs ≡ 0) × (s.item ≡ none)
Stands c (some (value, gen)) s =
    IsLife c (life State.present 0 gen)
    × (s.lifecycle ≡ encode c (life State.present 0 gen))
    × (s.item ≡ some value)

-- The page stands for the map `held`.
pub record Models {T : Type 0} (c : Config) (page : Shared (Option T)) (local : ℕ)
    (held : Held (T × ℕ)) : Type 0 where
  pub slots : List (Slot (Option T))
  pub xs : List ℕ
  pub ys : List ℕ
  pub lists : FreeLists c page local slots xs ys
  pub shared_out : SharedOut page.size xs ys held
  pub stands : (o : ℕ) (s : Slot (Option T)) → get_elem? slots o ≡ some s → Stands c (held o) s
  pub in_word : page.prev_sz + page.size ≤ 2 ^ c.width

module _ {T : Type 0} (c : Config) where
  pub idle :
      (b : Option (T × ℕ)) (s : Slot (Option T))
      → Stands c b s
      → (l : Life) × IsLife c l × (s.lifecycle ≡ encode c l) × (l.refs ≡ 0)
  idle none s (l, i, word, no_refs, item) = (l, i, word, no_refs)
  idle (some (value, gen)) s (i, word, item) = (life State.present 0 gen, i, word, refl)

  -- One slot and its place in the map change.
  pub bind-Stands :
      (slots : List (Slot (Option T))) (held : Held (T × ℕ)) (x : ℕ) (b : Option (T × ℕ))
      (t : Slot (Option T)) {u : Slot (Option T)}
      → get_elem? slots x ≡ some u
      → ((o : ℕ) (s : Slot (Option T)) → get_elem? slots o ≡ some s → Stands c (held o) s)
      → Stands c b t
      → (o : ℕ) (s : Slot (Option T)) → get_elem? (set slots x t) o ≡ some s
      → Stands c (bind x b held o) s
  bind-Stands slots held x b t found old new o s h = elim (Bool-cases (o == x)) [
    | inl e ↦
        let at : o ≡ x = ==→eq o x e in
        let same : t ≡ s =
          some-injective _ _ (
            sym (get_elem?-set_same slots x found) ∙ ap (get_elem? (set slots x t)) (sym at) ∙ h) in
        rw e (subst (Stands c b) same new)
    | inr e ↦ rw e (old o s (sym (get_elem?-set_other slots x o t (λ p. ground (arith, p, e))) ∙ h))
  ]
