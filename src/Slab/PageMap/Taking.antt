-- ===== src/Slab/PageMap/Taking.antt =====
-- The `take` of a slab (src/lib.rs) on a page (src/page/mod.rs) that stands for a map.
use sharded_slab.Base.{
  ℕ, ◌+◌, ◌≤◌, ◌<◌, ◌≡◌, refl, sym, ap, ◌∙◌, subst, ltb, ltb→lt, [], ◌∷◌, Option, none, some, inl,
  inr, get_elem?, set, arith, Bool-cases,
}
use sharded_slab.Config.{Config}
use sharded_slab.Config.Valid.{IsConfig}
use sharded_slab.Lifecycle.{State, advance}
use sharded_slab.Lifecycle.Encode.{IsLife, encode, advance-lt}
use sharded_slab.Slot.Memory.{Slot, returns}
use sharded_slab.Slot.Quiet.{emptied}
use sharded_slab.Slot.Lives.{life, no_ref-IsLife}
use sharded_slab.Stack.{TransferStack, push, set_next, local_list, remote_list}
use sharded_slab.Page.{Shared, put_slot}
use sharded_slab.Page.Ops.{take}
use sharded_slab.Page.Chain.{get_elem?-inside}
use sharded_slab.Page.Free.{FreeLists}
use sharded_slab.Page.Held.{
  one_if, count, Held, in_use, bind, freed-SharedOut, count-Apart, one_if_small,
}
use sharded_slab.Page.Free.{put_slot_allocated}
use sharded_slab.Page.Removal.{Holds, take-FreeLists}
use sharded_slab.Slab.PageMap.{Stands, Models, bind-Stands}

-- How `take` ends on a slot that holds a value, on the page's own thread and on another one: the value
-- is returned, and the slot holds nothing.
abbrev pub Takes :
    {T : Type 0} (c : Config) (page : Shared (Option T)) (local : ℕ) (held : Held (T × ℕ)) (o : ℕ)
    (value : T) (gen : ℕ)
    → Type 0
Takes c page local held o value gen =
    ((local' : ℕ) × (page' : Shared (Option _)) × (take c local_list (page.prev_sz + o) gen [] local
          page
        ≡ returns (some value, local', page'))
      × Models c page' local' (bind o none held))
    × ((remote' : TransferStack) × (page' : Shared (Option _)) × (take c remote_list
            (page.prev_sz + o) gen [] page.remote page
          ≡ returns (some value, remote', page'))
        × Models c (record page' { remote = remote' }) local (bind o none held))

module _ {T : Type 0} {c : Config} (v : IsConfig c) {page : Shared (Option T)} {local : ℕ}
    {held : Held (T × ℕ)} (m : Models c page local held) (o : ℕ) (value : T) (gen : ℕ)
    (taken : held o ≡ some (value, gen)) where
  in_page : o < page.size
  in_page =
      let used : in_use (held o) ≡ 1 = ap in_use taken in
      elim (Bool-cases (ltb o page.size)) [
        | inl e ↦ ltb→lt o page.size e
        | inr e ↦ absurd (omega (arith, m.shared_out o, used, ap one_if e))
      ]

  off : (count o m.xs ≡ 0) × (count o m.ys ≡ 0)
  off =
      let used : in_use (held o) ≡ 1 = ap in_use taken in
      let all : one_if (ltb o page.size) ≤ 1 = one_if_small (ltb o page.size) in
      (omega (arith, m.shared_out o, used, all), omega (arith, m.shared_out o, used, all))

  slot_there : (s : Slot (Option T)) × (get_elem? m.slots o ≡ some s)
  slot_there = get_elem?-inside m.slots o (omega (arith, in_page, m.lists.sized))

  stood :
      IsLife c (life State.present 0 gen)
      × (slot_there.0.lifecycle ≡ encode c (life State.present 0 gen))
      × (slot_there.0.item ≡ some value)
  stood = subst (λ b. Stands c b slot_there.0) taken (m.stands o slot_there.0 slot_there.1)

  abbrev left : Slot (Option T)
  left = emptied c slot_there.0 (life State.present 0 gen)

  -- Such a slot holds nothing, wherever it links to.
  left-Stands : (next : ℕ) → Stands c none (set_next next left)
  left-Stands next = (
    life State.present 0 (advance c gen),
    no_ref-IsLife v State.present (advance c gen) (omega (arith, advance-lt v gen)),
    refl,
    refl,
    refl,
  )

  holds : Holds c page m.slots (page.prev_sz + o) o slot_there.0
  holds = record { on_page = refl; in_page = in_page; in_word = m.in_word; found = slot_there.1 }

  -- On a page that stands for a map, with no other thread interfering, `take` of a slot in use, at its generation, by the page's own
  -- thread or by another one, returns its value, and the page then stands for the map without it.
  pub page-Takes : Takes c page local held o value gen
  page-Takes =
      let (own, own_lists, other, other_lists) =
        take-FreeLists v m.lists holds (count-Apart o m.xs off.0) (count-Apart o m.ys off.1)
          (life State.present 0 gen) stood.0 stood.1 refl in
      let put = put_slot_allocated page m.slots o (set_next local left) m.lists.allocated in
      let pushed = push o left page.remote in
      let put' = put_slot_allocated page m.slots o pushed.0 m.lists.allocated in
      (
        (
          o,
          put_slot o (set_next local left) page,
          own ∙ ap (λ i. returns (i, o, put_slot o (set_next local left) page)) stood.2,
          subst (λ p. Models c p o (bind o none held)) (sym put)
              (record {
                slots = set m.slots o (set_next local left);
                xs = o ∷ m.xs;
                ys = m.ys;
                lists =
                    subst
                      (λ p. FreeLists c p o (set m.slots o (set_next local left)) (o ∷ m.xs) m.ys)
                      put own_lists;
                shared_out = λ i.
                    let h =
                      freed-SharedOut o (count i m.xs + count i m.ys) page.size (value, gen) held i
                        taken (m.shared_out i) in
                    omega (arith, h);
                stands =
                    bind-Stands c m.slots held o none (set_next local left) slot_there.1 m.stands
                      (left-Stands local);
                in_word = m.in_word;
              }),
        ),
        (
          pushed.1,
          put_slot o pushed.0 page,
          other ∙ ap (λ i. returns (i, pushed.1, put_slot o pushed.0 page)) stood.2,
          subst (λ p. Models c (record p { remote = pushed.1 }) local (bind o none held)) (sym put')
              (record {
                slots = set m.slots o (set_next page.remote.head left);
                xs = m.xs;
                ys = o ∷ m.ys;
                lists =
                    subst
                      (λ p.
                        FreeLists c (record p { remote = pushed.1 }) local
                          (set m.slots o (set_next page.remote.head left)) m.xs (o ∷ m.ys))
                      put' other_lists;
                shared_out = λ i.
                    let h =
                      freed-SharedOut o (count i m.xs + count i m.ys) page.size (value, gen) held i
                        taken (m.shared_out i) in
                    omega (arith, h);
                stands =
                    bind-Stands c m.slots held o none (set_next page.remote.head left) slot_there.1
                      m.stands (left-Stands page.remote.head);
                in_word = m.in_word;
              }),
        ),
      )
