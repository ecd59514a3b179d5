-- ===== src/Page/Alloc.antt =====
-- `pop` and `init_with` of src/page/mod.rs on the free lists of an allocated page.
use sharded_slab.Base.{
  ℕ, ◌+◌, ◌%◌, ◌^◌, ◌≤◌, ◌<◌, ◌≡◌, ◌≢◌, refl, sym, ap, subst, ◌∙◌, false, ltb, ne→==, eq→==, List,
  [], ◌∷◌, Option, none, some, get_elem?, set, arith,
}
use mathlib.Core.Option.{some-injective}
use sharded_slab.Config.{Config, null_addr}
use sharded_slab.Slot.Memory.{Slot, World, Outcome, returns}
use sharded_slab.Slot.Ops.{Clear}
use sharded_slab.Stack.{TransferStack, pop_all, load_head}
use sharded_slab.Page.{Shared, pop, not_null, init_slot, init_with}
use sharded_slab.Page.Chain.{get_elem?-lt}
use sharded_slab.Page.Free.{
  FreeLists, drained, set-FreeLists, lost-FreeLists, rest-FreeLists, moved-FreeLists,
}

-- The first slot of the local list is taken, or else that of the remote list, whose rest becomes
-- the local list.
abbrev pub taken : List ℕ → List ℕ → Option (ℕ × List ℕ × List ℕ)
taken (x ∷ xs) ys = some (x, xs, ys)
taken [] (y ∷ ys) = some (y, ys, [])
taken [] [] = none

pop_all-quiet :
    (c : Config) (st : TransferStack)
    → st.others ≡ []
    → pop_all c st ≡ (not_null c st.head, record { head = null_addr c; others = [] })
unfolding pop_all load_head
pop_all-quiet c st h = ap (λ fs. pop_all c (record st { others = fs })) h

module _ {T : Type 0} (c : Config) where
  pub pop-here :
      (local : ℕ) (page : Shared T)
      → local < page.size
      → page.size ≤ null_addr c
      → pop c local page ≡ (some local, page)
  unfolding pop
  pop-here local page h p = ground arith

  pop-there :
      (local : ℕ) (page : Shared T)
      → page.size ≤ local
      → page.remote.others ≡ []
      → page.remote.head ≢ null_addr c
      → pop c local page ≡ (some page.remote.head, drained c page)
  unfolding pop
  pop-there local page h p q =
      let slow : ltb local page.size ≡ false = ground arith in
      rw
        (
          slow,
          ap (λ r. r.0) (pop_all-quiet c page.remote p),
          ne→== _ _ q,
          ap (λ r. r.1) (pop_all-quiet c page.remote p),
        )
        (rw (ne→== _ _ q) refl)

  pop-empty :
      (local : ℕ) (page : Shared T)
      → page.size ≤ local
      → page.remote.others ≡ []
      → page.remote.head ≡ null_addr c
      → pop c local page ≡ (none, drained c page)
  unfolding pop
  pop-empty local page h p q =
      let slow : ltb local page.size ≡ false = ground arith in
      rw
        (
          slow,
          ap (λ r. r.0) (pop_all-quiet c page.remote p),
          eq→== _ _ q,
          ap (λ r. r.1) (pop_all-quiet c page.remote p),
        )
        refl

-- How `init_with` ends where `init` succeeds: it has taken the slot `x`, and its link is the new
-- local head.
pub record Took {T U : Type 0} (c : Config) (init : ℕ → World T → Outcome (Option U × World T))
    (others : List (Slot T → Slot T)) (slots : List (Slot T)) (prev_sz x : ℕ) (xs ys : List ℕ)
    (o : Outcome (Option U × ℕ × Shared T)) : Type 0 where
  pub before : Slot T
  pub found : get_elem? slots x ≡ some before
  pub value : U
  pub world : World T
  pub ran :
      init ((x + prev_sz) % 2 ^ c.width) (record { slot = before; others = others })
      ≡ returns (some value, world)
  pub page : Shared T
  pub returned : o ≡ returns (some value, world.slot.next, page)
  pub lists : FreeLists c page world.slot.next (set slots x world.slot) xs ys

-- `init` succeeds on the slot `x` and leaves its link alone.
pub record Succeeds {T U : Type 0} (c : Config) (init : ℕ → World T → Outcome (Option U × World T))
    (others : List (Slot T → Slot T)) (prev_sz x : ℕ) (before : Slot T) : Type 0 where
  pub value : U
  pub world : World T
  pub ran :
      init ((x + prev_sz) % 2 ^ c.width) (record { slot = before; others = others })
      ≡ returns (some value, world)
  pub keeps_link : world.slot.next ≡ before.next

module _ {T U : Type 0} (c : Config) (cl : Clear T)
    (init : ℕ → World T → Outcome (Option U × World T)) (others : List (Slot T → Slot T)) where
  pub init_slot-found :
      (x local : ℕ) (page : Shared T) (slots : List (Slot T)) (s : Slot T)
      → page.slab ≡ some slots
      → get_elem? slots x ≡ some s
      → (z : Succeeds c init others page.prev_sz x s)
      → init_slot c x init others local page
        ≡ returns (
          some z.value,
          z.world.slot.next,
          record page { slab = some (set slots x z.world.slot) },
        )
  unfolding init_slot
  init_slot-found x local page slots s a e z = rw (init_slot, a, e, z.ran) (rw a refl)

  init_with-popped :
      (x local : ℕ) (page page' : Shared T) (slots : List (Slot T))
      → pop c local page ≡ (some x, page')
      → page'.slab ≡ some slots
      → init_with c cl init others local page ≡ init_slot c x init others local page'
  unfolding init_with
  init_with-popped x local page page' slots h a =
      rw (init_with, ap (λ r. r.0) h, ap (λ r. r.1) h, a) refl

  -- The local list.
  module _ {page : Shared T} {local : ℕ} {slots : List (Slot T)} {x : ℕ} {xs ys : List ℕ}
      (f : FreeLists c page local slots (x ∷ xs) ys) where
    head_eq : local ≡ x
    head_eq = f.local_chain.0

    inside : local < page.size
    inside = omega (arith, head_eq, get_elem?-lt slots x f.local_chain.1.1, f.sized)

    pub init_with-first :
        (s : Slot T)
        → get_elem? slots x ≡ some s
        → (z : Succeeds c init others page.prev_sz x s)
        → init_with c cl init others local page
          ≡ returns (
            some z.value,
            z.world.slot.next,
            record page { slab = some (set slots x z.world.slot) },
          )
    init_with-first s found z =
        init_with-popped x local page page slots
          (pop-here c local page inside f.null_outside ∙ ap (λ h. (some h, page)) head_eq)
          f.allocated
        ∙ init_slot-found x local page slots s f.allocated found z

    Took-local :
        ((s : Slot T) → get_elem? slots x ≡ some s → Succeeds c init others page.prev_sz x s)
        → Took c init others slots page.prev_sz x xs ys (init_with c cl init others local page)
    unfolding init_with
    Took-local ready =
        let (s, found, rest) = f.local_chain.1 in
        let z = ready s found in
        record {
          before = s;
          found = found;
          value = z.value;
          world = z.world;
          ran = z.ran;
          page = record page { slab = some (set slots x z.world.slot) };
          returned = init_with-first s found z;
          lists =
              subst
                (λ h.
                  FreeLists c (record page { slab = some (set slots x z.world.slot) }) h
                    (set slots x z.world.slot) xs ys)
                (sym z.keeps_link)
                (set-FreeLists (rest-FreeLists x f) x z.world.slot f.local_distinct.0 f.apart.0);
        }

  -- The remote list, where the local one is empty.
  module _ {page : Shared T} {local : ℕ} {slots : List (Slot T)} {y : ℕ} {ys : List ℕ}
      (f : FreeLists c page local slots [] (y ∷ ys)) where
    not_end : page.remote.head ≢ null_addr c
    not_end e =
        omega (
          arith,
          f.remote_chain.0,
          get_elem?-lt slots y f.remote_chain.1.1,
          f.sized,
          f.null_outside,
        )

    pub init_with-drained :
        (s : Slot T)
        → get_elem? slots y ≡ some s
        → (z : Succeeds c init others page.prev_sz y s)
        → init_with c cl init others local page
          ≡ returns (
            some z.value,
            z.world.slot.next,
            record (drained c page) { slab = some (set slots y z.world.slot) },
          )
    init_with-drained s found z =
        init_with-popped y local page (drained c page) slots
          (pop-there c local page f.local_chain f.remote_quiet not_end
            ∙ ap (λ h. (some h, drained c page)) f.remote_chain.0)
          f.allocated
        ∙ init_slot-found y local (drained c page) slots s f.allocated found z

    Took-remote :
        ((s : Slot T) → get_elem? slots y ≡ some s → Succeeds c init others page.prev_sz y s)
        → Took c init others slots page.prev_sz y ys [] (init_with c cl init others local page)
    Took-remote ready =
        let (s, found, rest) = f.remote_chain.1 in
        let z = ready s found in
        record {
          before = s;
          found = found;
          value = z.value;
          world = z.world;
          ran = z.ran;
          page = record (drained c page) { slab = some (set slots y z.world.slot) };
          returned = init_with-drained s found z;
          lists =
              subst
                (λ h.
                  FreeLists c (record (drained c page) { slab = some (set slots y z.world.slot) }) h
                    (set slots y z.world.slot) ys [])
                (sym z.keeps_link)
                (set-FreeLists (moved-FreeLists y f) y z.world.slot f.remote_distinct.0 tt);
        }

  -- `init_with` on an allocated page takes the first slot of the local free list or, where that is
  -- empty, of the remote one, whose rest becomes the local list, and leaves well-formed, disjoint
  -- lists, if `init` succeeds on that slot and keeps its link, and no other thread changes the head
  -- of the remote list.
  pub init_with-Took :
      {page : Shared T} {local : ℕ} {slots : List (Slot T)} (xs ys : List ℕ) {x : ℕ}
      {xs' ys' : List ℕ}
      → FreeLists c page local slots xs ys
      → taken xs ys ≡ some (x, xs', ys')
      → ((s : Slot T) → get_elem? slots x ≡ some s → Succeeds c init others page.prev_sz x s)
      → Took c init others slots page.prev_sz x xs' ys' (init_with c cl init others local page)
  init_with-Took {page} {local} {slots} (z ∷ zs) ys {x} {xs'} {ys'} f e ready =
      let same : (z, zs, ys) ≡ (x, xs', ys') = some-injective _ _ e in
      subst
        (λ (a, b, d).
          Took c init others slots page.prev_sz a b d (init_with c cl init others local page))
        same
        (Took-local f (λ s h.
          subst (λ a. Succeeds c init others page.prev_sz a s) (sym (ap (λ p. p.0) same))
            (ready s (sym (ap (λ p. get_elem? slots p.0) same) ∙ h))))
  init_with-Took {page} {local} {slots} [] (z ∷ zs) {x} {xs'} {ys'} f e ready =
      let same : (z, zs, []) ≡ (x, xs', ys') = some-injective _ _ e in
      subst
        (λ (a, b, d).
          Took c init others slots page.prev_sz a b d (init_with c cl init others local page))
        same
        (Took-remote f (λ s h.
          subst (λ a. Succeeds c init others page.prev_sz a s) (sym (ap (λ p. p.0) same))
            (ready s (sym (ap (λ p. get_elem? slots p.0) same) ∙ h))))
  init_with-Took [] [] f e ready = absurd cc

  -- With both lists empty no slot is found.
  pub init_with_full :
      {page : Shared T} {local : ℕ} {slots : List (Slot T)}
      → FreeLists c page local slots [] []
      → init_with c cl init others local page ≡ returns (none, local, drained c page)
  unfolding init_with
  init_with_full {page} {local} f =
      let e = pop-empty c local page f.local_chain f.remote_quiet (f.remote_end refl) in
      rw (init_with, ap (λ r. r.0) e, ap (λ r. r.1) e) refl

  -- Where `init` refuses the slot that the remote list begins with, and the local list is empty, both
  -- lists are empty afterwards: no slot of the page is found again.
  pub init_with_refused :
      {page : Shared T} {local : ℕ} {slots : List (Slot T)} (y : ℕ) (ys : List ℕ) (s : Slot T)
      (w : World T)
      → FreeLists c page local slots [] (y ∷ ys)
      → get_elem? slots y ≡ some s
      → init ((y + page.prev_sz) % 2 ^ c.width) (record { slot = s; others = others })
        ≡ returns (none, w)
      → let page' = record (drained c page) { slab = some (set slots y w.slot) } in
        (init_with c cl init others local page ≡ returns (none, local, page'))
        × FreeLists c page' local (set slots y w.slot) [] []
  unfolding init_slot
  init_with_refused {page} {local} {slots} y ys s w f found ran = (
    init_with-popped y local page (drained c page) slots
          (pop-there c local page f.local_chain f.remote_quiet (not_end f)
            ∙ ap (λ h. (some h, drained c page)) f.remote_chain.0)
          f.allocated
        ∙ refused,
    set-FreeLists (lost-FreeLists y f) y w.slot tt tt,
  )
    where
      refused :
          init_slot c y init others local (drained c page)
          ≡ returns (none, local, record (drained c page) { slab = some (set slots y w.slot) })
      refused = rw (init_slot, f.allocated, found, ran) (rw f.allocated refl)
