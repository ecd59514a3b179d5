-- ===== src/Slab/PageMap/Inserting.antt =====
-- The `insert` of a slab (src/lib.rs) on a page (src/page/mod.rs) that stands for a map.
use sharded_slab.Base.{
  ℕ, ◌+◌, ◌%◌, ◌^◌, ◌≤◌, ◌≡◌, ◌⊎◌, refl, ltb, List, [], ◌∷◌, Option, none, some, inl, inr,
  get_elem?, set, arith,
}
use sharded_slab.Config.{Config, gen_field}
use sharded_slab.Config.Valid.{IsConfig}
use sharded_slab.Pack.{pack}
use sharded_slab.Lifecycle.{State}
use sharded_slab.Slot.Memory.{Slot, returns}
use sharded_slab.Slot.Lives.{no_ref-IsLife}
use sharded_slab.Slot.Story.{option_clear}
use sharded_slab.Page.{Shared, init_with}
use sharded_slab.Page.Free.{FreeLists, drained, set-FreeLists, rest-FreeLists, moved-FreeLists}
use sharded_slab.Page.Alloc.{init_with-first, init_with-drained, init_with_full}
use sharded_slab.Page.Held.{
  one_if, count, Held, in_use, bind, SharedOut, first_free, used-SharedOut,
}
use sharded_slab.Slab.{insert_init}
use sharded_slab.Slab.Filling.{filled_slot, fills}
use sharded_slab.Slab.PageMap.{Stands, Models, idle, bind-Stands}

module _ {T : Type 0} (c : Config) where
  pub full_page :
      {page : Shared (Option T)} {local : ℕ} {slots : List (Slot (Option T))}
      → FreeLists c page local slots [] []
      → FreeLists c (drained c page) local slots [] []
  full_page f = record {
    allocated = f.allocated;
    sized = f.sized;
    null_outside = f.null_outside;
    local_chain = f.local_chain;
    remote_chain = f.null_outside;
    remote_end = λ e. refl;
    remote_quiet = refl;
    local_distinct = tt;
    remote_distinct = tt;
    apart = tt;
  }

-- How `insert` ends on the page: it takes a slot that was not in use, or every slot is in use.
abbrev pub Inserts :
    {T : Type 0} (c : Config) (page : Shared (Option T)) (local : ℕ) (held : Held (T × ℕ))
    (value : T)
    → Type 0
Inserts c page local held value =
    let ran = init_with c option_clear (insert_init c value) [] local page in
    ((x gen local' : ℕ) × (page' : Shared (Option _)) × (held x ≡ none)
      × (ran
          ≡ returns (
            some (pack c.width (gen_field c) gen ((x + page.prev_sz) % 2 ^ c.width)),
            local',
            page',
          ))
      × Models c page' local' (bind x (some (value, gen)) held))
    ⊎ (((x : ℕ) → in_use (held x) ≡ one_if (ltb x page.size))
        × (ran ≡ returns (none, local, drained c page))
        × Models c (drained c page) local held)

module _ {T : Type 0} {c : Config} (v : IsConfig c) (value : T) {page : Shared (Option T)}
    {local : ℕ} {held : Held (T × ℕ)} where
  inserts :
      (slots : List (Slot (Option T))) (xs ys : List ℕ)
      → FreeLists c page local slots xs ys
      → SharedOut page.size xs ys held
      → ((o : ℕ) (s : Slot (Option T)) → get_elem? slots o ≡ some s → Stands c (held o) s)
      → page.prev_sz + page.size ≤ 2 ^ c.width
      → Inserts c page local held value
  inserts slots (x ∷ xs) ys f shared stands in_word =
      let (s, found, rest) = f.local_chain.1 in
      let (l, i, word, no_refs) = idle c (held x) s (stands x s found) in
      let free = first_free x (count x xs + count x ys) page.size held (omega (arith, shared x)) in
      inl (
        x,
        l.gen,
        s.next,
        record page { slab = some (set slots x (filled_slot v s l i word no_refs value)) },
        free,
        init_with-first c option_clear (insert_init c value) [] f s found
            (fills v s l i word no_refs value page.prev_sz x),
        record {
          slots = set slots x (filled_slot v s l i word no_refs value);
          xs = xs;
          ys = ys;
          lists =
              set-FreeLists (rest-FreeLists x f) x (filled_slot v s l i word no_refs value)
                f.local_distinct.0 f.apart.0;
          shared_out = λ o.
              used-SharedOut x (count o xs + count o ys) page.size (value, l.gen) held o free
                (omega (arith, shared o));
          stands =
              bind-Stands c slots held x (some (value, l.gen))
                (filled_slot v s l i word no_refs value) found stands
                (no_ref-IsLife v State.present l.gen i.gen_fits, refl, refl);
          in_word = in_word;
        },
      )
  inserts slots [] (y ∷ ys) f shared stands in_word =
      let (s, found, rest) = f.remote_chain.1 in
      let (l, i, word, no_refs) = idle c (held y) s (stands y s found) in
      let free = first_free y (count y ys) page.size held (omega (arith, shared y)) in
      inl (
        y,
        l.gen,
        s.next,
        record (drained c page) {
          slab = some (set slots y (filled_slot v s l i word no_refs value));
        },
        free,
        init_with-drained c option_clear (insert_init c value) [] f s found
            (fills v s l i word no_refs value page.prev_sz y),
        record {
          slots = set slots y (filled_slot v s l i word no_refs value);
          xs = ys;
          ys = [];
          lists =
              set-FreeLists (moved-FreeLists y f) y (filled_slot v s l i word no_refs value)
                f.remote_distinct.0 tt;
          shared_out = λ o.
              let h =
                used-SharedOut y (count o ys) page.size (value, l.gen) held o free
                  (omega (arith, shared o)) in
              omega (arith, h);
          stands =
              bind-Stands c slots held y (some (value, l.gen))
                (filled_slot v s l i word no_refs value) found stands
                (no_ref-IsLife v State.present l.gen i.gen_fits, refl, refl);
          in_word = in_word;
        },
      )
  inserts slots [] [] f shared stands in_word = inr (
    (λ x. omega (arith, shared x)),
    init_with_full c option_clear (insert_init c value) [] f,
    record {
      slots = slots;
      xs = [];
      ys = [];
      lists = full_page c f;
      shared_out = shared;
      stands = stands;
      in_word = in_word;
    },
  )

  -- On a page that stands for a map, with no other thread interfering, `insert` binds a slot that was
  -- not in use to the value, and returns the slot's generation and address, or every slot of the page is in use, and it returns none
  -- and leaves the map as it was.
  pub page-Inserts : Models c page local held → Inserts c page local held value
  page-Inserts m = inserts m.slots m.xs m.ys m.lists m.shared_out m.stands m.in_word
