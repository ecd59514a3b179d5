-- ===== src/Slab/History/Inserting.antt =====
-- `insert` among other calls (src/lib.rs): through the pages of the thread's shard, which it may have
-- to make.
use sharded_slab.Base.{
  ◌≤◌, ◌<◌, arith, ℕ, ◌+◌, ◌≡◌, inl, inr, refl, Option-cases, List, [], ◌∷◌, Option, none, some,
  get_elem?, set,
}
use mathlib.Core.Option
use sharded_slab.Config.{Config, max_shards, tid_field}
use sharded_slab.Config.Valid.{IsConfig}
use sharded_slab.Pack.{pack}
use sharded_slab.Slot.Memory.{Slot, Outcome, returns, panics}
use sharded_slab.Slot.Story.{option_clear}
use sharded_slab.Page.{Shared, init_with}
use sharded_slab.Page.Chain.{get_elem?-set_same, get_elem?-lt}
use sharded_slab.Shard.{Shard, new_shard, init_pages, init_shard}
use sharded_slab.Shard.Array.{current_shard, put_shard, raise_max}
use sharded_slab.Slab.{Slab, insert_init, slab_insert}
use sharded_slab.Slab.Valid.{SlotOk, PagesOk, IsValid}
use sharded_slab.Shard.Highest.{raise_max-bounds}
use sharded_slab.Slab.Valid.Changed.{put_shard-IsValid}
use sharded_slab.Slab.Valid.Fresh.{new_shard-PagesOk}
use sharded_slab.Slab.Valid.Moves.{Ends}
use sharded_slab.Slab.History.{Live}
use sharded_slab.Slab.History.Slots.{each_valid}
use sharded_slab.Slab.History.Filling.{Usable, Filled, unreferred, filled-SlotValid}
use sharded_slab.Slab.History.Fresh.{page-Filled}

-- How `insert` ends on the pages from the `p`-th on.
record Spread {T : Type 0} (c : Config) (ok : SlotOk T) (p : ℕ)
    (o : Outcome (Option ℕ × List ℕ × List (Shared (Option T)))) : Type 0 where
  pub key : Option ℕ
  pub locals : List ℕ
  pub pages : List (Shared (Option T))
  pub returned : o ≡ returns (key, locals, pages)
  pub valid : PagesOk c ok p locals pages

module _ {T : Type 0} {c : Config} (v : IsConfig c) (ok : SlotOk T) (value : T)
    (usable : (a : ℕ) (s : Slot (Option T))
      → ok a s
      → s.item ≡ none
      → Usable c v ok value a s) where
  over :
      (p n local : ℕ) (page : Shared (Option T)) (locals : List ℕ)
      (pages : List (Shared (Option T)))
      → Filled c ok p (init_with c option_clear (insert_init c value) [] local page)
      → PagesOk c ok (p + 1) locals pages
      → Spread c ok
          (p + 1)
          (init_pages c option_clear (insert_init c value) (λ i. []) (n + 1) locals pages)
      → Spread c ok p (
          init_pages c option_clear
            (insert_init c value)
            (λ i. [])
            n
            (local ∷ locals)
            (page ∷ pages))
  unfolding init_pages
  over p n local page locals pages f behind rest = elim (Option-cases f.key) [
    | inl full ↦ record {
      key = rest.key;
      locals = f.local ∷ rest.locals;
      pages = f.page ∷ rest.pages;
      returned = rw (init_pages, f.returned) (rw full (rw rest.returned refl));
      valid = (f.valid, rest.valid);
    }
    | inr (u, found) ↦ record {
      key = some u;
      locals = f.local ∷ locals;
      pages = f.page ∷ pages;
      returned = rw (init_pages, f.returned) (rw found refl);
      valid = (f.valid, behind);
    }
  ]

  pages-Spread :
      (p n : ℕ) (locals : List ℕ) (pages : List (Shared (Option T)))
      → PagesOk c ok p locals pages
      → Spread c ok p (init_pages c option_clear (insert_init c value) (λ i. []) n locals pages)
  unfolding init_pages
  pages-Spread p n [] [] h = record {
    key = none;
    locals = [];
    pages = [];
    returned = refl;
    valid = h;
  }
  pages-Spread p n [] (page ∷ pages) h = absurd h
  pages-Spread p n (local ∷ locals) [] h = absurd h
  pages-Spread p n (local ∷ locals) (page ∷ pages) h =
      over p n local page locals pages (page-Filled v ok value usable local page h.0) h.1
        (pages-Spread (p + 1) (n + 1) locals pages h.1)

raise_max-lt : (me max n : ℕ) → me < n → max < n → raise_max me [] max < n
unfolding raise_max
raise_max-lt me max n h k = ground (arith, h, k)

-- How the shard of the thread is found or made.
pub record Current {T : Type 0} (c : Config) (ok : ℕ → SlotOk T) (me : ℕ)
    (o : Outcome (Shard (Option T) × Slab T)) : Type 0 where
  pub shard : Shard (Option T)
  pub slab : Slab T
  pub returned : o ≡ returns (shard, slab)
  pub held : get_elem? slab.shards me ≡ some (some shard)
  pub valid : IsValid c ok slab

module _ {T : Type 0} {c : Config} (v : IsConfig c) (ok : ℕ → SlotOk T) (me : ℕ) {slab : Slab T}
    (valid : IsValid c ok slab) where
  -- The highest index of a shard is raised.
  raised-IsValid :
      (m : ℕ) → slab.max ≤ m → m < max_shards c → IsValid c ok (record slab { max = m })
  raised-IsValid m up inside = record {
    sized = valid.sized;
    highest = inside;
    covered = λ t shard h. omega (arith, valid.covered t shard h, up);
    shard = valid.shard;
    no_shard = valid.no_shard;
    no_place = valid.no_place;
  }

  pub found_or_made :
      (ptr : Option (Shard (Option T)))
      → get_elem? slab.shards me ≡ some ptr
      → Current c ok me (current_shard c me [] slab)
  unfolding current_shard
  found_or_made (some shard) e = record {
    shard = shard;
    slab = slab;
    returned = rw (current_shard, e) refl;
    held = e;
    valid = valid;
  }
  found_or_made none e =
      let shard = new_shard {T = Option T} c me in
      let m = raise_max me [] slab.max in
      let bounds = raise_max-bounds me [] slab.max tt in
      let here : me < max_shards c = omega (arith, get_elem?-lt slab.shards me e, valid.sized) in
      record {
        shard = shard;
        slab = record { shards = set slab.shards me (some shard); max = raise_max me [] slab.max };
        returned = rw (current_shard, e) refl;
        held = get_elem?-set_same slab.shards me e;
        valid =
            put_shard-IsValid c ok ok (record slab { max = m }) me shard e bounds.0
              (λ i a s other h. h) (new_shard-PagesOk v (ok me) (valid.no_shard me e) me)
              (raised-IsValid m bounds.1
                (raise_max-lt me slab.max (max_shards c) here valid.highest));
      }

  -- `insert` returns and leaves a well-formed slab.
  pub insert_with-Ends :
      (value : T)
      → ((a : ℕ) (s : Slot (Option T)) → ok me a s → s.item ≡ none → Usable c v (ok me) value a s)
      → (ptr : Option (Shard (Option T))) → get_elem? slab.shards me ≡ some ptr
      → (key : Option ℕ) × Ends c ok key (slab_insert c me value (λ page. []) [] slab)
  unfolding slab_insert init_shard
  insert_with-Ends value usable ptr e =
      let cur = found_or_made ptr e in
      let f =
        pages-Spread v (ok me) value usable 0 0 cur.shard.local cur.shard.shared
          (cur.valid.shard me cur.shard cur.held) in
      let shard' = record (cur.shard) { local = f.locals; shared = f.pages } in
      (
        Option.map (λ i. pack c.width (tid_field c) me i) f.key,
        record {
          slab = put_shard me shard' cur.slab;
          returned = rw (slab_insert, cur.returned) (rw (init_shard, f.returned) refl);
          valid =
              put_shard-IsValid c ok ok cur.slab me shard' cur.held
                (cur.valid.covered me cur.shard cur.held) (λ i a s other h. h) f.valid cur.valid;
        },
      )

module _ {T : Type 0} {c : Config} (v : IsConfig c) {live : Live T} {slab : Slab T}
    (valid : IsValid c (each_valid c live) slab) (me : ℕ) (value : T) where
  free_slot-Usable :
      (a : ℕ) (s : Slot (Option T))
      → each_valid c live me a s
      → s.item ≡ none
      → Usable c v (each_valid c live me) value a s
  free_slot-Usable a s h free = record {
    life = h.life;
    is_life = h.is_life;
    word = h.word;
    no_refs = unreferred v value (live me a) s h free;
    after = filled-SlotValid v value (live me a) s h free;
  }

  pub insert-Ends :
      (ptr : Option (Shard (Option T)))
      → get_elem? slab.shards me ≡ some ptr
      → (key : Option ℕ) × Ends c
          (each_valid c live)
          key
          (slab_insert c me value (λ page. []) [] slab)
  insert-Ends = insert_with-Ends v (each_valid c live) me valid value free_slot-Usable

  -- A thread that has no place in the array panics.
  pub insert-panics :
      get_elem? slab.shards me ≡ none → slab_insert c me value (λ page. []) [] slab ≡ panics
  unfolding slab_insert current_shard
  insert-panics e = rw (slab_insert, current_shard, e) refl
