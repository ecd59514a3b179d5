-- ===== src/Slab/History/Filling.antt =====
-- `insert` on one page of a slab (src/page/mod.rs), among other calls.
use sharded_slab.Base.{
  ℕ, ◌+◌, ◌≤◌, ◌<◌, ◌≡◌, ◌⊎◌, inl, refl, sym, ap, subst, ◌==◌, eq→==, ne→==, List, [], ◌∷◌, Option,
  none, some, get_elem?, set, arith,
}
use sharded_slab.Word.Fields.{two_pow-pos}
use sharded_slab.Config.{Config, ref_count_field}
use sharded_slab.Config.Valid.{IsConfig}
use sharded_slab.Key.{index}
use sharded_slab.Lifecycle.Encode.{Life, IsLife, encode}
use sharded_slab.Slot.Memory.{Slot, Outcome, returns}
use sharded_slab.Slot.Insert.{present_life}
use sharded_slab.Slot.Story.{option_clear}
use sharded_slab.Stack.{TransferStack}
use sharded_slab.Page.{Shared, init_with}
use sharded_slab.Page.Free.{FreeLists, drained, set-FreeLists, rest-FreeLists, moved-FreeLists}
use sharded_slab.Page.Front.{Front, own, returned, init_with-front}
use sharded_slab.Page.Alloc.{init_with_full}
use sharded_slab.Page.Held.{one_if, count, in_use-none}
use sharded_slab.Slab.{insert_init}
use sharded_slab.Slab.Filling.{filled_slot, fills}
use sharded_slab.Slab.PageMap.Inserting.{full_page}
use sharded_slab.Slab.Valid.{SlotOk, Ready, SlotsOk, allocated, Placed, PageOk}
use sharded_slab.Slab.Valid.Slots.{SlotsOk-set}
use sharded_slab.Slab.History.Slots.{Active, SlotValid, no_entries}

module _ {T : Type 0} {c : Config} (v : IsConfig c) (value : T) (entries : List (T × ℕ))
    (s : Slot (Option T)) (h : SlotValid c entries s) (free : s.item ≡ none) where
  pub unreferred : h.life.refs ≡ 0
  unreferred = subst (Active h.life) free h.active

  -- The slot with the value in it.
  abbrev pub filled : Slot (Option T)
  filled = filled_slot v s h.life h.is_life h.word unreferred value

  pub filled-SlotValid : SlotValid c entries filled
  filled-SlotValid =
      subst (λ l. SlotValid c l filled) (sym (no_entries entries s h free))
        (record {
          life = present_life 0 h.life;
          is_life = record {
            refs_fit = two_pow-pos (ref_count_field c).len;
            gen_fits = h.is_life.gen_fits;
          };
          word = refl;
          counted = refl;
          refer = tt;
          active = inl refl;
        })

-- A slot without a value in which `insert` puts the value, at its address.
pub record Usable {T : Type 0} (c : Config) (v : IsConfig c) (ok : SlotOk T) (value : T) (a : ℕ)
    (s : Slot (Option T)) : Type 0 where
  pub life : Life
  pub is_life : IsLife c life
  pub word : s.lifecycle ≡ encode c life
  pub no_refs : life.refs ≡ 0
  pub after : ok a (filled_slot v s life is_life word no_refs value)

-- How `insert` ends on a page.
pub record Filled {T : Type 0} (c : Config) (ok : SlotOk T) (p : ℕ)
    (o : Outcome (Option ℕ × ℕ × Shared (Option T))) : Type 0 where
  pub key : Option ℕ
  pub local : ℕ
  pub page : Shared (Option T)
  pub returned : o ≡ returns (key, local, page)
  pub valid : PageOk c ok p local page

module _ {T : Type 0} {c : Config} (v : IsConfig c) (ok : SlotOk T) (value : T)
    (usable : (a : ℕ) (s : Slot (Option T)) → ok a s → s.item ≡ none → Usable c v ok value a s)
    {p : ℕ} where
  module _ (local : ℕ) (page : Shared (Option T)) (placed : Placed c p page.size page.prev_sz)
      (outside : (a : ℕ)
        → index c a ≡ p
        → (a < page.prev_sz) ⊎ (page.prev_sz + page.size ≤ a)
        → Ready ok a) where
    abbrev pub inserts : Outcome (Option ℕ × ℕ × Shared (Option T))
    inserts = init_with c option_clear (insert_init c value) [] local page

    -- The slot `x` leaves the lists for use.
    pub used-Filled :
        {x : ℕ} {slots : List (Slot (Option T))} {remote : TransferStack} (xs ys xs' ys' : List ℕ)
        → Front c option_clear page local slots x remote
        → (s : Slot (Option T)) → get_elem? slots x ≡ some s
        → SlotsOk ok page.prev_sz slots xs ys
        → ((i : ℕ) → count i xs + count i ys ≡ one_if (i == x) + (count i xs' + count i ys'))
        → ((t : Slot (Option T))
            → FreeLists c
                (record page { remote = remote; slab = some (set slots x t) })
                s.next
                (set slots x t)
                xs'
                ys')
        → Filled c ok p inserts
    used-Filled {x} {slots} {remote} xs ys xs' ys' front s found each moved lists =
        let (fine, once) = each x s found in
        let here = moved x in
        let one : one_if (x == x) ≡ 1 = ap one_if (eq→== x x refl) in
        let free : s.item ≡ none = in_use-none s.item (omega (arith, once, here, one)) in
        let u = usable (page.prev_sz + x) s fine free in
        let t = filled_slot v s u.life u.is_life u.word u.no_refs value in
        let z = fills v s u.life u.is_life u.word u.no_refs value page.prev_sz x in
        record {
          key = some z.value;
          local = s.next;
          page = record page { remote = remote; slab = some (set slots x t) };
          returned = init_with-front option_clear (insert_init c value) [] front s found z;
          valid = record {
            placed = placed;
            outside = outside;
            storage = allocated (set slots x t) xs' ys' (lists t) (
                SlotsOk-set ok ok page.prev_sz slots xs ys xs' ys' x t found (λ i r other h k. k)
                  (λ i other. omega (arith, moved i, ap one_if (ne→== i x other))) u.after
                  (omega (arith, once, here, one)) each);
          };
        }

    pub listed-Filled :
        (slots : List (Slot (Option T))) (xs ys : List ℕ)
        → FreeLists c page local slots xs ys
        → SlotsOk ok page.prev_sz slots xs ys
        → Filled c ok p inserts
    listed-Filled slots (x ∷ xs) ys f each =
        let (s, found, rest) = f.local_chain.1 in
        used-Filled (x ∷ xs) ys xs ys (own f) s found each (λ i. omega arith)
          (λ t. set-FreeLists (rest-FreeLists x f) x t f.local_distinct.0 f.apart.0)
    listed-Filled slots [] (y ∷ ys) f each =
        let (s, found, rest) = f.remote_chain.1 in
        used-Filled [] (y ∷ ys) ys [] (returned f) s found each (λ i. omega arith)
          (λ t. set-FreeLists (moved-FreeLists y f) y t f.remote_distinct.0 tt)
    listed-Filled slots [] [] f each = record {
      key = none;
      local = local;
      page = drained c page;
      returned = init_with_full c option_clear (insert_init c value) [] f;
      valid = record {
        placed = placed;
        outside = outside;
        storage = allocated slots [] [] (full_page c f) each;
      };
    }
