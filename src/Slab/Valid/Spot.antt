-- ===== src/Slab/Valid/Spot.antt =====
-- The slot of a key in a well-formed slab (src/lib.rs).
use native.Mathlib.Nat.{mod-eq_of_lt, zero-add}
use native.Mathlib.Decide.{dec_lt}
use sharded_slab.Base.{
  ℕ, ◌+◌, ◌-◌, ◌%◌, ◌^◌, ◌≤◌, ◌<◌, ◌≡◌, ◌⊎◌, inl, inr, refl, ap, ◌∙◌, subst, Option-cases, List,
  Option, some, get_elem?, arith,
}
use sharded_slab.Word.Powers.{two_pow_mono}
use sharded_slab.Config.{Config, addr_field}
use sharded_slab.Config.Valid.{IsConfig, key_Fits}
use sharded_slab.Key.{index, indices, unpack_addr, unpack_tid}
use sharded_slab.Key.Bounds.{unpack_addr-lt}
use sharded_slab.Lifecycle.Encode.{mod_wrap}
use sharded_slab.Page.{Shared, offset_in}
use sharded_slab.Page.Chain.{get_elem?-lt}
use sharded_slab.Page.Free.{FreeLists}
use sharded_slab.Shard.{Shard}
use sharded_slab.Shard.Array.{get_shard}
use sharded_slab.Shard.Located.{Located, offset}
use sharded_slab.Shard.Refused.{Absent, no_shard, no_page, no_slot}
use sharded_slab.Slab.{Slab}
use sharded_slab.Slab.Valid.{
  SlotOk, Ready, SlotsOk, Storage, unallocated, allocated, Placed, PageOk, IsValid,
}
use sharded_slab.Slab.Valid.Pages.{PagesOk-get}

-- An offset that is on the page is that of the address.
pub offset_addr :
    (addr prev size w : ℕ)
    → addr < 2 ^ w
    → prev + size ≤ 2 ^ w
    → (addr + 2 ^ w - prev) % 2 ^ w < size
    → prev + (addr + 2 ^ w - prev) % 2 ^ w ≡ addr
offset_addr addr prev size w fits inside h = elim (dec_lt addr prev) [
  | yes below ↦
      let small : (addr + 2 ^ w - prev) % 2 ^ w ≡ addr + 2 ^ w - prev =
        mod-eq_of_lt (omega (arith, below)) in
      absurd (omega (arith, h, small))
  | no above ↦
      let split : addr + 2 ^ w - prev ≡ addr - prev + 2 ^ w = omega (arith, above) in
      let turned : (addr - prev + 2 ^ w) % 2 ^ w ≡ addr - prev =
        mod_wrap (addr - prev) (2 ^ w) (omega arith) in
      rw split (omega (arith, turned, above))
]

-- The slot that the key finds, on an allocated page.
pub record Spot {T : Type 0} (c : Config) (ok : ℕ → SlotOk T) (key : ℕ) (slab : Slab T)
    : Type 0 where
  pub at : Located c (unpack_tid c key) key slab
  pub placed : Placed c at.page_index at.page.size at.page.prev_sz
  pub outside :
      (a : ℕ)
      → index c a ≡ at.page_index
      → (a < at.page.prev_sz) ⊎ (at.page.prev_sz + at.page.size ≤ a)
      → Ready (ok (unpack_tid c key)) a
  pub xs : List ℕ
  pub ys : List ℕ
  pub lists : FreeLists c at.page at.local at.slots xs ys
  pub each : SlotsOk (ok (unpack_tid c key)) at.page.prev_sz at.slots xs ys
  pub addr_eq : at.page.prev_sz + offset at ≡ unpack_addr c key
  pub page_eq : at.page_index ≡ index c (unpack_addr c key)

module _ {T : Type 0} {c : Config} (v : IsConfig c) {ok : ℕ → SlotOk T} {slab : Slab T}
    (valid : IsValid c ok slab) (key : ℕ) where
  on_page :
      (shard : Shard (Option T))
      → get_elem? slab.shards (unpack_tid c key) ≡ some (some shard)
      → (page : Shared (Option T)) → get_elem? shard.shared (indices c key).1 ≡ some page
      → (local : ℕ) → get_elem? shard.local (indices c key).1 ≡ some local
      → Placed c (indices c key).1 page.size page.prev_sz
      → ((a : ℕ)
          → index c a ≡ (indices c key).1
          → (a < page.prev_sz) ⊎ (page.prev_sz + page.size ≤ a)
          → Ready (ok (unpack_tid c key)) a)
      → Storage c (ok (unpack_tid c key)) local page
      → Absent c (unpack_tid c key) key slab ⊎ Spot c ok key slab
  unfolding indices
  on_page shard held page paged local listed placed outside (unallocated e l r ready) =
      inl (no_slot shard page local held paged listed (rw e refl))
  on_page shard held page paged local listed placed outside (allocated slots xs ys f each) =
      elim (Option-cases (get_elem? slots (offset_in c page (unpack_addr c key)))) [
        | inl e ↦ inl (no_slot shard page local held paged listed (rw f.allocated e))
        | inr (s, e) ↦
            let in_word : (addr_field c).len ≤ c.width = omega (arith, (key_Fits v).all_inside) in
            inr (record {
              at = record {
                shard = shard;
                held = held;
                addr = unpack_addr c key;
                page_index = index c (unpack_addr c key);
                split = refl;
                page = page;
                paged = paged;
                local = local;
                listed = listed;
                slots = slots;
                allocated = f.allocated;
                slot = s;
                found = e;
              };
              placed = placed;
              outside = outside;
              xs = xs;
              ys = ys;
              lists = f;
              each = each;
              addr_eq =
                  offset_addr (unpack_addr c key) page.prev_sz page.size c.width
                    (omega (
                      arith,
                      unpack_addr-lt v key,
                      two_pow_mono {a = (addr_field c).len} {b = c.width} in_word,
                    ))
                    (omega (
                      arith,
                      placed.in_addr,
                      two_pow_mono {a = (addr_field c).len} {b = c.width} in_word,
                    ))
                    (omega (arith, get_elem?-lt slots _ e, f.sized));
              page_eq = refl;
            })
      ]

  -- Every key finds a slot, or none.
  pub Spot-cases : Absent c (unpack_tid c key) key slab ⊎ Spot c ok key slab
  unfolding get_shard
  Spot-cases = elim (Option-cases (get_elem? slab.shards (unpack_tid c key))) [
    | inl e ↦ inl (no_shard (rw (get_shard, e) refl))
    | inr (ptr, e) ↦ elim (Option-cases ptr) [
      | inl e' ↦ inl (no_shard (rw (get_shard, e ∙ ap some e') refl))
      | inr (shard, e') ↦
          let held = e ∙ ap some e' in
          elim (Option-cases (get_elem? shard.shared (indices c key).1)) [
            | inl none_there ↦ inl (no_page shard held none_there)
            | inr (page, paged) ↦
                let zero_first : 0 + (indices c key).1 ≡ (indices c key).1 = zero-add _ in
                let (local, listed, h) =
                  PagesOk-get 0 (indices c key).1 shard.local shard.shared page paged
                    (valid.shard _ shard held) in
                let h' : PageOk c (ok (unpack_tid c key)) (indices c key).1 local page =
                  subst (λ (n : ℕ). PageOk c (ok (unpack_tid c key)) n local page) zero_first h in
                on_page shard held page paged local listed h'.placed h'.outside h'.storage
          ]
    ]
  ]
