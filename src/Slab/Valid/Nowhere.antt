-- ===== src/Slab/Valid/Nowhere.antt =====
-- The keys that find no slot in a well-formed slab (src/lib.rs).
use native.Mathlib.Nat.{zero-add}
use native.Mathlib.Decide.{dec_lt, dec_le}
use sharded_slab.Base.{
  ℕ, zero, suc, ◌+◌, ◌-◌, ◌%◌, ◌^◌, ◌≤◌, ◌<◌, ◌≡◌, inl, inr, refl, sym, ap, ◌∙◌, subst,
  Option-cases, List, [], ◌∷◌, Option, none, some, get_elem?, arith,
}
use sharded_slab.Word.Powers.{two_pow_mono}
use sharded_slab.Config.{Config, addr_field}
use sharded_slab.Config.Valid.{IsConfig, key_Fits}
use sharded_slab.Key.{index, indices, unpack_addr, unpack_tid}
use sharded_slab.Key.Bounds.{unpack_addr-lt}
use sharded_slab.Lifecycle.Encode.{mod_wrap}
use sharded_slab.Page.{Shared, slot_at, offset_in}
use sharded_slab.Page.Chain.{get_elem?-inside}
use sharded_slab.Shard.Array.{get_shard}
use sharded_slab.Shard.Refused.{Absent, no_shard, no_page, no_slot}
use sharded_slab.Slab.{Slab}
use sharded_slab.Slab.Valid.{
  SlotOk, Ready, Storage, unallocated, allocated, PageOk, PagesOk, IsValid,
}
use sharded_slab.Slab.Valid.Pages.{PagesOk-get}

-- An address of the page is its offset there.
pub addr_offset :
    (addr prev w : ℕ) → addr < 2 ^ w → prev ≤ addr → (addr + 2 ^ w - prev) % 2 ^ w ≡ addr - prev
addr_offset addr prev w fits le =
    let split : addr + 2 ^ w - prev ≡ addr - prev + 2 ^ w = omega (arith, le) in
    let turned : (addr - prev + 2 ^ w) % 2 ^ w ≡ addr - prev =
      mod_wrap (addr - prev) (2 ^ w) (omega arith) in
    rw split turned

module _ {T : Type 0} (c : Config) (ok : SlotOk T) where
  -- There are no slots past the last page.
  PagesOk-past :
      (p i : ℕ) (locals : List ℕ) (pages : List (Shared (Option T)))
      → get_elem? pages i ≡ none
      → PagesOk c ok p locals pages
      → (a : ℕ) → p + i ≤ index c a
      → Ready ok a
  PagesOk-past p i [] [] past h a le = h a (omega (arith, le))
  PagesOk-past p i [] (page ∷ pages) past h a le = absurd h
  PagesOk-past p i (local ∷ locals) [] past h a le = absurd h
  PagesOk-past p zero (local ∷ locals) (page ∷ pages) past h a le = absurd cc
  PagesOk-past p (suc i) (local ∷ locals) (page ∷ pages) past h a le =
      PagesOk-past (p + 1) i locals pages past h.1 a (omega (arith, le))

module _ {T : Type 0} {c : Config} (v : IsConfig c) {ok : ℕ → SlotOk T} {slab : Slab T}
    (valid : IsValid c ok slab) (key : ℕ) where
  off_page :
      (page : Shared (Option T)) (local : ℕ)
      → PageOk c (ok (unpack_tid c key)) (index c (unpack_addr c key)) local page
      → Storage c (ok (unpack_tid c key)) local page
      → slot_at page (offset_in c page (unpack_addr c key)) ≡ none
      → page.prev_sz ≤ unpack_addr c key
      → unpack_addr c key < page.prev_sz + page.size
      → Ready (ok (unpack_tid c key)) (unpack_addr c key)
  off_page page local h (unallocated e l r ready) gone above below =
      let same : page.prev_sz + (unpack_addr c key - page.prev_sz) ≡ unpack_addr c key =
        omega (arith, above) in
      subst (λ (a : ℕ). Ready (ok (unpack_tid c key)) a) same
        (ready (unpack_addr c key - page.prev_sz) (omega (arith, above, below)))
  off_page page local h (allocated slots xs ys f each) gone above below =
      let in_word : (addr_field c).len ≤ c.width = omega (arith, (key_Fits v).all_inside) in
      let at : offset_in c page (unpack_addr c key) ≡ unpack_addr c key - page.prev_sz =
        addr_offset (unpack_addr c key) page.prev_sz c.width
          (omega (
            arith,
            unpack_addr-lt v key,
            two_pow_mono {a = (addr_field c).len} {b = c.width} in_word,
          ))
          above in
      let (s, there) =
        get_elem?-inside slots (offset_in c page (unpack_addr c key))
          (omega (arith, at, f.sized, above, below)) in
      let found : slot_at page (offset_in c page (unpack_addr c key)) ≡ some s =
        rw f.allocated there in
      absurd (let e = sym found ∙ gone in cc)

  no_slot-Ready :
      (page : Shared (Option T)) (local : ℕ)
      → PageOk c (ok (unpack_tid c key)) (index c (unpack_addr c key)) local page
      → slot_at page (offset_in c page (unpack_addr c key)) ≡ none
      → Ready (ok (unpack_tid c key)) (unpack_addr c key)
  no_slot-Ready page local h gone = elim (dec_le page.prev_sz (unpack_addr c key)) [
    | no low ↦ h.outside (unpack_addr c key) refl (inl (omega (arith, low)))
    | yes above ↦ elim (dec_lt (unpack_addr c key) (page.prev_sz + page.size)) [
      | no high ↦ h.outside (unpack_addr c key) refl (inr (omega (arith, high)))
      | yes below ↦ off_page page local h h.storage gone above below
    ]
  ]

  -- Where a key finds no slot, none has been made.
  pub missing-Ready :
      Absent c (unpack_tid c key) key slab → Ready (ok (unpack_tid c key)) (unpack_addr c key)
  unfolding get_shard indices
  missing-Ready (no_shard h) = elim (Option-cases (get_elem? slab.shards (unpack_tid c key))) [
    | inl e ↦ valid.no_place _ e (unpack_addr c key)
    | inr (ptr, e) ↦ elim (Option-cases ptr) [
      | inl e' ↦ valid.no_shard _ (e ∙ ap some e') (unpack_addr c key)
      | inr (shard, e') ↦
          let there : get_shard (unpack_tid c key) slab ≡ some shard =
            rw (get_shard, e ∙ ap some e') refl in
          absurd (let q = sym there ∙ h in cc)
    ]
  ]
  missing-Ready (no_page shard held h) =
      PagesOk-past c (ok (unpack_tid c key)) 0 (index c (unpack_addr c key)) shard.local
        shard.shared h (valid.shard _ shard held) (unpack_addr c key) (omega arith)
  missing-Ready (no_slot shard page local held paged listed h) =
      let (l, listed', at) =
        PagesOk-get 0 (index c (unpack_addr c key)) shard.local shard.shared page paged
          (valid.shard _ shard held) in
      no_slot-Ready page l
        (subst (λ (n : ℕ). PageOk c (ok (unpack_tid c key)) n l page) (zero-add _) at) h
