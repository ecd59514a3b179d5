-- ===== src/Slab/Valid/Changed.antt =====
-- A well-formed slab (src/lib.rs) in which the slot of a key changes.
use sharded_slab.Base.{
  ◌≤◌, ℕ, ◌+◌, ◌≡◌, ◌≢◌, ◌⊎◌, inl, inr, sym, ap, ◌∙◌, subst, Bool-cases, false, ◌==◌, ==→eq, Option,
  none, some, get_elem?, set, arith,
}
use mathlib.Core.Option.{some-injective}
use native.Mathlib.Nat.{zero-add}
use sharded_slab.Config.{Config}
use sharded_slab.Key.{index, unpack_addr, unpack_tid}
use sharded_slab.Slot.Memory.{Slot}
use sharded_slab.Stack.{push, set_next}
use sharded_slab.Page.{Shared}
use sharded_slab.Page.Chain.{get_elem?-set_same, get_elem?-set_other, length-set}
use sharded_slab.Page.Held.{in_use}
use sharded_slab.Shard.{Shard}
use sharded_slab.Shard.Array.{put_shard}
use sharded_slab.Shard.Located.{offset, page_with, put_page, put, put_local, put_remote}
use sharded_slab.Shard.Refused.{set-same}
use sharded_slab.Slab.{Slab}
use sharded_slab.Slab.Valid.{SlotOk, PageOk, PagesOk, IsValid}
use sharded_slab.Slab.Valid.Pages.{PagesOk-set, PagesOk-kept}
use sharded_slab.Slab.Valid.Slots.{kept-PageOk, freed_local-PageOk, freed_remote-PageOk}
use sharded_slab.Slab.Valid.Spot.{Spot}

-- One shard of the slab is another one.
pub put_shard-IsValid :
    {T : Type 0} (c : Config) (ok ok' : ℕ → SlotOk T) (slab : Slab T) (t : ℕ)
    (shard' : Shard (Option T)) {ptr : Option (Shard (Option T))}
    → get_elem? slab.shards t ≡ some ptr
    → t ≤ slab.max
    → ((i a : ℕ) (s : Slot (Option T)) → i ≢ t → ok i a s → ok' i a s)
    → PagesOk c (ok' t) 0 shard'.local shard'.shared
    → IsValid c ok slab
    → IsValid c ok' (put_shard t shard' slab)
put_shard-IsValid {T} c ok ok' slab t shard' found low keep new valid = record {
  highest = valid.highest;
  covered = λ i sh h. elim (Bool-cases (i == t)) [
    | inl e ↦ omega (arith, low, ==→eq i t e)
    | inr e ↦ valid.covered i sh (before i (apart i e) h)
  ];
  sized = length-set slab.shards t (some shard') ∙ valid.sized;
  shard = λ i sh h. elim (Bool-cases (i == t)) [
    | inl e ↦
        let at : i ≡ t = ==→eq i t e in
        let same : shard' ≡ sh = some-injective _ _ (some-injective _ _ (now i at ∙ h)) in
        subst (λ (j : ℕ). PagesOk c (ok' j) 0 sh.local sh.shared) (sym at)
          (subst (λ r. PagesOk c (ok' t) 0 r.local r.shared) same new)
    | inr e ↦
        let other = apart i e in
        PagesOk-kept c (ok i) (ok' i) 0 sh.local sh.shared (λ a s le. keep i a s other)
          (valid.shard i sh (before i other h))
  ];
  no_shard = λ i h a next. elim (Bool-cases (i == t)) [
    | inl e ↦ absurd (taken i (==→eq i t e) none (λ q. cc) h)
    | inr e ↦ keep i a _ (apart i e) (valid.no_shard i (before i (apart i e) h) a next)
  ];
  no_place = λ i h a next. elim (Bool-cases (i == t)) [
    | inl e ↦ absurd (missing i (==→eq i t e) h)
    | inr e ↦ keep i a _ (apart i e) (valid.no_place i (before i (apart i e) h) a next)
  ];
}
  where
    apart : (i : ℕ) → (i == t) ≡ false → i ≢ t
    apart i e q = ground (arith, q, e)

    now : (i : ℕ) → i ≡ t → some (some shard') ≡ get_elem? (put_shard t shard' slab).shards i
    now i at = sym (
        ap (get_elem? (put_shard t shard' slab).shards) at ∙ get_elem?-set_same slab.shards t found)

    before :
        (i : ℕ)
        → i ≢ t
        → {r : Option (Option (Shard (Option T)))}
        → get_elem? (put_shard t shard' slab).shards i ≡ r
        → get_elem? slab.shards i ≡ r
    before i other h = sym (get_elem?-set_other slab.shards t i _ (λ q. other (sym q))) ∙ h

    taken :
        (i : ℕ)
        → i ≡ t
        → (r : Option (Shard (Option T))) → (some shard' ≢ r)
        → get_elem? (put_shard t shard' slab).shards i ≢ some r
    taken i at r ne h = ne (some-injective _ _ (now i at ∙ h))

    missing : (i : ℕ) → i ≡ t → get_elem? (put_shard t shard' slab).shards i ≢ none
    missing i at h = let e = now i at ∙ h in cc

module _ {T : Type 0} {c : Config} (ok ok' : ℕ → SlotOk T) {key : ℕ} {slab : Slab T}
    (valid : IsValid c ok slab) (spot : Spot c ok key slab)
    (keep : (t a : ℕ) (s : Slot (Option T))
      → (t ≢ unpack_tid c key) ⊎ (a ≢ unpack_addr c key)
      → ok t a s
      → ok' t a s) where
  -- The page of the key is another one.
  put_page-IsValid :
      (page' : Shared (Option T)) (local' : ℕ)
      → PageOk c (ok' (unpack_tid c key)) spot.at.page_index local' page'
      → IsValid c ok' (put_page spot.at page' (set spot.at.shard.local spot.at.page_index local'))
  put_page-IsValid page' local' new =
      let z = spot.at in
      put_shard-IsValid c ok ok' slab (unpack_tid c key) _ z.held (valid.covered _ z.shard z.held)
        (λ i a s other. keep i a s (inl other))
        (PagesOk-set c (ok (unpack_tid c key)) (ok' (unpack_tid c key)) 0 z.page_index z.shard.local
          z.shard.shared local' z.page page'
          (λ a s other.
            keep _ a s
              (inr (λ same. other (ap (index c) same ∙ sym spot.page_eq ∙ sym (zero-add _)))))
          z.paged
          (subst (λ (n : ℕ). PageOk c (ok' (unpack_tid c key)) n local' page') (sym (zero-add _))
            new)
          (valid.shard _ z.shard z.held))
        valid

  keep_page :
      (a : ℕ) (s : Slot (Option T))
      → index c a ≡ spot.at.page_index
      → a ≢ spot.at.page.prev_sz + offset spot.at
      → ok (unpack_tid c key) a s
      → ok' (unpack_tid c key) a s
  keep_page a s e other = keep _ a s (inr (λ same. other (same ∙ sym spot.addr_eq)))

  module _ (busy : in_use spot.at.slot.item ≡ 1) (t : Slot (Option T)) where
    -- The slot keeps a value.
    pub put-IsValid :
        in_use t.item ≡ 1
        → ok' (unpack_tid c key) (unpack_addr c key) t
        → IsValid c ok' (put spot.at t)
    put-IsValid still new =
        let z = spot.at in
        subst (λ l. IsValid c ok' (put_page z (page_with z t) l))
          (set-same z.shard.local z.page_index z.listed)
          (put_page-IsValid (page_with z t) z.local (
            kept-PageOk spot.placed spot.outside spot.lists spot.each (offset z) z.found busy
              keep_page t still (subst (λ a. ok' (unpack_tid c key) a t) (sym spot.addr_eq) new)))

    -- The slot is freed by the shard's own thread.
    pub put_local-IsValid :
        t.item ≡ none
        → ok' (unpack_tid c key) (unpack_addr c key) (set_next spot.at.local t)
        → IsValid c ok' (put_local spot.at (set_next spot.at.local t) (offset spot.at))
    put_local-IsValid gone new =
        let z = spot.at in
        put_page-IsValid (page_with z (set_next z.local t)) (offset z) (
          freed_local-PageOk spot.placed spot.outside spot.lists spot.each (offset z) z.found busy
            keep_page t gone
            (subst (λ a. ok' (unpack_tid c key) a (set_next z.local t)) (sym spot.addr_eq) new))

    -- By another thread.
    pub put_remote-IsValid :
        let pushed = push (offset spot.at) t spot.at.page.remote in
        t.item ≡ none
        → ok' (unpack_tid c key) (unpack_addr c key) pushed.0
        → IsValid c ok' (put_remote spot.at pushed.0 pushed.1)
    put_remote-IsValid gone new =
        let z = spot.at in
        let pushed = push (offset z) t z.page.remote in
        subst
          (λ l. IsValid c ok' (put_page z (record (page_with z pushed.0) { remote = pushed.1 }) l))
          (set-same z.shard.local z.page_index z.listed)
          (put_page-IsValid (record (page_with z pushed.0) { remote = pushed.1 }) z.local
            (freed_remote-PageOk spot.placed spot.outside spot.lists spot.each (offset z) z.found
              busy keep_page t gone
              (subst (λ a. ok' (unpack_tid c key) a pushed.0) (sym spot.addr_eq) new)))
