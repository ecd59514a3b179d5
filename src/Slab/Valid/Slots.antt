-- ===== src/Slab/Valid/Slots.antt =====
-- A slot in use on a well-formed page (src/page/mod.rs) that changes, or that is freed.
use sharded_slab.Base.{
  ℕ, ◌+◌, ◌≤◌, ◌<◌, ◌≡◌, ◌≢◌, ◌⊎◌, inl, inr, refl, sym, ap, ◌∙◌, subst, Bool-cases, ◌==◌, ==→eq,
  false, ne→==, eq→==, List, ◌∷◌, Option, none, some, get_elem?, set, arith,
}
use mathlib.Core.Option.{some-injective}
use sharded_slab.Config.{Config}
use sharded_slab.Key.{index}
use sharded_slab.Slot.Memory.{Slot}
use sharded_slab.Stack.{push, set_next}
use sharded_slab.Page.{Shared, put_slot}
use sharded_slab.Page.Chain.{get_elem?-lt, get_elem?-set_same, get_elem?-set_other}
use sharded_slab.Page.Free.{
  FreeLists, put_slot_allocated, push-quiet, set-FreeLists, push_local-FreeLists, push-FreeLists,
}
use sharded_slab.Page.Held.{one_if, count, in_use, count-Apart}
use sharded_slab.Slab.Valid.{SlotOk, Ready, SlotsOk, allocated, Placed, PageOk}

-- One slot of the page is another one.
pub SlotsOk-set :
    {T : Type 0} (ok ok' : SlotOk T) (prev_sz : ℕ) (slots : List (Slot (Option T)))
    (xs ys xs' ys' : List ℕ) (o : ℕ) (t : Slot (Option T)) {u : Slot (Option T)}
    → get_elem? slots o ≡ some u
    → ((i : ℕ) (s : Slot (Option T))
        → i ≢ o
        → get_elem? slots i ≡ some s
        → ok (prev_sz + i) s
        → ok' (prev_sz + i) s)
    → ((i : ℕ) → i ≢ o → count i xs' + count i ys' ≡ count i xs + count i ys)
    → ok' (prev_sz + o) t
    → count o xs' + count o ys' + in_use t.item ≡ 1
    → SlotsOk ok prev_sz slots xs ys
    → SlotsOk ok' prev_sz (set slots o t) xs' ys'
SlotsOk-set ok ok' prev_sz slots xs ys xs' ys' o t found keep same new one each i s h =
    elim (Bool-cases (i == o)) [
      | inl e ↦
          let at : i ≡ o = ==→eq i o e in
          let is : t ≡ s = some-injective _ _ (
            sym (get_elem?-set_same slots o found) ∙ ap (get_elem? (set slots o t)) (sym at) ∙ h) in
          subst (λ (j : ℕ). ok' (prev_sz + j) s × (count j xs' + count j ys' + in_use s.item ≡ 1))
            (sym at)
            (subst (λ r. ok' (prev_sz + o) r × (count o xs' + count o ys' + in_use r.item ≡ 1)) is
              (new, one))
      | inr e ↦
          let other : i ≢ o = λ q. ground (arith, q, e) in
          let old = sym (get_elem?-set_other slots o i t (λ q. other (sym q))) ∙ h in
          let (fine, once) = each i s old in
          (keep i s other old fine, omega (arith, same i other, once))
    ]

module _ {T : Type 0} {c : Config} {ok ok' : SlotOk T} {p local : ℕ} {page : Shared (Option T)}
    (placed : Placed c p page.size page.prev_sz)
    (outside : (a : ℕ)
      → index c a ≡ p
      → (a < page.prev_sz) ⊎ (page.prev_sz + page.size ≤ a)
      → Ready ok a)
    {slots : List (Slot (Option T))} {xs ys : List ℕ} (f : FreeLists c page local slots xs ys)
    (each : SlotsOk ok page.prev_sz slots xs ys) (o : ℕ) {s : Slot (Option T)}
    (found : get_elem? slots o ≡ some s) (busy : in_use s.item ≡ 1)
    (keep : (a : ℕ) (t : Slot (Option T)) → index c a ≡ p → a ≢ page.prev_sz + o → ok a t → ok' a t)
    (t : Slot (Option T)) where
  inside : o < page.size
  inside = omega (arith, get_elem?-lt slots o found, f.sized)

  off_local : count o xs ≡ 0
  off_local = omega (arith, (each o s found).1, busy)

  off_remote : count o ys ≡ 0
  off_remote = omega (arith, (each o s found).1, busy)

  outside' :
      (a : ℕ) → index c a ≡ p → (a < page.prev_sz) ⊎ (page.prev_sz + page.size ≤ a) → Ready ok' a
  outside' a e (inl low) next =
      keep a _ e (λ same. omega (arith, same, low)) (outside a e (inl low) next)
  outside' a e (inr high) next =
      keep a _ e (λ same. omega (arith, same, high, inside)) (outside a e (inr high) next)

  keep_slot :
      (i : ℕ) (u : Slot (Option T))
      → i ≢ o
      → get_elem? slots i ≡ some u
      → ok (page.prev_sz + i) u
      → ok' (page.prev_sz + i) u
  keep_slot i u other h =
      keep _ u (placed.on_page i (omega (arith, get_elem?-lt slots i h, f.sized)))
        (λ same. other (omega (arith, same)))

  unlisted : (i : ℕ) → i ≢ o → (i == o) ≡ false
  unlisted i other = ne→== i o other

  -- The slot keeps its value.
  pub kept-PageOk :
      in_use t.item ≡ 1
      → ok' (page.prev_sz + o) t
      → PageOk c ok' p local (record page { slab = some (set slots o t) })
  kept-PageOk still new = record {
    placed = placed;
    outside = outside';
    storage =
        allocated (set slots o t) xs ys
          (set-FreeLists f o t (count-Apart o xs off_local) (count-Apart o ys off_remote))
          (SlotsOk-set ok ok' page.prev_sz slots xs ys xs ys o t found keep_slot (λ i other. refl)
            new (omega (arith, off_local, off_remote, still)) each);
  }

  -- The slot has lost its value, and goes on the local list.
  pub freed_local-PageOk :
      t.item ≡ none
      → ok' (page.prev_sz + o) (set_next local t)
      → PageOk c ok' p o (record page { slab = some (set slots o (set_next local t)) })
  freed_local-PageOk gone new = record {
    placed = placed;
    outside = outside';
    storage =
        allocated (set slots o (set_next local t)) (o ∷ xs) ys
          (subst (λ q. FreeLists c q o (set slots o (set_next local t)) (o ∷ xs) ys)
            (put_slot_allocated page slots o (set_next local t) f.allocated)
            (push_local-FreeLists f o t inside (count-Apart o xs off_local)
              (count-Apart o ys off_remote)))
          (SlotsOk-set ok ok' page.prev_sz slots xs ys (o ∷ xs) ys o (set_next local t) found
            keep_slot (λ i other. omega (arith, ap one_if (unlisted i other))) new
            (omega (arith, ap one_if (eq→== o o refl), off_local, off_remote, ap in_use gone))
            each);
  }

  -- The same on the remote list.
  pub freed_remote-PageOk :
      t.item ≡ none
      → ok' (page.prev_sz + o) (push o t page.remote).0
      → PageOk c ok' p local (record page {
        slab = some (set slots o (push o t page.remote).0);
        remote = (push o t page.remote).1;
      })
  freed_remote-PageOk gone new =
      let pushed = push o t page.remote in
      let is : pushed.0 ≡ set_next page.remote.head t =
        ap (λ r. r.0) (push-quiet o t page.remote f.remote_quiet) in
      record {
        placed = placed;
        outside = outside';
        storage =
            allocated (set slots o pushed.0) xs (o ∷ ys)
              (subst
                (λ q.
                  FreeLists c (record q { remote = pushed.1 }) local (set slots o pushed.0) xs
                    (o ∷ ys))
                (put_slot_allocated page slots o pushed.0 f.allocated)
                (subst
                  (λ r.
                    FreeLists c (record (put_slot o pushed.0 page) { remote = pushed.1 }) local
                      (set slots o r) xs (o ∷ ys))
                  (sym is)
                  (push-FreeLists f o t inside (count-Apart o xs off_local)
                    (count-Apart o ys off_remote))))
              (SlotsOk-set ok ok' page.prev_sz slots xs ys xs (o ∷ ys) o pushed.0 found keep_slot
                (λ i other. omega (arith, ap one_if (unlisted i other))) new
                (omega (
                  arith,
                  ap one_if (eq→== o o refl),
                  off_local,
                  off_remote,
                  ap in_use (ap (λ r. r.item) is ∙ gone),
                ))
                each);
      }
