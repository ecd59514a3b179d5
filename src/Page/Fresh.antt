-- ===== src/Page/Fresh.antt =====
-- `allocate` of src/page/mod.rs and the local list of a new page.
use mathlib.Core.List.{List, [], ◌∷◌, ◌++◌, map}
use sharded_slab.Base.{
  ℕ, zero, suc, ◌+◌, ◌-◌, ◌≤◌, ◌<◌, ◌≡◌, refl, sym, ap, subst, ◌∙◌, some, get_elem?, length, All,
  arith,
}
use sharded_slab.Config.{Config, null_addr}
use sharded_slab.Slot.Memory.{Slot}
use sharded_slab.Slot.Ops.{Clear, new_slot}
use sharded_slab.Stack.{new}
use sharded_slab.Page.{new_shared, new_local, range_from, allocate}
use sharded_slab.Page.Chain.{IsChain, Apart, Distinct}
use sharded_slab.Page.Free.{FreeLists}

module _ {A : Type 0} (f : ℕ → A) (z : A) where
  abbrev pub row : ℕ → ℕ → List A
  row count n = map f (range_from count n) ++ (z ∷ [])

  length-row : (count n : ℕ) → length (row count n) ≡ count + 1
  length-row zero n = refl
  length-row (suc count) n = omega (arith, length-row count (n + 1))

  pub row-inside : (count n i : ℕ) → i < count → get_elem? (row count n) i ≡ some (f (n + i))
  row-inside zero n i h = absurd (omega arith)
  row-inside (suc count) n zero h = let e : n + 0 ≡ n = omega arith in ap (λ m. some (f m)) (sym e)
  row-inside (suc count) n (suc i) h =
      let e : n + 1 + i ≡ n + suc i = omega arith in
      row-inside count (n + 1) i (omega arith) ∙ ap (λ m. some (f m)) e

  row-last : (count n : ℕ) → get_elem? (row count n) count ≡ some z
  row-last zero n = refl
  row-last (suc count) n = row-last count (n + 1)

range-Apart : (count n x : ℕ) → x < n → Apart x (range_from count n)
range-Apart zero n x h = tt
range-Apart (suc count) n x h = ((λ e. omega (arith, e)), range-Apart count (n + 1) x (omega arith))

range-Distinct : (count n : ℕ) → Distinct (range_from count n)
range-Distinct zero n = tt
range-Distinct (suc count) n =
    (range-Apart count (n + 1) n (omega arith), range-Distinct count (n + 1))

module _ {T : Type 0} (c : Config) (cl : Clear T) (last : ℕ) where
  abbrev pub fresh : List (Slot T)
  fresh = row (new_slot cl) (new_slot cl (null_addr c)) last 1

  -- The chain from the slot `i` on, with `count` slots behind it.
  fresh-IsChain :
      last + 1 ≤ null_addr c
      → (count i : ℕ) → i + count ≡ last
      → IsChain (last + 1) fresh i (range_from (suc count) i)
  unfolding new_slot
  fresh-IsChain h zero i e =
      let at_end : i ≡ last = omega (arith, e) in
      (
        refl,
        (
          new_slot cl (null_addr c),
          ap (get_elem? fresh) at_end ∙ row-last (new_slot cl) (new_slot cl (null_addr c)) last 1,
          h,
        ),
      )
  fresh-IsChain h (suc count) i e =
      let turned : i + 1 ≡ 1 + i = omega arith in
      (
        refl,
        (
          new_slot cl (1 + i),
          row-inside (new_slot cl) (new_slot cl (null_addr c)) last 1 i (omega arith),
          subst (λ (j : ℕ). IsChain (last + 1) fresh j (range_from (suc count) (i + 1))) turned
              (fresh-IsChain h count (i + 1) (omega (arith, e))),
        ),
      )

-- The local list of a page that has just been allocated, with its head 0, holds every slot, in order.
pub allocate-FreeLists :
    {T : Type 0} (c : Config) (cl : Clear T) (size prev_sz : ℕ)
    → 1 ≤ size
    → size ≤ null_addr c
    → let page = allocate c cl (new_shared c size prev_sz) in
      FreeLists c page new_local (fresh c cl (size - 1)) (range_from size 0) []
unfolding allocate new_shared new
allocate-FreeLists c cl size prev_sz some_slots fits =
    let e : size - 1 + 1 ≡ size = omega arith in
    let e' : suc (size - 1) ≡ size = omega arith in
    record {
      allocated = refl;
      sized = length-row _ _ (size - 1) 1 ∙ e;
      null_outside = fits;
      local_chain =
          subst (λ (n : ℕ). IsChain n (fresh c cl (size - 1)) 0 (range_from size 0)) e
            (subst (λ (n : ℕ). IsChain (size - 1 + 1) (fresh c cl (size - 1)) 0 (range_from n 0)) e'
              (fresh-IsChain c cl (size - 1) (omega arith) (size - 1) 0 (omega arith)));
      remote_chain = fits;
      remote_end = λ h. refl;
      remote_quiet = refl;
      local_distinct = range-Distinct size 0;
      remote_distinct = tt;
      apart = go (range_from size 0);
    }
  where
    go : (zs : List ℕ) → All (λ z. Apart z []) zs
    go [] = tt
    go (z ∷ zs) = (tt, go zs)
