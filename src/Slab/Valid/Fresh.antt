-- ===== src/Slab/Valid/Fresh.antt =====
-- The pages of a shard that has just been made (src/shard.rs).
use native.Mathlib.Nat.{pow-zero}
use sharded_slab.Base.{
  ℕ, zero, suc, ◌+◌, ◌*◌, ◌^◌, ◌≤◌, ◌<◌, ◌≡◌, refl, sym, subst, Option, map, arith,
}
use sharded_slab.Word.Fields.{two_pow-pos}
use sharded_slab.Word.Powers.{two_pow-add}
use sharded_slab.Config.{Config, page_size, addr_field}
use sharded_slab.Config.Valid.{IsConfig}
use sharded_slab.Key.{new_sizes}
use sharded_slab.Key.Pages.{
  exponent, before_page, addresses, smaller, page_size_lem, before_page_lem, next_page, grows,
  index_unique,
}
use sharded_slab.Stack.{new}
use sharded_slab.Page.{new_shared, new_local}
use sharded_slab.Shard.{new_shard}
use sharded_slab.Shard.First.{null_addr_eq}
use sharded_slab.Slab.Valid.{SlotOk, Ready, unallocated, Placed, PageOk, PagesOk}

module _ {c : Config} (v : IsConfig c) where
  page_size-Placed : (n : ℕ) → n + 1 ≤ c.max_pages → Placed c n (page_size c n) (before_page v n)
  page_size-Placed n h =
      let size = page_size_lem v n (omega arith) in
      let some : 0 < 2 ^ exponent v * 2 ^ n =
        omega (arith, two_pow-add (exponent v) n, two_pow-pos (exponent v + n)) in
      let inside : before_page v n + page_size c n ≤ 2 ^ (addr_field c).len =
        omega (
          arith,
          size,
          next_page v n,
          before_page_lem v (n + 1),
          smaller v (n + 1) h,
          addresses v,
        ) in
      record {
        some_slots = omega (arith, size, some);
        fits = omega (arith, inside, null_addr_eq v);
        in_addr = inside;
        on_page = λ o less.
            index_unique v (before_page v n + o) n (omega (arith, inside, less)) (omega arith)
              (omega (arith, next_page v n, size, less));
      }

  module _ {T : Type 0} (ok : SlotOk T) (ready : (a : ℕ) → Ready ok a) where
    new_shared-PageOk :
        (n : ℕ)
        → n + 1 ≤ c.max_pages
        → PageOk c ok n new_local (new_shared c (page_size c n) (before_page v n))
    unfolding new_shared new
    new_shared-PageOk n h = record {
      placed = page_size-Placed n h;
      outside = λ a e out. ready a;
      storage = unallocated refl refl refl (λ o less. ready (before_page v n + o));
    }

    sizes-PagesOk :
        (count n : ℕ)
        → n + count ≤ c.max_pages
        → let sizes = new_sizes c count n (before_page v n) in
          PagesOk c ok n
            (map (λ page. new_local) sizes)
            (map (λ page. new_shared c page.size page.prev_sz) sizes)
    unfolding new_sizes
    sizes-PagesOk zero n h = λ a e. ready a
    sizes-PagesOk (suc count) n h = (
      new_shared-PageOk n (omega arith),
      subst
          (λ (t : ℕ).
            let sizes = new_sizes c count (n + 1) t in
            PagesOk c ok (n + 1) (map (λ page. new_local) sizes)
              (map (λ page. new_shared c page.size page.prev_sz) sizes))
          (sym (grows v n (omega arith))) (sizes-PagesOk count (n + 1) (omega arith)),
    )

    -- Where no slot has been made, the pages of a new shard are as they should be.
    pub new_shard-PagesOk :
        (me : ℕ)
        → PagesOk c ok 0
            (new_shard {T = Option T} c me).local
            (new_shard {T = Option T} c me).shared
    unfolding new_shard
    new_shard-PagesOk me =
        let first : before_page v 0 ≡ 0 = omega (arith, pow-zero 2) in
        subst
          (λ (t : ℕ).
            let sizes = new_sizes c c.max_pages 0 t in
            PagesOk c ok 0 (map (λ page. new_local) sizes)
              (map (λ page. new_shared c page.size page.prev_sz) sizes))
          first (sizes-PagesOk c.max_pages 0 (omega arith))
