-- ===== src/Page/Removal.antt =====
-- `take` of src/page/mod.rs on an allocated page, with either free list.
use sharded_slab.Base.{
  ℕ, ◌+◌, ◌-◌, ◌^◌, ◌≤◌, ◌<◌, ◌≡◌, refl, List, [], ◌∷◌, Option, none, some, get_elem?, set, arith,
}
use sharded_slab.Config.{Config}
use sharded_slab.Config.Valid.{IsConfig}
use sharded_slab.Lifecycle.Encode.{Life, IsLife, encode, mod_wrap}
use sharded_slab.Slot.Memory.{Slot, World, Outcome, returns}
use sharded_slab.Slot.Ops.{remove_value}
use sharded_slab.Slot.Quiet.{emptied, remove_value-quiet}
use sharded_slab.Stack.{push, set_next, local_list, remote_list}
use sharded_slab.Page.{Shared, offset_in, put_slot}
use sharded_slab.Page.Ops.{on_slot, take}
use sharded_slab.Page.Chain.{Apart}
use sharded_slab.Page.Free.{FreeLists, push_local-FreeLists, push-FreeLists}

-- The slot at an address of the page.
pub record Holds {T : Type 0} (c : Config) (page : Shared T) (slots : List (Slot T))
    (addr offset : ℕ) (s : Slot T) : Type 0 where
  pub on_page : addr ≡ page.prev_sz + offset
  pub in_page : offset < page.size
  pub in_word : page.prev_sz + page.size ≤ 2 ^ c.width
  pub found : get_elem? slots offset ≡ some s

module _ {T : Type 0} {c : Config} {page : Shared T} {slots : List (Slot T)} {addr offset : ℕ}
    {s : Slot T} (h : Holds c page slots addr offset s) where
  pub offset_in_lem : offset_in c page addr ≡ offset
  offset_in_lem =
      let e : addr + 2 ^ c.width - page.prev_sz ≡ offset + 2 ^ c.width = omega (arith, h.on_page) in
      rw e (mod_wrap offset (2 ^ c.width) (omega (arith, h.in_word, h.in_page)))

  pub on_slot-found :
      {F A : Type 0} (missing : A) (op : ℕ → F → World T → Outcome (A × F × World T))
      (others : List (Slot T → Slot T)) (free free' : F) (result : A) (w : World T)
      → page.slab ≡ some slots
      → op offset free (record { slot = s; others = others }) ≡ returns (result, free', w)
      → on_slot c missing op addr others free page
        ≡ returns (result, free', put_slot offset w.slot page)
  unfolding on_slot
  on_slot-found missing op others free free' result w a e =
      rw (on_slot, a, offset_in_lem, h.found) (rw (offset_in_lem, e) (rw a refl))

module _ {T : Type 0} {c : Config} (v : IsConfig c) {page : Shared (Option T)} {local : ℕ}
    {slots : List (Slot (Option T))} {xs ys : List ℕ} (f : FreeLists c page local slots xs ys)
    {addr offset : ℕ} {s : Slot (Option T)} (h : Holds c page slots addr offset s)
    (off_local : Apart offset xs) (off_remote : Apart offset ys) (l : Life) (i : IsLife c l)
    (word : s.lifecycle ≡ encode c l) (no_refs : l.refs ≡ 0) where
  -- `take` returns the value, and the slot begins the local list on the page's own thread, and the
  -- remote list on another one; the two lists stay well-formed and disjoint.
  pub take-FreeLists :
      let pushed = push offset (emptied c s l) page.remote in
      (take c local_list addr l.gen [] local page
        ≡ returns (s.item, offset, put_slot offset (set_next local (emptied c s l)) page))
      × FreeLists c
          (put_slot offset (set_next local (emptied c s l)) page)
          offset
          (set slots offset (set_next local (emptied c s l)))
          (offset ∷ xs)
          ys
      × (take c remote_list addr l.gen [] page.remote page
          ≡ returns (s.item, pushed.1, put_slot offset pushed.0 page))
      × FreeLists c
          (record (put_slot offset pushed.0 page) { remote = pushed.1 })
          local
          (set slots offset (set_next page.remote.head (emptied c s l)))
          xs
          (offset ∷ ys)
  unfolding take
  take-FreeLists = (
    on_slot-found h none (remove_value c local_list l.gen) [] local _ _ _ f.allocated
        (remove_value-quiet v local_list s l i word offset local no_refs),
    push_local-FreeLists f offset (emptied c s l) h.in_page off_local off_remote,
    on_slot-found h none (remove_value c remote_list l.gen) [] page.remote _ _ _ f.allocated
        (remove_value-quiet v remote_list s l i word offset page.remote no_refs),
    push-FreeLists f offset (emptied c s l) h.in_page off_local off_remote,
  )
