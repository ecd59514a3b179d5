-- ===== src/Shard/Located.antt =====
-- The slot that a key stands for, as the functions of src/shard.rs find it: through the array, the
-- shard and the page.
use sharded_slab.Base.{ℕ, ◌≡◌, refl, List, Option, some, get_elem?, set}
use sharded_slab.Config.{Config}
use sharded_slab.Key.{indices, unpack_gen}
use sharded_slab.Slot.Memory.{Slot, World, Outcome, returns}
use sharded_slab.Stack.{TransferStack}
use sharded_slab.Page.{Shared, offset_in, with_slot}
use sharded_slab.Page.Ops.{on_slot}
use sharded_slab.Page.Chain.{get_elem?-set_same}
use sharded_slab.Shard.{Shard, with_shard_slot, on_local, on_remote}
use sharded_slab.Shard.Array.{Array, Interference, put_shard, on_shard, on_shard-found}

-- In the shard at `idx` the key finds a slot.
pub record Located {T : Type 0} (c : Config) (idx key : ℕ) (array : Array T) : Type 0 where
  pub shard : Shard T
  pub held : get_elem? array.shards idx ≡ some (some shard)
  pub addr : ℕ
  pub page_index : ℕ
  pub split : indices c key ≡ (addr, page_index)
  pub page : Shared T
  pub paged : get_elem? shard.shared page_index ≡ some page
  pub local : ℕ
  pub listed : get_elem? shard.local page_index ≡ some local
  pub slots : List (Slot T)
  pub allocated : page.slab ≡ some slots
  pub slot : Slot T
  pub found : get_elem? slots (offset_in c page addr) ≡ some slot

module _ {T : Type 0} {c : Config} {idx key : ℕ} {array : Array T}
    (z : Located c idx key array) where
  open z use {
    shard, held, addr, page_index, split, page, paged, local, listed, slots, allocated, slot, found,
  }

  abbrev pub offset : ℕ
  offset = offset_in c page addr

  -- The page with another slot at the place.
  abbrev pub page_with : Slot T → Shared T
  page_with s = record page { slab = some (set slots offset s) }

  -- The array with another page and other local lists.
  abbrev pub put_page : Shared T → List ℕ → Array T
  put_page page' locals =
      put_shard idx (record shard { local = locals; shared = set shard.shared page_index page' })
        array

  abbrev pub put : Slot T → Array T
  put s = put_page (page_with s) shard.local

  -- The same with the page's local list beginning at another slot.
  abbrev pub put_local : Slot T → ℕ → Array T
  put_local s head = put_page (page_with s) (set shard.local page_index head)

  abbrev pub put_remote : Slot T → TransferStack → Array T
  put_remote s remote' = put_page (record (page_with s) { remote = remote' }) shard.local

  abbrev pub put-Located : (s : Slot T) → Located c idx key (put s)
  put-Located s = record {
    shard = record shard { shared = set shard.shared page_index (page_with s) };
    held = get_elem?-set_same array.shards idx held;
    addr = addr;
    page_index = page_index;
    split = split;
    page = page_with s;
    paged = get_elem?-set_same shard.shared page_index paged;
    local = local;
    listed = listed;
    slots = set slots offset s;
    allocated = refl;
    slot = s;
    found = get_elem?-set_same slots offset found;
  }

  abbrev pub put_local-Located : (s : Slot T) (head : ℕ) → Located c idx key (put_local s head)
  put_local-Located s head = record {
    shard = record shard {
      local = set shard.local page_index head;
      shared = set shard.shared page_index (page_with s);
    };
    held = get_elem?-set_same array.shards idx held;
    addr = addr;
    page_index = page_index;
    split = split;
    page = page_with s;
    paged = get_elem?-set_same shard.shared page_index paged;
    local = head;
    listed = get_elem?-set_same shard.local page_index listed;
    slots = set slots offset s;
    allocated = refl;
    slot = s;
    found = get_elem?-set_same slots offset found;
  }

  abbrev pub put_remote-Located :
      (s : Slot T) (remote' : TransferStack) → Located c idx key (put_remote s remote')
  put_remote-Located s remote' = record {
    shard = record shard {
      shared = set shard.shared page_index (record (page_with s) { remote = remote' });
    };
    held = get_elem?-set_same array.shards idx held;
    addr = addr;
    page_index = page_index;
    split = split;
    page = record (page_with s) { remote = remote' };
    paged = get_elem?-set_same shard.shared page_index paged;
    local = local;
    listed = listed;
    slots = set slots offset s;
    allocated = refl;
    slot = s;
    found = get_elem?-set_same slots offset found;
  }

  with_slot_located :
      {U : Type 0} (f : World T → Outcome (Option U × World T)) (others : Interference T)
      (result : Option U) (w : World T)
      → f (record { slot = slot; others = others }) ≡ returns (result, w)
      → with_slot c addr f others page ≡ returns (result, page_with w.slot)
  unfolding with_slot
  with_slot_located f others result w e = rw (with_slot, allocated, found, e) (rw allocated refl)

  -- `with_slot` runs the function on the slot, and the slot keeps what the function leaves there.
  pub with_shard_slot_located :
      {U : Type 0} (f : World T → Outcome (Option U × World T)) (others : Interference T)
      (missing result : Option U) (w : World T)
      → f (record { slot = slot; others = others }) ≡ returns (result, w)
      → on_shard missing (λ sh. with_shard_slot c key f others sh) idx array
        ≡ returns (result, put w.slot)
  unfolding with_shard_slot
  with_shard_slot_located f others missing result w e =
      on_shard-found missing _ idx array shard _ result held (
        rw (with_shard_slot, split, paged) (rw (split, with_slot_located f others result w e) refl))

  module _ {A F : Type 0} (missing : A) (op : ℕ → ℕ → F → World T → Outcome (A × F × World T))
      (others : Interference T) (result : A) (free free' : F) (w : World T)
      (e : op (unpack_gen c key) offset free (record { slot = slot; others = others })
        ≡ returns (result, free', w)) where
    on_slot_located :
        on_slot c missing (op (unpack_gen c key)) addr others free page
        ≡ returns (result, free', page_with w.slot)
    unfolding on_slot
    on_slot_located = rw (on_slot, allocated, found, e) (rw allocated refl)

  pub on_local_located :
      {A : Type 0} (missing : A) (op : ℕ → ℕ → ℕ → World T → Outcome (A × ℕ × World T))
      (others : Interference T) (result : A) (head : ℕ) (w : World T)
      → op (unpack_gen c key) offset local (record { slot = slot; others = others })
        ≡ returns (result, head, w)
      → on_local c missing (λ addr gen. on_slot c missing (op gen) addr others) key shard
        ≡ returns (
          result,
          record shard {
            local = set shard.local page_index head;
            shared = set shard.shared page_index (page_with w.slot);
          },
        )
  unfolding on_local
  on_local_located missing op others result head w e =
      rw (on_local, split, paged)
        (rw (split, listed)
          (rw (split, on_slot_located missing op others result local head w e) refl))

  pub on_remote_located :
      {A : Type 0} (missing : A)
      (op : ℕ → ℕ → TransferStack → World T → Outcome (A × TransferStack × World T))
      (others : Interference T) (result : A) (remote' : TransferStack) (w : World T)
      → op (unpack_gen c key) offset page.remote (record { slot = slot; others = others })
        ≡ returns (result, remote', w)
      → on_remote c missing (λ addr gen. on_slot c missing (op gen) addr others) key shard
        ≡ returns (
          result,
          record shard {
            shared = set shard.shared page_index (record (page_with w.slot) { remote = remote' });
          },
        )
  unfolding on_remote
  on_remote_located missing op others result remote' w e =
      rw (on_remote, split, paged)
        (rw (split, on_slot_located missing op others result page.remote remote' w e) refl)
