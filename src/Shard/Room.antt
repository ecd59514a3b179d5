-- ===== src/Shard/Room.antt =====
-- A shard of src/shard.rs with a free slot, and what `Shard::init_with` makes of it.
use native.Mathlib.Nat.{mod-eq_of_lt}
use sharded_slab.Base.{
  ℕ, ◌+◌, ◌-◌, ◌%◌, ◌^◌, ◌<◌, ◌≡◌, refl, ap, ◌∙◌, List, [], ◌∷◌, ◌++◌, Option, some, get_elem?, set,
  length, All, arith,
}
use sharded_slab.Config.{Config, addr_field, tid_field}
use sharded_slab.Config.Valid.{IsConfig, key_Fits}
use sharded_slab.Word.Powers.{two_pow_mono}
use sharded_slab.Key.{insert_key, vacant_key, unpack_tid, unpack_addr, unpack_gen, index, indices}
use sharded_slab.Key.Packing.{KeyParts, key-roundtrip}
use sharded_slab.Lifecycle.Encode.{Life, IsLife, encode, mod_wrap}
use sharded_slab.Slot.Memory.{Slot, World, Outcome, returns}
use sharded_slab.Slot.Ops.{Clear}
use sharded_slab.Stack.{TransferStack}
use sharded_slab.Page.{Shared, offset_in}
use sharded_slab.Page.Chain.{get_elem?-set_same}
use sharded_slab.Page.Free.{drained}
use sharded_slab.Page.Alloc.{Succeeds}
use sharded_slab.Page.Front.{Front, init_with-front}
use sharded_slab.Shard.{Shard, init_pages, init_shard}
use sharded_slab.Shard.Array.{Array, put_shard, current_shard}
use sharded_slab.Shard.Full.{
  Paired, Exhausted, heads, pages_of, drained_pages, get_elem?-after, init_pages-skip,
}
use sharded_slab.Shard.Located.{Located}

-- The thread `me` has a shard, or gets it, in which the pages `fulls` have no free slot and the next
-- page has: `x` is the one that it hands out first.
pub record Room {T : Type 0} (c : Config) (cl : Clear T) (me : ℕ) (array : Array T) : Type 0 where
  pub shard : Shard T
  pub current : Array T
  pub fulls : List (Paired T)
  pub local : ℕ
  pub locals : List ℕ
  pub page : Shared T
  pub pages : List (Shared T)
  pub slots : List (Slot T)
  pub x : ℕ
  pub remote : TransferStack
  pub slot : Slot T
  pub life : Life
  pub found_shard : current_shard c me [] array ≡ returns (shard, current)
  pub held : get_elem? current.shards me ≡ some (some shard)
  pub full : All (Exhausted c) fulls
  pub locals_eq : shard.local ≡ heads fulls ++ (local ∷ locals)
  pub pages_eq : shard.shared ≡ pages_of fulls ++ (page ∷ pages)
  pub front : Front c cl page local slots x remote
  pub found : get_elem? slots x ≡ some slot
  pub is_life : IsLife c life
  pub word : slot.lifecycle ≡ encode c life
  pub no_refs : life.refs ≡ 0
  pub on_page : index c (x + page.prev_sz) ≡ length fulls
  pub addr_fits : x + page.prev_sz < 2 ^ (addr_field c).len
  pub tid_fits : me < 2 ^ (tid_field c).len

module _ {T : Type 0} {c : Config} (v : IsConfig c) {cl : Clear T} {me : ℕ} {array : Array T}
    (room : Room c cl me array) where
  open room use {
    shard, current, fulls, local, locals, page, pages, slots, x, remote, slot, life, found_shard,
    held, full, locals_eq, pages_eq, front, found, is_life, on_page, addr_fits, tid_fits,
  }

  abbrev pub addr : ℕ
  addr = x + page.prev_sz

  -- The index that `init_with` passes to its closure.
  abbrev pub idx : ℕ
  idx = addr % 2 ^ c.width

  -- The key of the slot in its generation.
  abbrev pub key : ℕ
  key = insert_key c me life.gen addr

  in_word : addr < 2 ^ c.width
  in_word = omega (
    arith,
    addr_fits,
    two_pow_mono {a = (addr_field c).len} {b = c.width} (omega (arith, (key_Fits v).all_inside)),
  )

  key_parts : KeyParts c addr me life.gen
  key_parts = record { addr_fits = addr_fits; tid_fits = tid_fits; gen_fits = is_life.gen_fits }

  pub idx_lem : idx ≡ addr
  idx_lem = mod-eq_of_lt in_word

  pub unpack_tid-key : unpack_tid c key ≡ me
  unpack_tid-key = (key-roundtrip v key_parts).2

  pub unpack_addr-key : unpack_addr c key ≡ addr
  unpack_addr-key = (key-roundtrip v key_parts).1

  pub unpack_gen-key : unpack_gen c key ≡ life.gen
  unpack_gen-key = (key-roundtrip v key_parts).3

  pub vacant_key-key : vacant_key c me life.gen addr ≡ key
  vacant_key-key = (key-roundtrip v key_parts).0

  pub indices-key : indices c key ≡ (addr, length fulls)
  unfolding indices
  indices-key =
      ap (λ a. (a, index c a)) (key-roundtrip v key_parts).1 ∙ ap (λ (i : ℕ). (addr, i)) on_page

  pub offset_eq : offset_in c page addr ≡ x
  offset_eq =
      let e : x + page.prev_sz + 2 ^ c.width - page.prev_sz ≡ x + 2 ^ c.width = omega arith in
      rw e (mod_wrap x (2 ^ c.width) (omega (arith, in_word)))

  abbrev pub page_placed : Slot T → Shared T
  page_placed s = record page { remote = remote; slab = some (set slots x s) }

  abbrev pub shard_placed : Slot T → Shard T
  shard_placed s = record shard {
    local = heads fulls ++ (s.next ∷ locals);
    shared = drained_pages c fulls ++ (page_placed s ∷ pages);
  }

  -- The array once the slot has been taken off its list, with the slot as `init` leaves it.
  abbrev pub placed : Slot T → Array T
  placed s = put_shard me (shard_placed s) current

  module _ {U : Type 0} (init : ℕ → World T → Outcome (Option U × World T))
      (z : Succeeds c init [] page.prev_sz x slot) where
    page_taken :
        (j : ℕ)
        → init_pages c cl init (λ p. []) j (local ∷ locals) (page ∷ pages)
          ≡ returns (some z.value, z.world.slot.next ∷ locals, page_placed z.world.slot ∷ pages)
    unfolding init_pages
    page_taken j = rw (init_pages, init_with-front cl init [] front slot found z) refl

    pub init_shard-placed :
        init_shard c cl init (λ p. []) shard ≡ returns (some z.value, shard_placed z.world.slot)
    unfolding init_shard
    init_shard-placed =
        rw
          (
            init_shard,
            locals_eq,
            pages_eq,
            init_pages-skip c cl init fulls _ _ _ _ _ full page_taken 0,
          )
          refl

  -- The key finds the slot there, on any thread.
  abbrev pub placed-Located : (s : Slot T) → Located c (unpack_tid c key) key (placed s)
  placed-Located s = record {
    shard = shard_placed s;
    held =
        ap (get_elem? (placed s).shards) unpack_tid-key ∙ get_elem?-set_same current.shards me held;
    addr = addr;
    page_index = length fulls;
    split = indices-key;
    page = page_placed s;
    paged = get_elem?-after (λ p. drained c p.1) fulls (page_placed s) pages;
    local = s.next;
    listed = get_elem?-after (λ p. p.0) fulls s.next locals;
    slots = set slots x s;
    allocated = refl;
    slot = s;
    found = ap (get_elem? (set slots x s)) offset_eq ∙ get_elem?-set_same slots x found;
  }
