-- ===== src/Shard/First.antt =====
-- The first use of a shard (src/shard.rs): a thread that has none yet gets a new one, and its first
-- page gets storage.
use mathlib.Core.List.{map}
use sharded_slab.Base.{
  ℕ, zero, suc, ◌+◌, ◌-◌, ◌*◌, ◌%◌, ◌^◌, ◌≤◌, ◌<◌, ◌≡◌, refl, sym, ap, ◌∙◌, List, [], ◌∷◌, none,
  some, get_elem?, set, arith,
}
use native.Mathlib.Nat.{mod-eq_of_lt, pow-zero, pow-suc}
use sharded_slab.Word.Fields.{two_pow-pos}
use sharded_slab.Word.Powers.{two_pow_mono}
use sharded_slab.Pack.Laws.{bits_lem}
use sharded_slab.Config.{
  Config, initial_sz, page_size, max_shards, null_addr, addr_field, tid_field, gen_field,
  ref_count_field,
}
use sharded_slab.Config.Valid.{
  IsConfig, initial_sz_lem, addr_len, addr_index_shift_lem, page_rounded, key_Fits, threads_rounded,
  max_shards_lem, tid_len, trailing_zeros-max_shards,
}
use sharded_slab.Key.{PageSize, new_sizes}
use sharded_slab.Key.Pages.{index_unique}
use sharded_slab.Lifecycle.{State}
use sharded_slab.Lifecycle.Encode.{encode_removing}
use sharded_slab.Slot.Ops.{Clear, new_slot}
use sharded_slab.Page.{new_shared, new_local}
use sharded_slab.Page.Fresh.{fresh}
use sharded_slab.Page.Front.{unused}
use sharded_slab.Page.Chain.{get_elem?-set_same}
use sharded_slab.Shard.{new_shard}
use sharded_slab.Shard.Array.{Array, raise_max, current_shard}
use sharded_slab.Shard.Room.{Room}

module _ {c : Config} (v : IsConfig c) where
  first_size : page_size c 0 ≡ initial_sz c
  unfolding page_size
  first_size =
      let e : initial_sz c * 2 ^ 0 ≡ initial_sz c = omega (arith, pow-zero 2) in
      ap (λ t. t % 2 ^ c.width) e
      ∙ mod-eq_of_lt (
          omega (
            arith,
            initial_sz_lem v,
            two_pow-pos (page_rounded v).exponent,
            pow-suc 2 (page_rounded v).exponent,
            two_pow_mono {a = suc (page_rounded v).exponent} {b = c.width} (page_rounded v).in_word,
          ))

  initial_sz-pos : 1 ≤ initial_sz c
  initial_sz-pos = omega (arith, initial_sz_lem v, two_pow-pos (page_rounded v).exponent)

  pub null_addr_eq : null_addr c ≡ 2 ^ (addr_field c).len
  unfolding null_addr
  null_addr_eq =
      omega (arith, bits_lem (addr_field c) (key_Fits v).some_low, two_pow-pos (addr_field c).len)

  first_fits : initial_sz c ≤ null_addr c
  first_fits = omega (
    arith,
    null_addr_eq,
    initial_sz_lem v,
    addr_len c,
    addr_index_shift_lem v,
    two_pow_mono {a = (page_rounded v).exponent} {b = (addr_field c).len}
        (omega (arith, addr_len c, addr_index_shift_lem v)),
  )

  pub tid_room : (me : ℕ) → me < max_shards c → me < 2 ^ (tid_field c).len
  tid_room me h = omega (
    arith,
    max_shards_lem v,
    tid_len c,
    trailing_zeros-max_shards v,
    two_pow_mono {a = (threads_rounded v).exponent} {b = (tid_field c).len}
        (omega (arith, tid_len c, trailing_zeros-max_shards v)),
  )

new_slot_first :
    {T : Type 0} (c : Config) (cl : Clear T) (last : ℕ)
    → (next : ℕ) × (get_elem? (fresh c cl last) 0 ≡ some (new_slot cl next))
new_slot_first c cl zero = (null_addr c, refl)
new_slot_first c cl (suc last) = (1, refl)

-- The pages of a new shard behind the first.
abbrev other_sizes : Config → List PageSize
other_sizes c = new_sizes c (c.max_pages - 1) (0 + 1) ((0 + page_size c 0) % 2 ^ c.width)

sizes_split :
    (c : Config)
    → 1 ≤ c.max_pages
    → new_sizes c c.max_pages 0 0 ≡ record { size = page_size c 0; prev_sz = 0 } ∷ other_sizes c
unfolding new_sizes
sizes_split c h =
    let e : c.max_pages ≡ suc (c.max_pages - 1) = omega arith in ap (λ n. new_sizes c n 0 0) e

module _ {T : Type 0} {c : Config} (v : IsConfig c) (cl : Clear T) (me : ℕ) (array : Array T) where
  abbrev made : Array T
  made = record {
    shards = set array.shards me (some (new_shard c me));
    max = raise_max me [] array.max;
  }

  -- A thread that the array has a place, but no shard for, has room.
  pub no_shard-Room :
      get_elem? array.shards me ≡ some none
      → 1 ≤ c.max_pages
      → me < max_shards c
      → Room c cl me array
  unfolding current_shard new_shard new_shared new_slot
  no_shard-Room empty some_pages in_array =
      let sizes = sizes_split c some_pages in
      let (next, first) = new_slot_first c cl (initial_sz c - 1) in
      record {
        shard = new_shard c me;
        current = made;
        fulls = [];
        local = new_local;
        locals = map (λ page. new_local) (other_sizes c);
        page = new_shared c (page_size c 0) 0;
        pages = map (λ page. new_shared c page.size page.prev_sz) (other_sizes c);
        slots = fresh c cl (page_size c 0 - 1);
        x = 0;
        remote = (new_shared {T = T} c (page_size c 0) 0).remote;
        slot = new_slot cl next;
        life = record { state = State.removing; refs = 0; gen = 0 };
        found_shard = rw (current_shard, empty) refl;
        held = get_elem?-set_same array.shards me empty;
        full = tt;
        locals_eq = ap (map (λ page. new_local)) sizes;
        pages_eq = ap (map (λ page. new_shared c page.size page.prev_sz)) sizes;
        front =
            unused refl (omega (arith, first_size v, initial_sz-pos v))
              (omega (arith, first_size v, first_fits v));
        found = ap (λ n. get_elem? (fresh c cl (n - 1)) 0) (first_size v) ∙ first;
        is_life = record {
          refs_fit = two_pow-pos (ref_count_field c).len;
          gen_fits = two_pow-pos (gen_field c).len;
        };
        word = sym (encode_removing c);
        no_refs = refl;
        on_page =
            index_unique v 0 0 (two_pow-pos (addr_field c).len) (omega arith)
              (omega (arith, initial_sz-pos v, initial_sz_lem v));
        addr_fits = two_pow-pos (addr_field c).len;
        tid_fits = tid_room v me in_array;
      }
