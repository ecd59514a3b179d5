-- ===== src/Tests/Pages.antt =====
-- The properties of sizes, keys, free lists and pages at the default configuration and small pages.
use sharded_slab.Base.{
  ℕ, ◌+◌, ◌-◌, ◌%◌, ◌^◌, ◌≤◌, ◌<◌, ◌≡◌, ◌↔◌, refl, ap, Option, some, none, List, [], ◌∷◌, get_elem?,
  set, arith,
}
use sharded_slab.Word.Fields.{two_pow-pos}
use sharded_slab.Config.{
  ref_count_field, Config, default_config, addr_field, tid_field, gen_field, max_shards, null_addr,
  validate,
}
use sharded_slab.Config.Valid.{IsConfig}
use sharded_slab.Config.Shards.{max_shards_short}
use sharded_slab.Key.{
  PageSize, insert_key, vacant_key, unpack_addr, unpack_tid, unpack_gen, index, new_sizes,
}
use sharded_slab.Key.Packing.{KeyParts, key-roundtrip, key-reserved}
use sharded_slab.Key.Pages.{index-page}
use sharded_slab.Lifecycle.{State}
use sharded_slab.Lifecycle.Encode.{IsLife, encode}
use sharded_slab.Slot.Memory.{Slot, World, Outcome, returns}
use sharded_slab.Slot.Quiet.{quiet}
use sharded_slab.Slot.Story.{option_clear}
use sharded_slab.Slot.Lives.{life}
use sharded_slab.Stack.{push}
use sharded_slab.Stack.Laws.{Pushed, push-Pushed}
use sharded_slab.Page.{Shared, init_with}
use sharded_slab.Page.Free.{FreeLists, drained}
use sharded_slab.Page.Alloc.{Took, init_with-Took, init_with_refused}
use sharded_slab.Tests.{default_config-IsConfig, gen_len_default}

abbrev pub c : Config
c = default_config

v : IsConfig c
v = default_config-IsConfig

abbrev two_threads : Config
two_threads = record default_config { max_threads = 2 }

two_threads-IsConfig : IsConfig two_threads
unfolding validate tid_field gen_field
two_threads-IsConfig = record {
  page_size_fits = omega arith;
  some_threads = omega arith;
  threads_fit = omega arith;
  gen_room = omega arith;
  refs_room = omega arith;
  validates = refl;
}

max_shards_short_example : max_shards two_threads + 1 ≡ 2
max_shards_short_example = max_shards_short two_threads-IsConfig 0 refl

addr_len_default : (addr_field c).len ≡ 38
unfolding addr_field
addr_len_default = refl

tid_len_default : (tid_field c).len ≡ 13
unfolding tid_field
tid_len_default = refl

key_parts : KeyParts c 100 7 5
key_parts = record {
  addr_fits = omega (arith, ap (λ (t : ℕ). 2 ^ t) addr_len_default);
  tid_fits = omega (arith, ap (λ (t : ℕ). 2 ^ t) tid_len_default);
  gen_fits = omega (arith, ap (λ (t : ℕ). 2 ^ t) gen_len_default);
}

key-roundtrip_example :
    (vacant_key c 7 5 100 ≡ insert_key c 7 5 100)
    × (unpack_addr c (insert_key c 7 5 100) ≡ 100)
    × (unpack_tid c (insert_key c 7 5 100) ≡ 7)
    × (unpack_gen c (insert_key c 7 5 100) ≡ 5)
key-roundtrip_example = key-roundtrip v key_parts

key-reserved_example : insert_key c 7 5 100 < 2 ^ (64 - 0)
key-reserved_example = key-reserved v key_parts

index-page_example :
    (page : PageSize) × (get_elem? (new_sizes c 32 0 0) 2 ≡ some page)
    × ((index c 100 ≡ 2) ↔ ((page.prev_sz ≤ 100) × (100 < page.prev_sz + page.size)))
index-page_example = index-page v 100 2 key_parts.addr_fits (omega arith)

abbrev loose : Slot (Option ℕ)
loose = record { lifecycle = 0; next = 7; item = none }

push-Pushed_example :
    Pushed
      (λ n. n ≤ 9)
      3
      loose
      ((λ n. n - 1) ∷ [])
      9
      (push 3 loose (record { head = 9; others = (λ n. n - 1) ∷ [] }))
push-Pushed_example =
    push-Pushed (λ n. n ≤ 9) 3 loose (record { head = 9; others = (λ n. n - 1) ∷ [] })
      ((λ n h. omega arith), tt) (omega arith)

pub null_addr_default : null_addr c ≡ 274877906944
unfolding null_addr
null_addr_default = refl

-- A page of two slots: the first has a value, the second is free.
abbrev pub used : Slot (Option ℕ)
used = record { lifecycle = encode c (life State.present 0 5); next = 7; item = some 42 }

abbrev pub unused : Slot (Option ℕ)
unused = record { lifecycle = 3; next = null_addr c; item = none }

abbrev pub slots : List (Slot (Option ℕ))
slots = used ∷ unused ∷ []

-- With the free slot on the local list or on the remote one.
abbrev pub page : ℕ → Shared (Option ℕ)
page head = record {
  remote = record { head = head; others = [] };
  size = 2;
  prev_sz = 32;
  slab = some slots;
}

pub local_free : FreeLists c (page (null_addr c)) 1 slots (1 ∷ []) []
local_free = record {
  allocated = refl;
  sized = refl;
  null_outside = omega (arith, null_addr_default);
  local_chain = (refl, (unused, refl, omega (arith, null_addr_default)));
  remote_chain = omega (arith, null_addr_default);
  remote_end = λ e. refl;
  remote_quiet = refl;
  local_distinct = (tt, tt);
  remote_distinct = tt;
  apart = (tt, tt);
}

remote_free : FreeLists c (page 1) 2 slots [] (1 ∷ [])
remote_free = record {
  allocated = refl;
  sized = refl;
  null_outside = omega (arith, null_addr_default);
  local_chain = omega arith;
  remote_chain = (refl, (unused, refl, omega (arith, null_addr_default)));
  remote_end = λ e. absurd cc;
  remote_quiet = refl;
  local_distinct = tt;
  remote_distinct = (tt, tt);
  apart = tt;
}

abbrev accepting : ℕ → World (Option ℕ) → Outcome (Option ℕ × World (Option ℕ))
accepting index w = returns (some index, w)

abbrev refusing : ℕ → World (Option ℕ) → Outcome (Option ℕ × World (Option ℕ))
refusing index w = returns (none, w)

init_with-Took_example :
    Took c accepting [] slots 32 1 [] [] (init_with c option_clear accepting [] 2 (page 1))
init_with-Took_example =
    init_with-Took c option_clear accepting [] [] (1 ∷ []) remote_free refl (λ s found. record {
      value = (1 + 32) % 2 ^ 64;
      world = quiet s;
      ran = refl;
      keeps_link = refl;
    })

init_with_refused_example :
    (init_with c option_clear refusing [] 2 (page 1)
      ≡ returns (none, 2, record (drained c (page 1)) { slab = some (set slots 1 unused) }))
    × FreeLists c
        (record (drained c (page 1)) { slab = some (set slots 1 unused) })
        2
        (set slots 1 unused)
        []
        []
init_with_refused_example =
    init_with_refused c option_clear refusing [] 1 [] unused (quiet unused) remote_free refl refl

pub used-IsLife : IsLife c (life State.present 0 5)
used-IsLife = record {
  refs_fit = two_pow-pos (ref_count_field c).len;
  gen_fits = omega (arith, ap (λ (t : ℕ). 2 ^ t) gen_len_default);
}
