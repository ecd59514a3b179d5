-- ===== src/Tests/Histories.antt =====
-- The properties of calls one after another (src/lib.rs) at concrete inputs: a slab of four shards.
use sharded_slab.Base.{
  ℕ, ◌+◌, ◌≡◌, ◌≢◌, ◌⊎◌, refl, true, false, [], ◌∷◌, Option, some, none, All, arith,
}
use sharded_slab.Config.{Config, validate, max_shards, tid_field, gen_field, next_pow2}
use sharded_slab.Config.Valid.{IsConfig}
use sharded_slab.Key.{unpack_tid, unpack_gen}
use sharded_slab.Slot.Memory.{returns, spins}
use sharded_slab.Shard.Array.{new_array}
use sharded_slab.Slab.{Slab, Entry, new_with_config, slab_insert, slab_get, slab_take}
use sharded_slab.Slab.History.{Live, Reachable, starts, inserts, gets, coming, live_at, slot_of}
use sharded_slab.Config.{
  addr_field, addr_index_shift, initial_sz, lifecycle_gen_field, max_refs, null_addr, page_size,
  ref_count_field,
}
use sharded_slab.Key.{index, indices, new_sizes, unpack_addr}
use sharded_slab.Lifecycle.{
  gen_from_packed, incr, pack_gen, pack_refs, pack_state, refs_from_packed, state_from_packed,
  state_from_usize,
}
use sharded_slab.Pack.{bits, from_packed, mask, pack}
use sharded_slab.Page.{allocate, init_slot, init_with, new_shared, pop, with_slot}
use sharded_slab.Shard.{init_pages, init_shard, new_shard, with_shard_slot}
use sharded_slab.Shard.Array.{current_shard, get_shard, on_shard, raise_max}
use sharded_slab.Slab.{get_entry, insert_init}
use sharded_slab.Slot.Attempts.{get_attempt, removing_attempt}
use sharded_slab.Slot.Memory.{after_others, cas_loop, load, run}
use sharded_slab.Slot.Ops.{fill, generation, get, init, insert, new_slot, release2, release_init}
use sharded_slab.Stack.{load_head, new, pop_all}
use sharded_slab.Word.Counts.{bit_length, count_ones, leading_zeros, trailing_zeros}
use sharded_slab.Slab.{OwnedEntry, slab_get_owned, slab_remove, drop_entry, drop_owned_entry}
use sharded_slab.Slab.Valid.{IsValid}
use sharded_slab.Slab.History.{answered}
use sharded_slab.Slab.History.Slots.{each_valid, with_live-same}
use sharded_slab.Slab.History.Safe.{history-IsValid}
use sharded_slab.Slab.History.Guards.{Guarded, Returns, guards_safe, calls_return, drops_return}
use sharded_slab.Slab.History.Rooms.{AllUsed}
use sharded_slab.Slab.History.Found.{insert_found}
use sharded_slab.Shard.{Shard}
use mathlib.Core.List.{filter_map}
use sharded_slab.Shard.Array.{drop_array}
use sharded_slab.Slab.History.Dropped.{drop_array_all}
use sharded_slab.Slab.{contains}

abbrev tiny : Config
tiny = record {
  width = 64;
  max_threads = 4;
  max_pages = 1;
  initial_page_size = 2;
  reserved_bits = 0;
}

tiny-validates : validate tiny ≡ true
unfolding validate
tiny-validates = refl

tiny_tid_end : (tid_field tiny).shift + (tid_field tiny).len ≡ 6
unfolding tid_field
tiny_tid_end = refl

tiny_gen_len : (gen_field tiny).len ≡ 58
unfolding gen_field
tiny_gen_len = refl

tiny-IsConfig : IsConfig tiny
tiny-IsConfig = record {
  page_size_fits = omega arith;
  some_threads = omega arith;
  threads_fit = omega arith;
  gen_room = omega (arith, tiny_tid_end);
  refs_room = omega (arith, tiny_gen_len);
  validates = tiny-validates;
}

abbrev before : Slab ℕ
before = record { shards = none ∷ none ∷ none ∷ none ∷ []; max = 0 }

begins : Reachable tiny before (λ t a. [])
unfolding new_with_config new_array max_shards validate
begins = starts before refl

-- The slab with the value 42 in the first slot of the shard of thread 1, with the lifecycle `word`.
abbrev holding : ℕ → Slab ℕ
holding word = record {
  shards =
      none
      ∷ some (record {
        tid = 1;
        local = 1 ∷ [];
        shared =
            record {
              remote = record { head = 8; others = [] };
              size = 2;
              prev_sz = 0;
              slab = some (
                  record { lifecycle = word; next = 1; item = some 42 }
                  ∷ record { lifecycle = 3; next = 8; item = none }
                  ∷ []);
            }
            ∷ [];
      })
      ∷ none
      ∷ none
      ∷ [];
  max = 1;
}

insert_42 : slab_insert tiny 1 42 (λ page. []) [] before ≡ returns (some 8, holding 0)
unfolding slab_insert current_shard init_shard init_pages new_shard new_sizes init_with pop
    new_shared page_size null_addr init_slot allocate insert_init insert fill init addr_field
    addr_index_shift gen_field initial_sz lifecycle_gen_field max_shards next_pow2 ref_count_field
    tid_field gen_from_packed pack_gen pack_state refs_from_packed state_from_packed
    state_from_usize bits from_packed mask pack raise_max removing_attempt after_others cas_loop
    load generation new_slot release2 release_init load_head new pop_all bit_length count_ones
    leading_zeros trailing_zeros
insert_42 = refl

get_42 :
    slab_get tiny 2 8 [] (holding 0) ≡ returns (some (record { value = 42; key = 8 }), holding 4)
unfolding slab_get on_shard get_shard unpack_tid from_packed tid_field with_shard_slot indices
    with_slot get_entry get run cas_loop load after_others get_attempt state_from_packed unpack_gen
    addr_field addr_index_shift gen_field initial_sz lifecycle_gen_field max_refs max_shards
    next_pow2 ref_count_field index unpack_addr gen_from_packed incr pack_refs refs_from_packed
    state_from_usize bits mask pack bit_length count_ones leading_zeros trailing_zeros
get_42 = refl

not_coming_8 : coming tiny 8 (holding 0) ≡ false
unfolding slot_of get_shard unpack_tid from_packed tid_field indices
not_coming_8 = refl

not_coming_again : coming tiny 8 (holding 4) ≡ false
unfolding slot_of get_shard unpack_tid from_packed tid_field indices
not_coming_again = refl

-- Thread 2 has the entry.
abbrev one_entry : Live ℕ
one_entry = answered tiny 8 (some 42) (λ t a. [])

abbrev entry : Entry ℕ
entry = record { value = 42; key = 8 }

abbrev owned_entry : OwnedEntry ℕ
owned_entry = record { value = 42; key = 8 }

guarded : Reachable tiny (holding 4) one_entry
guarded = gets (inserts begins 1 42 (some 8) insert_42) 2 8 (some entry) not_coming_8 get_42

history-IsValid_example : IsValid tiny (each_valid tiny one_entry) (holding 4)
history-IsValid_example = history-IsValid tiny-IsConfig guarded

guards_safe_example : Guarded tiny (live_at tiny 8 one_entry) (slot_of tiny 8 (holding 4))
guards_safe_example = guards_safe tiny-IsConfig guarded 8

four_shards : max_shards tiny ≡ 4
unfolding max_shards next_pow2 leading_zeros bit_length
four_shards = refl

calls_return_example :
    Returns (slab_insert tiny 3 7 (λ page. []) [] (holding 4))
    × Returns (slab_get tiny 3 8 [] (holding 4))
    × Returns (slab_get_owned tiny 3 8 [] (holding 4))
    × Returns (contains tiny 3 8 [] [] [] (holding 4))
    × Returns (slab_remove tiny 3 8 [] (holding 4))
    × (Returns (slab_take tiny 3 8 [] (holding 4))
        ⊎ ((live_at tiny 8 one_entry ≢ []) × (slab_take tiny 3 8 [] (holding 4) ≡ spins)))
calls_return_example =
    calls_return tiny-IsConfig guarded 3 8 7 (omega (arith, four_shards)) not_coming_again

drops_return_example :
    Returns (drop_entry tiny 3 entry [] [] (holding 4))
    × Returns (drop_owned_entry tiny 3 owned_entry [] [] (holding 4))
drops_return_example =
    drops_return tiny-IsConfig guarded 3 entry owned_entry []
      (with_live-same tiny 8 ((42, unpack_gen tiny 8) ∷ []) (λ t a. [])) refl

insert_found_example :
    ((key : ℕ) × (slab' slab'' : Slab ℕ) × (slab_insert tiny 1 7 (λ page. []) [] (holding 4)
        ≡ returns (some key, slab'))
      × (unpack_tid tiny key ≡ 1)
      × (live_at tiny key one_entry ≡ [])
      × (slab_get tiny 2 key [] slab' ≡ returns (some (record { value = 7; key = key }), slab'')))
    ⊎ ((slab' current : Slab ℕ) × (shard : Shard (Option ℕ)) × (slab_insert tiny 1 7
            (λ page. [])
            []
            (holding 4)
          ≡ returns (none, slab'))
        × (current_shard tiny 1 [] (holding 4) ≡ returns (shard, current))
        × All AllUsed shard.shared)
insert_found_example = insert_found tiny-IsConfig guarded 1 2 7 (omega (arith, four_shards))

drop_array_all_example :
    drop_array (holding 4) ≡ returns (filter_map (λ ptr. ptr) (holding 4).shards)
drop_array_all_example = drop_array_all tiny-IsConfig guarded
