-- ===== src/Slot/Clearing.antt =====
-- `clear_storage` and `try_clear_storage` of src/page/slot.rs on a slot that no other thread touches
-- meanwhile, for items of any type.
use sharded_slab.Base.{ℕ, ◌≡◌, ◌≢◌, refl, ne→==, ap, ◌∙◌, true, false, none, some}
use sharded_slab.Config.{Config}
use sharded_slab.Config.Valid.{IsConfig}
use sharded_slab.Lifecycle.{advance}
use sharded_slab.Lifecycle.Encode.{Life, IsLife, encode, gen_from_packed-encode}
use sharded_slab.Slot.Memory.{Slot, returns, store, load, after_others}
use sharded_slab.Slot.Ops.{
  FreeList, Mutator, Clear, release_with, release_loop, clear_storage, try_clear_storage,
  finish_release,
}
use sharded_slab.Slot.Access.{mark_answer, marked_life}
use sharded_slab.Slot.Quiet.{
  quiet, mark_release-quiet, release_with-quiet, marked-IsLife, removable, untouched,
}

-- A slot as `clear_storage` hands it to the free list.
abbrev pub cleared : {T : Type 0} → Config → Clear T → Slot T → Life → Slot T
cleared c cl s l = record s {
  lifecycle = encode c (record l { gen = advance c l.gen });
  item = cl.clear s.item;
}

module _ {T F : Type 0} {c : Config} (v : IsConfig c) (fl : FreeList T F) (cl : Clear T)
    (offset : ℕ) (free : F) where
  pub clear_storage-quiet :
      (s : Slot T) (l : Life)
      → IsLife c l
      → s.lifecycle ≡ encode c l
      → l.refs ≡ 0
      → clear_storage c fl cl l.gen offset free (quiet s)
        ≡ returns (
          true,
          (fl.push offset (cleared c cl s l) free).1,
          quiet (fl.push offset (cleared c cl s l) free).0,
        )
  unfolding clear_storage finish_release
  clear_storage-quiet s l i word no_refs = release_with-quiet v s l i word fl _ offset free no_refs

  module _ (s : Slot T) (l : Life) (i : IsLife c l) (word : s.lifecycle ≡ encode c l)
      (gen : ℕ) where
    abbrev marked : Slot T
    marked = store (encode c (marked_life gen l)) s

    pub try_clear_storage-refused :
        mark_answer gen l ≡ none
        → try_clear_storage c fl cl gen offset free (quiet s) ≡ returns (false, free, quiet s)
    unfolding try_clear_storage
    try_clear_storage-refused e =
        rw (mark_release-quiet v s l i word gen, e)
          (ap (λ t. returns (false, free, quiet t)) (untouched c s l word gen e))

    pub try_clear_storage-marked :
        mark_answer gen l ≡ some false
        → try_clear_storage c fl cl gen offset free (quiet s) ≡ returns (true, free, quiet marked)
    unfolding try_clear_storage
    try_clear_storage-marked e = rw (mark_release-quiet v s l i word gen, e) refl

    clear_storage-marked :
        mark_answer gen l ≡ some true
        → clear_storage c fl cl gen offset free (quiet marked)
          ≡ returns (
            true,
            (fl.push offset (cleared c cl s (marked_life gen l)) free).1,
            quiet (fl.push offset (cleared c cl s (marked_life gen l)) free).0,
          )
    clear_storage-marked e =
        let (at_gen, no_refs) = removable l i gen e in
        ap (λ g. clear_storage c fl cl g offset free (quiet marked)) at_gen
        ∙ clear_storage-quiet marked (marked_life gen l) (marked-IsLife l i gen) refl no_refs

    pub try_clear_storage-cleared :
        mark_answer gen l ≡ some true
        → try_clear_storage c fl cl gen offset free (quiet s)
          ≡ returns (
            true,
            (fl.push offset (cleared c cl s (marked_life gen l)) free).1,
            quiet (fl.push offset (cleared c cl s (marked_life gen l)) free).0,
          )
    unfolding try_clear_storage
    try_clear_storage-cleared e =
        rw (mark_release-quiet v s l i word gen, e) (rw (clear_storage-marked e) refl)

-- `release_with` at another generation than the slot's.
module _ {T F R : Type 0} {c : Config} (v : IsConfig c) (fl : FreeList T F) (mutator : Mutator T R)
    (gen offset : ℕ) (free : F) (s : Slot T) (l : Life) (i : IsLife c l)
    (word : s.lifecycle ≡ encode c l) where
  pub release_with_stale :
      gen ≢ l.gen
      → release_with c fl mutator gen offset free (quiet s)
        ≡ returns (mutator.on_none, free, quiet s)
  unfolding release_with release_loop load after_others
  release_with_stale other =
      rw (release_with, release_loop, word, gen_from_packed-encode v i, ne→== gen l.gen other) refl
