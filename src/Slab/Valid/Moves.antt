-- ===== src/Slab/Valid/Moves.antt =====
-- Calls of src/lib.rs on the slot that a key has in a well-formed slab, with no other thread
-- interfering.
use sharded_slab.Base.{
  ℕ, ◌≡◌, ◌≢◌, ◌⊎◌, refl, sym, ap, ◌∙◌, subst, Bool, true, false, [], Option, none, some, inl, inr,
  get_elem?,
}
use mathlib.Core.Option.{some-injective}
use sharded_slab.Config.{Config}
use sharded_slab.Config.Valid.{IsConfig}
use sharded_slab.Key.{unpack_tid, unpack_addr, unpack_gen, indices}
use sharded_slab.Slot.Memory.{Slot, World, Outcome, returns}
use sharded_slab.Slot.Ops.{FreeList}
use sharded_slab.Slot.Quiet.{quiet}
use sharded_slab.Stack.{push, set_next, local_list, remote_list, TransferStack}
use sharded_slab.Page.Held.{in_use}
use sharded_slab.Page.Free.{push-quiet}
use sharded_slab.Page.{slot_at, offset_in}
use sharded_slab.Shard.{Shard, with_shard_slot}
use sharded_slab.Shard.Array.{Array, get_shard, on_shard, on_shard-found}
use sharded_slab.Shard.Located.{
  Located, offset, put, put_local, put_remote, put_page, page_with, with_shard_slot_located,
  on_local_located, on_remote_located,
}
use sharded_slab.Shard.Threads.{either_thread}
use sharded_slab.Shard.Refused.{set-same, Absent, no_shard, no_page, no_slot}
use sharded_slab.Slab.{Slab}
use sharded_slab.Slab.Valid.{SlotOk, IsValid}
use sharded_slab.Slab.Valid.Spot.{Spot, Spot-cases}
use sharded_slab.Slab.Valid.Changed.{put-IsValid, put_local-IsValid, put_remote-IsValid}

-- A call that has returned an answer and a well-formed slab.
pub record Ends {T A : Type 0} (c : Config) (ok : ℕ → SlotOk T) (answer : A)
    (o : Outcome (A × Slab T)) : Type 0 where
  pub slab : Slab T
  pub returned : o ≡ returns (answer, slab)
  pub valid : IsValid c ok slab

module _ {T : Type 0} {c : Config} (ok ok' : ℕ → SlotOk T) {key : ℕ} {slab : Slab T}
    (valid : IsValid c ok slab) (spot : Spot c ok key slab)
    (keep : (t a : ℕ) (s : Slot (Option T))
      → (t ≢ unpack_tid c key) ⊎ (a ≢ unpack_addr c key)
      → ok t a s
      → ok' t a s)
    (busy : in_use spot.at.slot.item ≡ 1) (t : Slot (Option T)) where
  -- `with_slot` with a function that leaves the value in place.
  pub with_slot-Ends :
      {U : Type 0} (f : World (Option T) → Outcome (Option U × World (Option T)))
      (missing answer : Option U)
      → in_use t.item ≡ 1
      → ok' (unpack_tid c key) (unpack_addr c key) t
      → f (quiet spot.at.slot) ≡ returns (answer, quiet t)
      → Ends c ok' answer
          (on_shard missing (λ shard. with_shard_slot c key f [] shard) (unpack_tid c key) slab)
  with_slot-Ends f missing answer still new e = record {
    slab = put spot.at t;
    returned = with_shard_slot_located spot.at f [] missing answer (quiet t) e;
    valid = put-IsValid ok ok' valid spot keep busy t still new;
  }

  module _ {A : Type 0} (missing answer : A)
      (op : (F : Type 0)
        → FreeList (Option T) F
        → ℕ
        → ℕ
        → F
        → World (Option T)
        → Outcome (A × F × World (Option T))) where
    -- An operation that leaves the value in place.
    pub kept-Ends :
        in_use t.item ≡ 1
        → ok' (unpack_tid c key) (unpack_addr c key) t
        → ((F : Type 0) (fl : FreeList (Option T) F) (free : F)
            → op F fl (unpack_gen c key) (offset spot.at) free (quiet spot.at.slot)
              ≡ returns (answer, free, quiet t))
        → (own : Bool)
        → Ends c ok' answer
            (on_shard missing (either_thread c key missing op own) (unpack_tid c key) slab)
    kept-Ends still new e true =
        let z = spot.at in
        record {
          slab = put z t;
          returned =
              on_shard-found missing _ _ slab z.shard _ answer z.held (
                on_local_located z missing (op ℕ local_list) [] answer z.local (quiet t)
                  (e ℕ local_list z.local))
              ∙ ap (λ l. returns (answer, put_page z (page_with z t) l))
                  (set-same z.shard.local z.page_index z.listed);
          valid = put-IsValid ok ok' valid spot keep busy t still new;
        }
    kept-Ends still new e false =
        let z = spot.at in
        record {
          slab = put z t;
          returned = on_shard-found missing _ _ slab z.shard _ answer z.held (
              on_remote_located z missing (op TransferStack remote_list) [] answer z.page.remote
                (quiet t) (e TransferStack remote_list z.page.remote));
          valid = put-IsValid ok ok' valid spot keep busy t still new;
        }

    -- An operation that frees the slot.
    pub freed-Ends :
        t.item ≡ none
        → ((next : ℕ) → ok' (unpack_tid c key) (unpack_addr c key) (set_next next t))
        → ((F : Type 0) (fl : FreeList (Option T) F) (free : F)
            → op F fl (unpack_gen c key) (offset spot.at) free (quiet spot.at.slot)
              ≡ returns (
                answer,
                (fl.push (offset spot.at) t free).1,
                quiet (fl.push (offset spot.at) t free).0,
              ))
        → (own : Bool)
        → Ends c ok' answer
            (on_shard missing (either_thread c key missing op own) (unpack_tid c key) slab)
    freed-Ends gone new e true =
        let z = spot.at in
        record {
          slab = put_local z (set_next z.local t) (offset z);
          returned = on_shard-found missing _ _ slab z.shard _ answer z.held (
              on_local_located z missing (op ℕ local_list) [] answer (offset z) _
                (e ℕ local_list z.local));
          valid = put_local-IsValid ok ok' valid spot keep busy t gone (new z.local);
        }
    freed-Ends gone new e false =
        let z = spot.at in
        let (u, remote') = push (offset z) t z.page.remote in
        let linked : u ≡ set_next z.page.remote.head t =
          ap (λ r. r.0) (push-quiet (offset z) t z.page.remote spot.lists.remote_quiet) in
        record {
          slab = put_remote z u remote';
          returned = on_shard-found missing _ _ slab z.shard _ answer z.held (
              on_remote_located z missing (op TransferStack remote_list) [] answer remote' _
                (e TransferStack remote_list z.page.remote));
          valid = put_remote-IsValid ok ok' valid spot keep busy t gone (
              subst (ok' (unpack_tid c key) (unpack_addr c key)) (sym linked)
                (new z.page.remote.head));
        }

module _ {T : Type 0} {c : Config} {idx key : ℕ} {array : Array T}
    (z : Located c idx key array) where
  -- The shard and the page of the key are those where it finds its slot.
  same_shard : (shard : Shard T) → get_elem? array.shards idx ≡ some (some shard) → z.shard ≡ shard
  same_shard shard held = some-injective _ _ (some-injective _ _ (sym z.held ∙ held))

  page_there :
      (shard : Shard T)
      → get_elem? array.shards idx ≡ some (some shard)
      → get_elem? shard.shared (indices c key).1 ≡ some z.page
  page_there shard held =
      ap (λ sh. get_elem? sh.shared (indices c key).1) (sym (same_shard shard held))
      ∙ ap (λ r. get_elem? z.shard.shared r.1) z.split
      ∙ z.paged

  not-Absent : Absent c idx key array → ⊥
  unfolding get_shard
  not-Absent (no_shard h) =
      let there : get_shard idx array ≡ some z.shard = rw (get_shard, z.held) refl in
      let e = sym there ∙ h in cc
  not-Absent (no_page shard held h) = let e = sym (page_there shard held) ∙ h in cc
  not-Absent (no_slot shard page local held paged listed h) =
      let same : z.page ≡ page = some-injective _ _ (sym (page_there shard held) ∙ paged) in
      let there : slot_at z.page (offset_in c z.page (indices c key).0) ≡ some z.slot =
        rw (z.split, z.allocated) z.found in
      let e = sym there ∙ ap (λ q. slot_at q (offset_in c q (indices c key).0)) same ∙ h in cc

-- A key that finds a slot in a well-formed slab has its spot there.
pub Spot-of :
    {T : Type 0} {c : Config} (v : IsConfig c) {ok : ℕ → SlotOk T} {slab : Slab T}
    (valid : IsValid c ok slab) (key : ℕ)
    → Located c (unpack_tid c key) key slab
    → Spot c ok key slab
Spot-of v valid key z = elim (Spot-cases v valid key) [
  | inr spot ↦ spot
  | inl h ↦ absurd (not-Absent z h)
]
