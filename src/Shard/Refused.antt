-- ===== src/Shard/Refused.antt =====
-- Keys that the functions of src/shard.rs refuse: the array is left as it was.
use sharded_slab.Base.{
  ℕ, zero, suc, ◌≡◌, ◌≢◌, refl, sym, ap, ◌∙◌, Bool, true, false, List, [], ◌∷◌, Option, none, some,
  get_elem?, set,
}
use mathlib.Core.Option.{some-injective}
use sharded_slab.Config.{Config}
use sharded_slab.Key.{indices, unpack_gen}
use sharded_slab.Lifecycle.Encode.{Life, IsLife, encode}
use sharded_slab.Slot.Memory.{World, Outcome, returns}
use sharded_slab.Slot.Ops.{FreeList}
use sharded_slab.Slot.Quiet.{quiet}
use sharded_slab.Stack.{TransferStack, local_list, remote_list}
use sharded_slab.Page.{Shared, offset_in, slot_at, with_slot}
use sharded_slab.Page.Ops.{on_slot}
use sharded_slab.Shard.{Shard, with_shard_slot, on_local, on_remote}
use sharded_slab.Shard.Array.{Array, get_shard, put_shard, on_shard, on_shard-found}
use sharded_slab.Shard.Threads.{either_thread}
use sharded_slab.Shard.Located.{
  Located, offset, page_with, with_shard_slot_located, on_local_located, on_remote_located,
}

pub set-same : {A : Type 0} (l : List A) (i : ℕ) {a : A} → get_elem? l i ≡ some a → set l i a ≡ l
set-same [] i h = refl
set-same (x ∷ l) zero h = ap (λ y. y ∷ l) (sym (some-injective _ _ h))
set-same (x ∷ l) (suc i) h = ap (λ t. x ∷ t) (set-same l i h)

pub put_shard-same :
    {T : Type 0} (idx : ℕ) (array : Array T) (shard : Shard T)
    → get_elem? array.shards idx ≡ some (some shard)
    → put_shard idx shard array ≡ array
put_shard-same idx array shard held =
    ap (λ l. record array { shards = l }) (set-same array.shards idx held)

-- In the array at `idx` there is no shard, or it has no page or no slot for the key.
pub data Absent {T : Type 0} (c : Config) (idx key : ℕ) (array : Array T) : Type 0 where
  no_shard : get_shard idx array ≡ none → Absent c idx key array
  no_page :
      (shard : Shard T)
      → get_elem? array.shards idx ≡ some (some shard)
      → get_elem? shard.shared (indices c key).1 ≡ none
      → Absent c idx key array
  no_slot :
      (shard : Shard T) (page : Shared T) (local : ℕ)
      → get_elem? array.shards idx ≡ some (some shard)
      → get_elem? shard.shared (indices c key).1 ≡ some page
      → get_elem? shard.local (indices c key).1 ≡ some local
      → slot_at page (offset_in c page (indices c key).0) ≡ none
      → Absent c idx key array

module _ {T : Type 0} {c : Config} {idx key : ℕ} {array : Array T} where
  pub with_shard_slot-Absent :
      {U : Type 0} (f : World T → Outcome (Option U × World T))
      → Absent c idx key array
      → on_shard none (λ shard. with_shard_slot c key f [] shard) idx array ≡ returns (none, array)
  unfolding on_shard with_shard_slot with_slot
  with_shard_slot-Absent f (no_shard h) = rw (on_shard, h) refl
  with_shard_slot-Absent f (no_page shard held h) =
      on_shard-found none _ idx array shard shard none held (rw (with_shard_slot, h) refl)
      ∙ ap (λ a. returns (none, a)) (put_shard-same idx array shard held)
  with_shard_slot-Absent f (no_slot shard page local held h p q) =
      on_shard-found none _ idx array shard shard none held (
        rw (with_shard_slot, h, with_slot, q)
          (ap (λ l. returns (none, record shard { shared = l })) (set-same shard.shared _ h)))
      ∙ ap (λ a. returns (none, a)) (put_shard-same idx array shard held)

module _ {T A : Type 0} (c : Config) (key : ℕ) (missing : A)
    (op : (F : Type 0) → FreeList T F → ℕ → ℕ → F → World T → Outcome (A × F × World T)) where
  no_page_either :
      (own : Bool) (shard : Shard T)
      → get_elem? shard.shared (indices c key).1 ≡ none
      → either_thread c key missing op own shard ≡ returns (missing, shard)
  unfolding on_local on_remote
  no_page_either true shard h = rw (on_local, h) refl
  no_page_either false shard h = rw (on_remote, h) refl

  no_slot_either :
      (own : Bool) (shard : Shard T) (page : Shared T) (local : ℕ)
      → get_elem? shard.shared (indices c key).1 ≡ some page
      → get_elem? shard.local (indices c key).1 ≡ some local
      → slot_at page (offset_in c page (indices c key).0) ≡ none
      → either_thread c key missing op own shard ≡ returns (missing, shard)
  unfolding on_local on_remote on_slot
  no_slot_either true shard page local h p q =
      rw (on_local, h)
        (rw (p, on_slot, q)
          (ap {A = List ℕ × List (Shared T)}
            (λ (l, m). returns (missing, record shard { local = l; shared = m }))
            (λ i. (
              set-same shard.local (indices c key).1 p i,
              set-same shard.shared (indices c key).1 h i,
            ))))
  no_slot_either false shard page local h p q =
      rw (on_remote, h, on_slot, q)
        (ap (λ l. returns (missing, record shard { shared = l })) (set-same shard.shared _ h))

module _ {T A : Type 0} {c : Config} {idx key : ℕ} {array : Array T} (missing : A)
    (op : (F : Type 0) → FreeList T F → ℕ → ℕ → F → World T → Outcome (A × F × World T)) where
  pub either_thread-Absent :
      (own : Bool)
      → Absent c idx key array
      → on_shard missing (either_thread c key missing op own) idx array ≡ returns (missing, array)
  unfolding on_shard
  either_thread-Absent own (no_shard h) = rw (on_shard, h) refl
  either_thread-Absent own (no_page shard held h) =
      on_shard-found missing _ idx array shard shard missing held
        (no_page_either c key missing op own shard h)
      ∙ ap (λ a. returns (missing, a)) (put_shard-same idx array shard held)
  either_thread-Absent own (no_slot shard page local held h p q) =
      on_shard-found missing _ idx array shard shard missing held
        (no_slot_either c key missing op own shard page local h p q)
      ∙ ap (λ a. returns (missing, a)) (put_shard-same idx array shard held)

-- A slot that refuses is left as it was, and with it the array.
module _ {T : Type 0} {c : Config} {idx key : ℕ} {array : Array T}
    (z : Located c idx key array) where
  page_same : page_with z z.slot ≡ z.page
  page_same =
      ap (λ l. record (z.page) { slab = some l }) (set-same z.slots (offset z) z.found)
      ∙ ap (λ l. record (z.page) { slab = l }) (sym z.allocated)

  shared_same :
      (page : Shared T) → page ≡ z.page → set z.shard.shared z.page_index page ≡ z.shard.shared
  shared_same page e =
      ap (set z.shard.shared z.page_index) e ∙ set-same z.shard.shared z.page_index z.paged

  pub with_shard_slot-kept :
      {U : Type 0} (f : World T → Outcome (Option U × World T)) (answer : Option U)
      → f (quiet z.slot) ≡ returns (answer, quiet z.slot)
      → on_shard none (λ shard. with_shard_slot c key f [] shard) idx array
        ≡ returns (answer, array)
  with_shard_slot-kept f answer e =
      with_shard_slot_located z f [] none answer (quiet z.slot) e
      ∙ ap (λ l. returns (answer, put_shard idx (record (z.shard) { shared = l }) array))
          (shared_same (page_with z z.slot) page_same)
      ∙ ap (λ a. returns (answer, a)) (put_shard-same idx array z.shard z.held)

  module _ {A : Type 0} (missing answer : A)
      (op : (F : Type 0) → FreeList T F → ℕ → ℕ → F → World T → Outcome (A × F × World T))
      (e : (F : Type 0) (fl : FreeList T F) (free : F)
        → op F fl (unpack_gen c key) (offset z) free (quiet z.slot)
          ≡ returns (answer, free, quiet z.slot)) where
    kept_either :
        (own : Bool) → either_thread c key missing op own z.shard ≡ returns (answer, z.shard)
    kept_either true =
        on_local_located z missing (op ℕ local_list) [] answer z.local _ (e ℕ local_list z.local)
        ∙ ap {A = List ℕ × List (Shared T)}
            (λ (l, m). returns (answer, record (z.shard) { local = l; shared = m }))
            (λ i. (
              set-same z.shard.local z.page_index z.listed i,
              shared_same (page_with z z.slot) page_same i,
            ))
    kept_either false =
        on_remote_located z missing (op TransferStack remote_list) [] answer z.page.remote _
          (e TransferStack remote_list z.page.remote)
        ∙ ap (λ l. returns (answer, record (z.shard) { shared = l }))
            (shared_same (record (page_with z z.slot) { remote = z.page.remote })
              (ap {A = Shared T} (λ p. record p { remote = z.page.remote }) page_same))

    pub either_thread-kept :
        (own : Bool)
        → on_shard missing (either_thread c key missing op own) idx array ≡ returns (answer, array)
    either_thread-kept own =
        on_shard-found missing _ idx array z.shard z.shard answer z.held (kept_either own)
        ∙ ap (λ a. returns (answer, a)) (put_shard-same idx array z.shard z.held)

-- A key that finds no slot, or one of another generation.
pub data Refuses {T : Type 0} (c : Config) (idx key : ℕ) (array : Array T) : Type 0 where
  absent : Absent c idx key array → Refuses c idx key array
  stale :
      (z : Located c idx key array) (l : Life)
      → IsLife c l
      → z.slot.lifecycle ≡ encode c l
      → unpack_gen c key ≢ l.gen
      → Refuses c idx key array
