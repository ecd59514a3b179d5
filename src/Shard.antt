-- ===== src/Shard.antt =====
-- src/shard.rs: `Shard`, the pages of one thread. The arguments `others` are what the other threads
-- do to the slot that the call works on; in `init_with`, to the slot on each page.
pub mod Array
pub mod Highest
pub mod Located
pub mod Full
pub mod Room
pub mod First
pub mod Threads
pub mod Spinning
pub mod Refused
pub mod Guards
use sharded_slab.Base.{
  ℕ, zero, suc, ◌+◌, Bool, true, false, List, [], ◌∷◌, map, Option, none, some, leb, ◌==◌,
  if◌then◌else◌, length, get_elem?, set,
}
use sharded_slab.Config.{Config}
use sharded_slab.Key.{unpack_gen, indices, new_sizes}
use sharded_slab.Slot.Memory.{Slot, World, Outcome, returns, panics, ◌>>=◌}
use sharded_slab.Slot.Ops.{Clear}
use sharded_slab.Stack.{TransferStack, local_list, remote_list}
use sharded_slab.Page.{Shared, new_shared, new_local, with_slot, init_with}
use sharded_slab.Page.Ops.{take, remove, mark_clear, clear}

pub record Shard (T : Type 0) : Type 0 where
  pub tid : ℕ
  pub local : List ℕ
  pub shared : List (Shared T)

module _ {T : Type 0} (c : Config) where
  -- `Shard::new`
  unfoldable pub new_shard : ℕ → Shard T
  new_shard tid =
      let sizes = new_sizes c c.max_pages 0 0 in
      record {
        tid = tid;
        local = map (λ page. new_local) sizes;
        shared = map (λ page. new_shared c page.size page.prev_sz) sizes;
      }

  -- `Shard::with_slot`
  unfoldable pub with_shard_slot :
      {U : Type 0}
      → ℕ
      → (World T → Outcome (Option U × World T))
      → List (Slot T → Slot T)
      → Shard T
      → Outcome (Option U × Shard T)
  with_shard_slot idx f others shard =
      let (addr, page_index) = indices c idx in
      elim (get_elem? shard.shared page_index) [
        | none ↦ returns (none, shard)
        | some page ↦ do
          (result, page') ← with_slot c addr f others page
          returns (result, record shard { shared = set shard.shared page_index page' })
      ]

  -- What the functions that remove or clear share: the call on the page of the key, with the page's
  -- local free list. `self.local(page_index)` panics out of range.
  unfoldable pub on_local :
      {A : Type 0}
      → A
      → (ℕ → ℕ → ℕ → Shared T → Outcome (A × ℕ × Shared T))
      → ℕ
      → Shard T
      → Outcome (A × Shard T)
  on_local missing op idx shard =
      let (addr, page_index) = indices c idx in
      elim (get_elem? shard.shared page_index) [
        | none ↦ returns (missing, shard)
        | some page ↦ elim (get_elem? shard.local page_index) [
          | none ↦ panics
          | some local ↦ do
            (result, local', page') ← op addr (unpack_gen c idx) local page
            returns (
              result,
              record shard {
                local = set shard.local page_index local';
                shared = set shard.shared page_index page';
              },
            )
        ]
      ]

  -- The same with the page's remote free list.
  unfoldable pub on_remote :
      {A : Type 0}
      → A
      → (ℕ → ℕ → TransferStack → Shared T → Outcome (A × TransferStack × Shared T))
      → ℕ
      → Shard T
      → Outcome (A × Shard T)
  on_remote missing op idx shard =
      let (addr, page_index) = indices c idx in
      elim (get_elem? shard.shared page_index) [
        | none ↦ returns (missing, shard)
        | some page ↦ do
          (result, remote', page') ← op addr (unpack_gen c idx) page.remote page
          returns (
            result,
            record shard {
              shared = set shard.shared page_index (record page' { remote = remote' });
            },
          )
      ]

  -- The loop of `Shard::init_with` over the pages from the one at `page_idx`.
  unfoldable pub init_pages :
      {U : Type 0}
      → Clear T
      → (ℕ → World T → Outcome (Option U × World T))
      → (ℕ → List (Slot T → Slot T))
      → ℕ
      → List ℕ
      → List (Shared T)
      → Outcome (Option U × List ℕ × List (Shared T))
  init_pages cl init others page_idx locals [] = returns (none, locals, [])
  init_pages cl init others page_idx [] (page ∷ pages) = panics
  init_pages cl init others page_idx (local ∷ locals) (page ∷ pages) = do
    (result, local', page') ← init_with c cl init (others page_idx) local page
    elim result [
      | some u ↦ returns (some u, local' ∷ locals, page' ∷ pages)
      | none ↦ do
        (result', locals', pages') ← init_pages cl init others (page_idx + 1) locals pages
        returns (result', local' ∷ locals', page' ∷ pages')
    ]

  -- `Shard::init_with`
  unfoldable pub init_shard :
      {U : Type 0}
      → Clear T
      → (ℕ → World T → Outcome (Option U × World T))
      → (ℕ → List (Slot T → Slot T))
      → Shard T
      → Outcome (Option U × Shard T)
  init_shard cl init others shard = do
    (result, local', shared') ← init_pages cl init others 0 shard.local shard.shared
    returns (result, record shard { local = local'; shared = shared' })

module _ {T : Type 0} (c : Config) (idx : ℕ) (others : List (Slot (Option T) → Slot (Option T)))
    (shard : Shard (Option T)) where
  -- `Shard::take_local`
  unfoldable pub take_local : Outcome (Option T × Shard (Option T))
  take_local = on_local c none (λ addr gen. take c local_list addr gen others) idx shard

  -- `Shard::take_remote`
  unfoldable pub take_remote : Outcome (Option T × Shard (Option T))
  take_remote = on_remote c none (λ addr gen. take c remote_list addr gen others) idx shard

  -- `Shard::remove_local`
  unfoldable pub remove_local : Outcome (Bool × Shard (Option T))
  remove_local = on_local c false (λ addr gen. remove c local_list addr gen others) idx shard

  -- `Shard::remove_remote`
  unfoldable pub remove_remote : Outcome (Bool × Shard (Option T))
  remove_remote = on_remote c false (λ addr gen. remove c remote_list addr gen others) idx shard

module _ {T : Type 0} (c : Config) (cl : Clear T) (idx : ℕ) (others : List (Slot T → Slot T))
    (shard : Shard T) where
  -- `Shard::mark_clear_local`
  unfoldable pub mark_clear_local : Outcome (Bool × Shard T)
  mark_clear_local =
      on_local c false (λ addr gen. mark_clear c local_list cl addr gen others) idx shard

  -- `Shard::mark_clear_remote`
  unfoldable pub mark_clear_remote : Outcome (Bool × Shard T)
  mark_clear_remote =
      on_remote c false (λ addr gen. mark_clear c remote_list cl addr gen others) idx shard

  -- `Shard::clear_local`
  unfoldable pub clear_local : Outcome (Bool × Shard T)
  clear_local = on_local c false (λ addr gen. clear c local_list cl addr gen others) idx shard

  -- `Shard::clear_remote`
  unfoldable pub clear_remote : Outcome (Bool × Shard T)
  clear_remote = on_remote c false (λ addr gen. clear c remote_list cl addr gen others) idx shard

  -- `Shard::clear_after_release`, called by the thread `me`.
  unfoldable pub clear_after_release : ℕ → Outcome (Shard T)
  clear_after_release me = do
    (_, shard') ← (if me == shard.tid then clear_local else clear_remote)
    returns shard'
