-- ===== src/Shard/Threads.antt =====
-- The functions of src/shard.rs that come in two, for the shard's own thread and for the others, on
-- the slot that a key stands for.
use sharded_slab.Base.{
  ℕ, ◌≡◌, refl, ap, ◌∙◌, Bool, true, false, List, [], ◌∷◌, Option, All, if◌then◌else◌, set,
}
use sharded_slab.Config.{Config}
use sharded_slab.Key.{unpack_gen}
use sharded_slab.Slot.Memory.{Slot, World, Outcome, returns}
use sharded_slab.Slot.Ops.{FreeList}
use sharded_slab.Slot.Quiet.{quiet}
use sharded_slab.Stack.{TransferStack, push, set_next, local_list, remote_list}
use sharded_slab.Stack.Laws.{push-Pushed}
use sharded_slab.Page.Ops.{on_slot}
use sharded_slab.Shard.{Shard, with_shard_slot, on_local, on_remote}
use sharded_slab.Shard.Array.{Array, put_shard, on_shard, on_shard-found}
use sharded_slab.Shard.Located.{
  Located, offset, put, page_with, put-Located, put_local-Located, put_remote-Located,
  with_shard_slot_located, on_local_located, on_remote_located,
}

-- Equal but for the link.
abbrev pub Alike : {T : Type 0} → Slot T → Slot T → Type 0
Alike s t = (s.lifecycle ≡ t.lifecycle) × (s.item ≡ t.item)

unconditional : (fs : List (ℕ → ℕ)) → All (λ f. (n : ℕ) → Unit {0} → Unit {0}) fs
unconditional [] = tt
unconditional (f ∷ fs) = ((λ n u. tt), unconditional fs)

pub push-Alike : {T : Type 0} (o : ℕ) (s : Slot T) (st : TransferStack) → Alike (push o s st).0 s
push-Alike o s st =
    let p = push-Pushed (λ n. Unit {0}) o s st (unconditional st.others) tt in
    (ap (λ r. r.0.lifecycle) p.linked, ap (λ r. r.0.item) p.linked)

push-head : {T : Type 0} (o : ℕ) (s : Slot T) (st : TransferStack) → (push o s st).1.head ≡ o
push-head o s st =
    let p = push-Pushed (λ n. Unit {0}) o s st (unconditional st.others) tt in
    ap (λ r. r.1.head) p.linked

-- An operation of the slot that a key stands for: the shard's own thread frees with the local list,
-- another one with the remote list.
module _ {T A : Type 0} (c : Config) (key : ℕ) (missing : A)
    (op : (F : Type 0) → FreeList T F → ℕ → ℕ → F → World T → Outcome (A × F × World T)) where
  abbrev pub either_thread : Bool → Shard T → Outcome (A × Shard T)
  either_thread own shard =
      if own
      then on_local c missing (λ addr gen. on_slot c missing (op ℕ local_list gen) addr []) key
          shard
      else on_remote c missing
          (λ addr gen. on_slot c missing (op TransferStack remote_list gen) addr []) key shard

-- The slot heads its page's local list, or the remote one.
abbrev pub Heads :
    {T : Type 0} {c : Config} {idx key : ℕ} {array : Array T}
    → Bool
    → Located c idx key array
    → Type 0
Heads true z = z.local ≡ offset z
Heads false z = z.page.remote.head ≡ offset z

-- A call that has returned an answer and an array where the key still finds its slot, which is now
-- `s` but for the link.
pub record Left {T A : Type 0} (c : Config) (idx key : ℕ) (s : Slot T) (answer : A)
    (o : Outcome (A × Array T)) : Type 0 where
  pub array : Array T
  pub returned : o ≡ returns (answer, array)
  pub located : Located c idx key array
  pub alike : Alike located.slot s

module _ {T : Type 0} {c : Config} {idx key : ℕ} {array : Array T}
    (z : Located c idx key array) where
  pub with_shard_slot-Left :
      {U : Type 0} (f : World T → Outcome (Option U × World T)) (missing answer : Option U)
      (s : Slot T)
      → f (quiet z.slot) ≡ returns (answer, quiet s)
      → Left c idx key s answer
          (on_shard missing (λ shard. with_shard_slot c key f [] shard) idx array)
  with_shard_slot-Left f missing answer s e = record {
    array = put z s;
    returned = with_shard_slot_located z f [] missing answer (quiet s) e;
    located = put-Located z s;
    alike = (refl, refl);
  }

  -- The same of a call on the shard of the key.
  pub record Moved {A : Type 0} (s : Slot T) (answer : A) (o : Outcome (A × Shard T)) : Type 0 where
    pub shard : Shard T
    pub returned : o ≡ returns (answer, shard)
    pub located : Located c idx key (put_shard idx shard array)
    pub alike : Alike located.slot s

  abbrev pub Moved-Left :
      {A B : Type 0} {s : Slot T} {answer : A} {o : Outcome (A × Shard T)} (m : Moved s answer o)
      (missing result : B) (op : Shard T → Outcome (B × Shard T))
      → op z.shard ≡ returns (result, m.shard)
      → Left c idx key s result (on_shard missing op idx array)
  Moved-Left m missing result op e = record {
    array = put_shard idx m.shard array;
    returned = on_shard-found missing op idx array z.shard m.shard result z.held e;
    located = m.located;
    alike = m.alike;
  }

  -- An operation of the slot, for the shard's own thread and for another one.
  module _ {A : Type 0} (missing answer : A)
      (op : (F : Type 0) → FreeList T F → ℕ → ℕ → F → World T → Outcome (A × F × World T)) where
    abbrev pub by_thread : Bool → Outcome (A × Shard T)
    by_thread own = either_thread c key missing op own z.shard

    abbrev local-Moved :
        (s : Slot T) (head : ℕ)
        → op ℕ local_list (unpack_gen c key) (offset z) z.local (quiet z.slot)
          ≡ returns (answer, head, quiet s)
        → Moved s answer (by_thread true)
    local-Moved s head e = record {
      shard = record (z.shard) {
        local = set z.shard.local z.page_index head;
        shared = set z.shard.shared z.page_index (page_with z s);
      };
      returned = on_local_located z missing (op ℕ local_list) [] answer head _ e;
      located = put_local-Located z s head;
      alike = (refl, refl);
    }

    abbrev remote-Moved :
        (s : Slot T) (remote' : TransferStack)
        → op TransferStack remote_list (unpack_gen c key) (offset z) z.page.remote (quiet z.slot)
          ≡ returns (answer, remote', quiet s)
        → Moved s answer (by_thread false)
    remote-Moved s remote' e = record {
      shard = record (z.shard) {
        shared = set z.shard.shared z.page_index (record (page_with z s) { remote = remote' });
      };
      returned = on_remote_located z missing (op TransferStack remote_list) [] answer remote' _ e;
      located = put_remote-Located z s remote';
      alike = (refl, refl);
    }

    -- An operation that frees the slot.
    pub freed-Moved :
        (s : Slot T)
        → ((F : Type 0) (fl : FreeList T F) (free : F)
            → op F fl (unpack_gen c key) (offset z) free (quiet z.slot)
              ≡ returns
                  (answer, (fl.push (offset z) s free).1, quiet (fl.push (offset z) s free).0))
        → (own : Bool)
        → (m : Moved s answer (by_thread own)) × Heads own m.located
          × (m.located.shard.tid ≡ z.shard.tid)
    freed-Moved s e true =
        let m = local-Moved (set_next z.local s) (offset z) (e ℕ local_list z.local) in
        (
          record { shard = m.shard; returned = m.returned; located = m.located; alike = m.alike },
          refl,
          refl,
        )
    freed-Moved s e false =
        let (t, remote') = push (offset z) s z.page.remote in
        let m = remote-Moved t remote' (e TransferStack remote_list z.page.remote) in
        let p = push-Alike (offset z) s z.page.remote in
        (
          record {
            shard = m.shard;
            returned = m.returned;
            located = m.located;
            alike = (m.alike.0 ∙ p.0, m.alike.1 ∙ p.1);
          },
          push-head (offset z) s z.page.remote,
          refl,
        )

    -- An operation that leaves the lists alone.
    pub kept-Moved :
        (s : Slot T)
        → ((F : Type 0) (fl : FreeList T F) (free : F)
            → op F fl (unpack_gen c key) (offset z) free (quiet z.slot)
              ≡ returns (answer, free, quiet s))
        → (own : Bool) → Moved s answer (by_thread own)
    kept-Moved s e true = local-Moved s z.local (e ℕ local_list z.local)
    kept-Moved s e false = remote-Moved s z.page.remote (e TransferStack remote_list z.page.remote)
