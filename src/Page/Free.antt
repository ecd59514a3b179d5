-- ===== src/Page/Free.antt =====
-- The two free lists of an allocated page (src/page/mod.rs), and what a push does to them.
use sharded_slab.Base.{
  ℕ, ◌≤◌, ◌<◌, ◌≡◌, zero, suc, subst, refl, sym, ap, ◌∙◌, List, [], ◌∷◌, some, get_elem?, set,
  length, All, arith,
}
use sharded_slab.Config.{Config, null_addr}
use sharded_slab.Slot.Memory.{Slot}
use sharded_slab.Stack.{TransferStack, push, push_loop, load_head, set_next, push_local}
use sharded_slab.Page.{Shared, put_slot}
use sharded_slab.Page.Chain.{IsChain, Apart, Distinct, length-set, IsChain-set}

-- The local list holds the offsets `xs` and the remote one `ys`, in this order, and no offset is on
-- them twice.
pub record FreeLists {T : Type 0} (c : Config) (page : Shared T) (local : ℕ) (slots : List (Slot T))
    (xs ys : List ℕ) : Type 0 where
  pub allocated : page.slab ≡ some slots
  pub sized : length slots ≡ page.size
  pub null_outside : page.size ≤ null_addr c
  pub local_chain : IsChain page.size slots local xs
  pub remote_chain : IsChain page.size slots page.remote.head ys
  pub remote_end : ys ≡ [] → page.remote.head ≡ null_addr c
  pub remote_quiet : page.remote.others ≡ []
  pub local_distinct : Distinct xs
  pub remote_distinct : Distinct ys
  pub apart : All (λ x. Apart x ys) xs

pub put_slot_allocated :
    {T : Type 0} (page : Shared T) (slots : List (Slot T)) (o : ℕ) (u : Slot T)
    → page.slab ≡ some slots
    → put_slot o u page ≡ record page { slab = some (set slots o u) }
put_slot_allocated page slots o u e = rw e refl

-- The page once the remote list has been popped.
abbrev pub drained : {T : Type 0} → Config → Shared T → Shared T
drained c page = record page { remote = record { head = null_addr c; others = [] } }

pub push-quiet :
    {T : Type 0} (new_head : ℕ) (slot : Slot T) (st : TransferStack)
    → st.others ≡ []
    → push new_head slot st ≡ (set_next st.head slot, record { head = new_head; others = [] })
unfolding push push_loop load_head
push-quiet new_head slot st h = ap (λ fs. push new_head slot (record st { others = fs })) h

Apart-sym :
    (x : ℕ) (ys xs : List ℕ)
    → All (λ z. Apart z ys) xs
    → Apart x xs
    → All (λ z. Apart z (x ∷ ys)) xs
Apart-sym x ys [] a b = tt
Apart-sym x ys (z ∷ xs) (a, later) (b, others) =
    ((λ e. b (sym e), a), Apart-sym x ys xs later others)

module _ {T : Type 0} {c : Config} {page : Shared T} {local : ℕ} {slots : List (Slot T)}
    {xs ys : List ℕ} (f : FreeLists c page local slots xs ys) (o : ℕ) (t : Slot T)
    (inside : o < page.size) (new_local : Apart o xs) (new_remote : Apart o ys) where
  open f use {
    allocated, sized, null_outside, local_chain, remote_chain, remote_end, remote_quiet,
    local_distinct, remote_distinct, apart,
  }

  found : (u : Slot T) → get_elem? (set slots o u) o ≡ some u
  found u = go slots o (omega (arith, sized))
    where
      go : (l : List (Slot T)) (i : ℕ) → i < length l → get_elem? (set l i u) i ≡ some u
      go [] i h = absurd (omega arith)
      go (s ∷ l) zero h = refl
      go (s ∷ l) (suc i) h = go l i (omega arith)

  put_slot_lem : (u : Slot T) → put_slot o u page ≡ record page { slab = some (set slots o u) }
  put_slot_lem u = rw allocated refl

  -- A slot that is pushed on the local list is its first.
  pub push_local-FreeLists :
      FreeLists c
        (put_slot o (push_local o t local).0 page)
        (push_local o t local).1
        (set slots o (set_next local t))
        (o ∷ xs)
        ys
  push_local-FreeLists =
      subst (λ p. FreeLists c p o (set slots o (set_next local t)) (o ∷ xs) ys)
        (sym (put_slot_lem (set_next local t)))
        (record {
          allocated = refl;
          sized = length-set slots o (set_next local t) ∙ sized;
          null_outside = null_outside;
          local_chain = (
            refl,
            (
              set_next local t,
              found (set_next local t),
              IsChain-set page.size slots o (set_next local t) local xs new_local local_chain,
            ),
          );
          remote_chain =
              IsChain-set page.size slots o (set_next local t) page.remote.head ys new_remote
                remote_chain;
          remote_end = remote_end;
          remote_quiet = remote_quiet;
          local_distinct = (new_local, local_distinct);
          remote_distinct = remote_distinct;
          apart = (new_remote, apart);
        })

  -- A slot that is pushed on the remote list is its first.
  pub push-FreeLists :
      FreeLists c
        (record (put_slot o (push o t page.remote).0 page) { remote = (push o t page.remote).1 })
        local
        (set slots o (set_next page.remote.head t))
        xs
        (o ∷ ys)
  push-FreeLists =
      subst
        (λ r.
          FreeLists c (record (put_slot o r.0 page) { remote = r.1 }) local (set slots o linked) xs
            (o ∷ ys))
        (sym (push-quiet o t page.remote remote_quiet))
        (subst
          (λ p.
            FreeLists c (record p { remote = record { head = o; others = [] } }) local
              (set slots o linked) xs (o ∷ ys))
          (sym (put_slot_lem linked))
          (record {
            allocated = refl;
            sized = length-set slots o linked ∙ sized;
            null_outside = null_outside;
            local_chain = IsChain-set page.size slots o linked local xs new_local local_chain;
            remote_chain = (
              refl,
              (
                linked,
                found linked,
                IsChain-set page.size slots o linked page.remote.head ys new_remote remote_chain,
              ),
            );
            remote_end = λ e. absurd cc;
            remote_quiet = refl;
            local_distinct = local_distinct;
            remote_distinct = (new_remote, remote_distinct);
            apart = Apart-sym o ys xs apart new_local;
          }))
    where
      linked : Slot T
      linked = set_next page.remote.head t

module _ {T : Type 0} {c : Config} {page : Shared T} {local : ℕ} {slots : List (Slot T)}
    {xs ys : List ℕ} where
  -- A slot that is on neither list may change.
  pub set-FreeLists :
      FreeLists c page local slots xs ys
      → (o : ℕ) (t : Slot T) → Apart o xs
      → Apart o ys
      → FreeLists c (record page { slab = some (set slots o t) }) local (set slots o t) xs ys
  set-FreeLists f o t off_local off_remote = record {
    allocated = refl;
    sized = length-set slots o t ∙ f.sized;
    null_outside = f.null_outside;
    local_chain = IsChain-set page.size slots o t local xs off_local f.local_chain;
    remote_chain = IsChain-set page.size slots o t page.remote.head ys off_remote f.remote_chain;
    remote_end = f.remote_end;
    remote_quiet = f.remote_quiet;
    local_distinct = f.local_distinct;
    remote_distinct = f.remote_distinct;
    apart = f.apart;
  }

  -- Without the first slot of the local list.
  pub rest-FreeLists :
      (x : ℕ) (f : FreeLists c page local slots (x ∷ xs) ys)
      → FreeLists c page (f.local_chain.1.0).next slots xs ys
  rest-FreeLists x f = record {
    allocated = f.allocated;
    sized = f.sized;
    null_outside = f.null_outside;
    local_chain = f.local_chain.1.2;
    remote_chain = f.remote_chain;
    remote_end = f.remote_end;
    remote_quiet = f.remote_quiet;
    local_distinct = f.local_distinct.1;
    remote_distinct = f.remote_distinct;
    apart = f.apart.1;
  }

-- With the remote list moved to the local one, and without its first slot.
pub moved-FreeLists :
    {T : Type 0} {c : Config} {page : Shared T} {local : ℕ} {slots : List (Slot T)} {ys : List ℕ}
    (y : ℕ) (f : FreeLists c page local slots [] (y ∷ ys))
    → FreeLists c (drained c page) (f.remote_chain.1.0).next slots ys []
moved-FreeLists {ys = ys} y f = record {
  allocated = f.allocated;
  sized = f.sized;
  null_outside = f.null_outside;
  local_chain = f.remote_chain.1.2;
  remote_chain = f.null_outside;
  remote_end = λ e. refl;
  remote_quiet = refl;
  local_distinct = f.remote_distinct.1;
  remote_distinct = tt;
  apart = go ys;
}
  where
    go : (zs : List ℕ) → All (λ z. Apart z []) zs
    go [] = tt
    go (z ∷ zs) = (tt, go zs)

-- With the remote list gone.
pub lost-FreeLists :
    {T : Type 0} {c : Config} {page : Shared T} {local : ℕ} {slots : List (Slot T)} {ys : List ℕ}
    (y : ℕ) (f : FreeLists c page local slots [] (y ∷ ys))
    → FreeLists c (drained c page) local slots [] []
lost-FreeLists y f = record {
  allocated = f.allocated;
  sized = f.sized;
  null_outside = f.null_outside;
  local_chain = f.local_chain;
  remote_chain = f.null_outside;
  remote_end = λ e. refl;
  remote_quiet = refl;
  local_distinct = tt;
  remote_distinct = tt;
  apart = tt;
}
