-- ===== src/Slot/Loop.antt =====
-- The compare-exchange loops of src/page/slot.rs under interference by other threads.
use sharded_slab.Base.{
  ℕ, ◌≡◌, ◌≢◌, refl, ◌∙◌, ap, ◌⊎◌, inl, inr, true, false, List, [], ◌∷◌, ◌==◌, Bool-cases, ==→eq,
  All, Moment, here, next,
}
use sharded_slab.Slot.Memory.{
  Slot, World, Outcome, returns, Attempt, finish, exchange, unreachable, after_others, load, store,
  cas_loop, run,
}

-- What the other threads may do: each of their interferences keeps `P`.
abbrev pub Keeps {ℓ} : {T : Type 0} → (Slot T → Type ℓ) → (Slot T → Slot T) → Type ℓ
Keeps {T} P f = (s : Slot T) → P s → P (f s)

-- How a round acts on the slot `at`.
abbrev pub Acts : {T A : Type 0} → (ℕ → Attempt A) → Slot T → A → Slot T → Type 0
Acts body at a after =
    ((body at.lifecycle ≡ finish a) × (after ≡ at))
    ⊎ ((new : ℕ) × (body at.lifecycle ≡ exchange new a) × (after ≡ store new at))

-- A call that returns `result`, having taken effect on `at`, where `P` holds: the slot `s` after
-- some of the others' interferences `fs`, the rest of which are still to come.
pub record Linear {T A : Type 0} (P : Slot T → Type 0) (body : ℕ → Attempt A)
    (fs : List (Slot T → Slot T)) (s : Slot T) (o : Outcome (A × World T)) : Type 0 where
  pub result : A
  pub final : World T
  pub at : Slot T
  pub returned : o ≡ returns (result, final)
  pub moment : Moment fs s at final.others
  pub holds : P at
  pub acts : Acts body at result final.slot
  pub others_keep : All (Keeps P) final.others

module _ {T : Type 0} (P : Slot T → Type 0) where
  pub load-holds : (w : World T) → All (Keeps P) w.others → P w.slot → P (load w).slot
  unfolding load after_others
  load-holds w keep p = go w.others keep
    where
      go : (fs : List (Slot T → Slot T)) → All (Keeps P) fs → P (after_others fs w.slot).slot
      go [] k = p
      go (f ∷ fs) k = k.0 w.slot p

  pub load-Keeps : (w : World T) → All (Keeps P) w.others → All (Keeps P) (load w).others
  unfolding load after_others
  load-Keeps w keep = go w.others keep
    where
      go :
          (fs : List (Slot T → Slot T))
          → All (Keeps P) fs
          → All (Keeps P) (after_others fs w.slot).others
      go [] k = tt
      go (f ∷ fs) k = k.1

  pub load-Moment :
      (w : World T) {at : Slot T} {rest : List (Slot T → Slot T)}
      → Moment (load w).others (load w).slot at rest
      → Moment w.others w.slot at rest
  unfolding load after_others
  load-Moment w {at} {rest} = go w.others
    where
      go :
          (fs : List (Slot T → Slot T))
          → Moment (after_others fs w.slot).others (after_others fs w.slot).slot at rest
          → Moment fs w.slot at rest
      go [] m = m
      go (f ∷ fs) m = next m

module _ {T A : Type 0} (P : Slot T → Type 0) (body : ℕ → Attempt A)
    (safe : (s : Slot T) → P s → body s.lifecycle ≢ unreachable) where
  quiet :
      (s : Slot T)
      → P s
      → (a : Attempt A) → body s.lifecycle ≡ a
      → Linear P body [] s (cas_loop body [] s)
  unfolding cas_loop
  quiet s p (finish a) e = record {
    result = a;
    final = record { slot = s; others = [] };
    at = s;
    returned = rw (e, cas_loop) refl;
    moment = here;
    holds = p;
    acts = inl (e, refl);
    others_keep = tt;
  }
  quiet s p (exchange new a) e = record {
    result = a;
    final = record { slot = store new s; others = [] };
    at = s;
    returned = rw (e, cas_loop) refl;
    moment = here;
    holds = p;
    acts = inr (new, e, refl);
    others_keep = tt;
  }
  quiet s p unreachable e = absurd (safe s p e)

  module _ (f : Slot T → Slot T) (fs : List (Slot T → Slot T)) (s : Slot T) (p : P s)
      (keep : All (Keeps P) (f ∷ fs)) where
    -- The exchange succeeds: it acts on the slot as the others have left it.
    won :
        (new : ℕ) (a : A)
        → body s.lifecycle ≡ exchange new a
        → ((f s).lifecycle == s.lifecycle) ≡ true
        → Linear P body (f ∷ fs) s (cas_loop body (f ∷ fs) s)
    unfolding cas_loop
    won new a e same = record {
      result = a;
      final = record { slot = store new (f s); others = fs };
      at = f s;
      returned = rw (e, cas_loop) (rw same refl);
      moment = next here;
      holds = keep.0 s p;
      acts = inr (new, ap body (==→eq _ _ same) ∙ e, refl);
      others_keep = keep.1;
    }

    lost :
        (new : ℕ) (a : A)
        → body s.lifecycle ≡ exchange new a
        → ((f s).lifecycle == s.lifecycle) ≡ false
        → Linear P body fs (f s) (cas_loop body fs (f s))
        → Linear P body (f ∷ fs) s (cas_loop body (f ∷ fs) s)
    unfolding cas_loop
    lost new a e other rest = record {
      result = rest.result;
      final = rest.final;
      at = rest.at;
      returned = rw (e, cas_loop) (rw other rest.returned);
      moment = next rest.moment;
      holds = rest.holds;
      acts = rest.acts;
      others_keep = rest.others_keep;
    }

    interfered :
        (a : Attempt A)
        → body s.lifecycle ≡ a
        → Linear P body fs (f s) (cas_loop body fs (f s))
        → Linear P body (f ∷ fs) s (cas_loop body (f ∷ fs) s)
    unfolding cas_loop
    interfered (finish a) e rest = record {
      result = a;
      final = record { slot = s; others = f ∷ fs };
      at = s;
      returned = rw (e, cas_loop) refl;
      moment = here;
      holds = p;
      acts = inl (e, refl);
      others_keep = keep;
    }
    interfered (exchange new a) e rest = elim (Bool-cases ((f s).lifecycle == s.lifecycle)) [
      | inl same ↦ won new a e same
      | inr other ↦ lost new a e other rest
    ]
    interfered unreachable e rest = absurd (safe s p e)

  pub cas_loop-Linear :
      (fs : List (Slot T → Slot T)) (s : Slot T)
      → All (Keeps P) fs
      → P s
      → Linear P body fs s (cas_loop body fs s)
  cas_loop-Linear [] s keep p = quiet s p (body s.lifecycle) refl
  cas_loop-Linear (f ∷ fs) s keep p =
      interfered f fs s p keep (body s.lifecycle) refl
        (cas_loop-Linear fs (f s) keep.1 (keep.0 s p))

  -- A loop with its load returns, whatever the others do that keeps `P`.
  pub run-Linear :
      (w : World T) → All (Keeps P) w.others → P w.slot → Linear P body w.others w.slot (run body w)
  unfolding run
  run-Linear w keep p = record {
    result = r.result;
    final = r.final;
    at = r.at;
    returned = r.returned;
    moment = load-Moment P w r.moment;
    holds = r.holds;
    acts = r.acts;
    others_keep = r.others_keep;
  }
    where
      r : Linear P body (load w).others (load w).slot (cas_loop body (load w).others (load w).slot)
      r =
          cas_loop-Linear (load w).others (load w).slot (load-Keeps P w keep)
            (load-holds P w keep p)
