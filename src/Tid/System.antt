-- ===== src/Tid/System.antt =====
-- Threads that ask for their id and end (src/tid.rs), in any order.
use sharded_slab.Base.{
  ℕ, zero, suc, ◌≡◌, Bool, false, not, ◌&&◌, List, [], ◌∷◌, none, some, get_elem?, set,
}
use sharded_slab.Config.{Config}
use sharded_slab.Tid.{Registry, Registration, new_registry, current, drop_registration}

-- The cells of the threads and the registry. When a thread has ended, its place is free for another.
pub record System : Type 0 where
  pub registry : Registry
  pub threads : List Registration

abbrev pub no_threads : ℕ → List Registration
no_threads zero = []
no_threads (suc n) = none ∷ no_threads n

-- One step of the thread at the place `i`. `unwinding` tells whether a thread may ask for its id while
-- it unwinds. All threads use the configuration `c`.
pub data Step (c : Config) (unwinding : Bool) : System → System → Type 0 where
  -- It calls `Tid::current`, and panics where that gives no id.
  asks :
      {s : System} {r : Registration} (i : ℕ) (panicking : Bool)
      → (panicking && not unwinding) ≡ false
      → get_elem? s.threads i ≡ some r
      → Step c unwinding s (record {
        registry = (current c panicking r s.registry).2;
        threads = set s.threads i (current c panicking r s.registry).1;
      })
  -- It ends, and its `Registration` is dropped.
  ends :
      {s : System} {r : Registration} (i : ℕ)
      → get_elem? s.threads i ≡ some r
      → Step c unwinding s
          (record { registry = drop_registration r s.registry; threads = set s.threads i none })

-- The states after `n` steps, for `places` threads at a time.
pub data Reachable (c : Config) (unwinding : Bool) (places : ℕ) : ℕ → System → Type 0 where
  starts :
      Reachable c unwinding places 0
        (record { registry = new_registry; threads = no_threads places })
  steps :
      {n : ℕ} {s s' : System}
      → Reachable c unwinding places n s
      → Step c unwinding s s'
      → Reachable c unwinding places (suc n) s'
