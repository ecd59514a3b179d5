-- ===== src/Base.antt =====
-- The names that the other modules share: the libraries', passed on, and those of two children.
mod Tests
mod Loops
pub use Tests.*
pub use Loops.*
pub use Prim.Native.Nat.{ℕ, zero, suc, ◌+◌, ◌-◌, ◌*◌, ◌/◌, ◌%◌, ◌^◌, ◌≤◌, ◌<◌}
pub use mathlib.Core.Path.{◌≡◌, refl, sym, ap, subst, ◌∙◌}
pub use mathlib.Core.Logic.{◌≢◌, ◌↔◌, ◌⊎◌, inl, inr}
pub use mathlib.Core.Bool.{Bool, true, false, not, ◌&&◌, ◌||◌}
pub use mathlib.Core.Option.{Option, none, some}
pub use mathlib.Core.List.{List, [], ◌∷◌, ◌++◌, map}
pub use native.Mathlib.Omega.{arith}

-- `at` is what a sequence of changes has made of `s` at some moment, with `rest` still to come.
pub data Moment {A : Type 0} : List (A → A) → A → A → List (A → A) → Type 0 where
  here : {fs : List (A → A)} {s : A} → Moment fs s s fs
  next :
      {f : A → A} {fs : List (A → A)} {s at : A} {rest : List (A → A)}
      → Moment fs (f s) at rest
      → Moment (f ∷ fs) s at rest
