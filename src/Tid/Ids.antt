-- ===== src/Tid/Ids.antt =====
-- The ids that the threads hold and those that are free (src/tid.rs).
use sharded_slab.Base.{
  ℕ, zero, suc, ◌≤◌, ◌<◌, ◌≡◌, ◌≢◌, refl, sym, ap, subst, ◌∙◌, ◌⊎◌, inl, inr, List, [], ◌∷◌, ◌++◌,
  none, some, get_elem?, set, All, arith,
}
use mathlib.Core.Option.{some-injective}
use sharded_slab.Tid.{Registration}
use sharded_slab.Page.Chain.{Apart, Distinct}

-- `id` can have been given out: it is below the registry's counter and fits the field.
abbrev pub Given : ℕ → ℕ → ℕ → Type 0
Given bound max id = (id < bound) × (id ≤ max)

pub record Ids (bound max : ℕ) (threads : List Registration) (free : List ℕ) : Type 0 where
  pub unique :
      (i j id : ℕ)
      → get_elem? threads i ≡ some (some id)
      → get_elem? threads j ≡ some (some id)
      → i ≡ j
  pub held_apart : (i id : ℕ) → get_elem? threads i ≡ some (some id) → Apart id free
  pub held_given : (i id : ℕ) → get_elem? threads i ≡ some (some id) → Given bound max id
  pub free_distinct : Distinct free
  pub free_given : All (Given bound max) free

pub set_cases :
    {A : Type 0} (l : List A) (i j : ℕ) (a b : A)
    → get_elem? (set l i a) j ≡ some b
    → ((i ≡ j) × (a ≡ b)) ⊎ ((i ≢ j) × (get_elem? l j ≡ some b))
set_cases [] i j a b h = absurd cc
set_cases (x ∷ l) zero zero a b h = inl (refl, some-injective a b h)
set_cases (x ∷ l) zero (suc j) a b h = inr ((λ e. absurd (omega (arith, e))), h)
set_cases (x ∷ l) (suc i) zero a b h = inr ((λ e. absurd (omega (arith, e))), h)
set_cases (x ∷ l) (suc i) (suc j) a b h = elim (set_cases l i j a b h) [
  | inl (e, d) ↦ inl (ap suc e, d)
  | inr (e, d) ↦ inr ((λ p. e (omega (arith, p))), d)
]

pub set-same : {A : Type 0} (l : List A) (i : ℕ) (a : A) → get_elem? l i ≡ some a → set l i a ≡ l
set-same [] i a h = refl
set-same (x ∷ l) zero a h = ap (λ y. y ∷ l) (sym (some-injective x a h))
set-same (x ∷ l) (suc i) a h = ap (λ m. x ∷ m) (set-same l i a h)

Apart-snoc : (y x : ℕ) (xs : List ℕ) → Apart y xs → y ≢ x → Apart y (xs ++ (x ∷ []))
Apart-snoc y x [] a h = (h, tt)
Apart-snoc y x (z ∷ xs) (a, b) h = (a, Apart-snoc y x xs b h)

Distinct-snoc : (x : ℕ) (xs : List ℕ) → Distinct xs → Apart x xs → Distinct (xs ++ (x ∷ []))
Distinct-snoc x [] d a = (tt, tt)
Distinct-snoc x (z ∷ xs) (p, d) (a, b) =
    (Apart-snoc z x xs p (λ e. a (sym e)), Distinct-snoc x xs d b)

Given-snoc :
    {bound max : ℕ} (x : ℕ) (xs : List ℕ)
    → All (Given bound max) xs
    → Given bound max x
    → All (Given bound max) (xs ++ (x ∷ []))
Given-snoc x [] a g = (g, tt)
Given-snoc x (z ∷ xs) (a, b) g = (a, Given-snoc x xs b g)

Given-mono :
    {bound bound' : ℕ} (max : ℕ) (xs : List ℕ)
    → bound ≤ bound'
    → All (Given bound max) xs
    → All (Given bound' max) xs
Given-mono max [] h a = tt
Given-mono max (x ∷ xs) h ((p, q), b) = ((omega (arith, h, p), q), Given-mono max xs h b)

pub Given-Apart :
    {bound : ℕ} (max x : ℕ) (xs : List ℕ) → bound ≤ x → All (Given bound max) xs → Apart x xs
Given-Apart max x [] h a = tt
Given-Apart max x (z ∷ xs) h ((p, q), b) =
    ((λ e. absurd (omega (arith, e, h, p))), Given-Apart max x xs h b)

module _ {bound max : ℕ} {threads : List Registration} {free : List ℕ} where
  pub Ids-mono :
      {bound' : ℕ} → bound ≤ bound' → Ids bound max threads free → Ids bound' max threads free
  Ids-mono h s = record {
    unique = s.unique;
    held_apart = s.held_apart;
    held_given = λ i id e. (omega (arith, h, s.held_given i id e), (s.held_given i id e).1);
    free_distinct = s.free_distinct;
    free_given = Given-mono max free h s.free_given;
  }

  -- A thread takes the id `x`, which nobody holds.
  pub Ids-take :
      {free' : List ℕ} (i x : ℕ)
      → Ids bound max threads free
      → ((j : ℕ) → get_elem? threads j ≢ some (some x))
      → Given bound max x
      → Apart x free'
      → ((y : ℕ) → Apart y free → Apart y free')
      → Distinct free'
      → All (Given bound max) free'
      → Ids bound max (set threads i (some x)) free'
  Ids-take {free'} i x s nobody given off sub distinct all = record {
    unique = λ j k id p q. elim (set_cases threads i j (some x) (some id) p) [
      | inl (e, d) ↦ elim (set_cases threads i k (some x) (some id) q) [
        | inl (e', d') ↦ sym e ∙ e'
        | inr (e', d') ↦ absurd (nobody k (d' ∙ ap some (sym d)))
      ]
      | inr (e, d) ↦ elim (set_cases threads i k (some x) (some id) q) [
        | inl (e', d') ↦ absurd (nobody j (d ∙ ap some (sym d')))
        | inr (e', d') ↦ s.unique j k id d d'
      ]
    ];
    held_apart = λ j id p. elim (set_cases threads i j (some x) (some id) p) [
      | inl (e, d) ↦ subst (λ y. Apart y free') (some-injective x id d) off
      | inr (e, d) ↦ sub id (s.held_apart j id d)
    ];
    held_given = λ j id p. elim (set_cases threads i j (some x) (some id) p) [
      | inl (e, d) ↦ subst (λ y. Given bound max y) (some-injective x id d) given
      | inr (e, d) ↦ s.held_given j id d
    ];
    free_distinct = distinct;
    free_given = all;
  }

  -- The thread at the place `i` gives its id back.
  pub Ids-give :
      (i x : ℕ)
      → Ids bound max threads free
      → get_elem? threads i ≡ some (some x)
      → Ids bound max (set threads i none) (free ++ (x ∷ []))
  Ids-give i x s h = record {
    unique = λ j k id p q. s.unique j k id (still j id p).1 (still k id q).1;
    held_apart = λ j id p. Apart-snoc id x free (s.held_apart j id (still j id p).1) (λ e.
        (still j id p).0 (s.unique i j id (h ∙ ap (λ y. some (some y)) (sym e)) (still j id p).1));
    held_given = λ j id p. s.held_given j id (still j id p).1;
    free_distinct = Distinct-snoc x free s.free_distinct (s.held_apart i x h);
    free_given = Given-snoc x free s.free_given (s.held_given i x h);
  }
    where
      still :
          (j id : ℕ)
          → get_elem? (set threads i none) j ≡ some (some id)
          → (i ≢ j) × (get_elem? threads j ≡ some (some id))
      still j id p = elim (set_cases threads i j none (some id) p) [
        | inl (e, d) ↦ absurd cc
        | inr r ↦ r
      ]
