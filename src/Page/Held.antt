-- ===== src/Page/Held.antt =====
-- A page (src/page/mod.rs) as a map from its slots in use to what they hold, beside the two lists of
-- those that are free.
use sharded_slab.Base.{
  ℕ, zero, suc, ◌+◌, ◌-◌, ◌≤◌, ◌≡◌, refl, ap, ◌∙◌, Bool, ◌==◌, ltb, eq→==, if◌then◌else◌,
  Bool-cases, ==→eq, inl, inr, List, [], ◌∷◌, Option, none, some, arith,
}
use sharded_slab.Page.{range_from}
use sharded_slab.Page.Chain.{Apart}

-- One where a test holds, and zero elsewhere.
abbrev pub one_if : Bool → ℕ
one_if b = if b then 1 else 0

-- How often a list has a slot.
abbrev pub count : ℕ → List ℕ → ℕ
count o [] = 0
count o (x ∷ xs) = one_if (o == x) + count o xs

abbrev pub Held : Type 0 → Type 0
Held A = ℕ → Option A

pub one_if_small : (b : Bool) → one_if b ≤ 1
one_if_small b = ground arith

module _ {A : Type 0} where
  abbrev pub in_use : Option A → ℕ
  in_use none = 0
  in_use (some a) = 1

  abbrev pub bind : ℕ → Option A → Held A → Held A
  bind x b held o = if o == x then b else held o

  -- Every slot of the page is on one of the two lists, once, or in use, and no other slot is.
  abbrev pub SharedOut : ℕ → List ℕ → List ℕ → Held A → Type 0
  SharedOut size xs ys held =
      (o : ℕ) → count o xs + count o ys + in_use (held o) ≡ one_if (ltb o size)

  pub in_use-none : (b : Option A) → in_use b ≡ 0 → b ≡ none
  in_use-none none h = refl
  in_use-none (some a) h = absurd (omega (arith, h))

  -- The first slot of the lists is not in use.
  pub first_free :
      (x n size : ℕ) (held : Held A)
      → one_if (x == x) + n + in_use (held x) ≡ one_if (ltb x size)
      → held x ≡ none
  first_free x n size held h =
      in_use-none (held x) (omega (arith, h, ap one_if (eq→== x x refl), one_if_small (ltb x size)))

  pub bind-same : (x : ℕ) (b : Option A) (held : Held A) → bind x b held x ≡ b
  bind-same x b held = rw (eq→== x x refl) refl

  -- A slot that leaves the lists for use.
  pub used-SharedOut :
      (x n size : ℕ) (a : A) (held : Held A) (o : ℕ)
      → held x ≡ none
      → one_if (o == x) + n + in_use (held o) ≡ one_if (ltb o size)
      → n + in_use (bind x (some a) held o) ≡ one_if (ltb o size)
  used-SharedOut x n size a held o free h = elim (Bool-cases (o == x)) [
    | inl e ↦
        let unused : in_use (held o) ≡ 0 = ap in_use (ap held (==→eq o x e) ∙ free) in
        rw e (omega (arith, unused, ap one_if e, h))
    | inr e ↦ rw e (omega (arith, ap one_if e, h))
  ]

  -- A slot that goes back to the lists.
  pub freed-SharedOut :
      (x n size : ℕ) (a : A) (held : Held A) (o : ℕ)
      → held x ≡ some a
      → n + in_use (held o) ≡ one_if (ltb o size)
      → one_if (o == x) + n + in_use (bind x none held o) ≡ one_if (ltb o size)
  freed-SharedOut x n size a held o taken h = elim (Bool-cases (o == x)) [
    | inl e ↦
        let used : in_use (held o) ≡ 1 = ap in_use (ap held (==→eq o x e) ∙ taken) in
        rw e (omega (arith, used, h))
    | inr e ↦ rw e (omega (arith, h))
  ]

pub count-Apart : (o : ℕ) (xs : List ℕ) → count o xs ≡ 0 → Apart o xs
count-Apart o [] h = tt
count-Apart o (x ∷ xs) h =
    ((λ e. omega (arith, h, ap one_if (eq→== o x e))), count-Apart o xs (omega (arith, h)))

pub count-range_from :
    (size n o : ℕ) → count o (range_from size n) ≡ one_if (ltb o (n + size)) - one_if (ltb o n)
count-range_from zero n o = ground arith
count-range_from (suc size) n o = ground (arith, count-range_from size (n + 1) o)

-- Of a page that has just been allocated.
pub range-SharedOut :
    (A : Type 0) (size : ℕ) → SharedOut {A = A} size (range_from size 0) [] (λ o. none)
range-SharedOut A size o = ground (arith, count-range_from size 0 o)
