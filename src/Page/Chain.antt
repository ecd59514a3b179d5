-- ===== src/Page/Chain.antt =====
-- The free lists of a page (src/page/mod.rs): chains of slots linked by `next`.
use sharded_slab.Base.{
  ℕ, zero, suc, ◌≤◌, ◌<◌, ◌≡◌, ◌≢◌, refl, ap, ◌∙◌, List, [], ◌∷◌, some, get_elem?, set, length, All,
  arith,
}
use sharded_slab.Slot.Memory.{Slot}

-- From `head` on, the chain runs through the offsets `xs` and then leaves the page.
abbrev pub IsChain : {T : Type 0} → ℕ → List (Slot T) → ℕ → List ℕ → Type 0
IsChain size slots head [] = size ≤ head
IsChain {T} size slots head (x ∷ xs) =
    (head ≡ x) × ((s : Slot T) × (get_elem? slots x ≡ some s) × IsChain size slots s.next xs)

abbrev pub Apart : ℕ → List ℕ → Type 0
Apart x ys = All (λ y. x ≢ y) ys

abbrev pub Distinct : List ℕ → Type 0
Distinct [] = Unit
Distinct (x ∷ xs) = Apart x xs × Distinct xs

pub get_elem?-set_same :
    {A : Type 0} (l : List A) (i : ℕ) {a b : A}
    → get_elem? l i ≡ some a
    → get_elem? (set l i b) i ≡ some b
get_elem?-set_same [] i h = cc
get_elem?-set_same (x ∷ l) zero h = refl
get_elem?-set_same (x ∷ l) (suc i) h = get_elem?-set_same l i h

pub get_elem?-set_other :
    {A : Type 0} (l : List A) (i j : ℕ) (b : A) → i ≢ j → get_elem? (set l i b) j ≡ get_elem? l j
get_elem?-set_other [] i j b h = refl
get_elem?-set_other (x ∷ l) zero zero b h = absurd (h refl)
get_elem?-set_other (x ∷ l) zero (suc j) b h = refl
get_elem?-set_other (x ∷ l) (suc i) zero b h = refl
get_elem?-set_other (x ∷ l) (suc i) (suc j) b h = get_elem?-set_other l i j b (λ e. h (ap suc e))

pub length-set : {A : Type 0} (l : List A) (i : ℕ) (b : A) → length (set l i b) ≡ length l
length-set [] i b = refl
length-set (x ∷ l) zero b = refl
length-set (x ∷ l) (suc i) b = ap suc (length-set l i b)

pub get_elem?-lt : {A : Type 0} (l : List A) (i : ℕ) {a : A} → get_elem? l i ≡ some a → i < length l
get_elem?-lt [] i h = absurd cc
get_elem?-lt (x ∷ l) zero h = omega arith
get_elem?-lt (x ∷ l) (suc i) h = omega (arith, get_elem?-lt l i h)

pub get_elem?-inside :
    {A : Type 0} (l : List A) (i : ℕ) → i < length l → (a : A) × (get_elem? l i ≡ some a)
get_elem?-inside [] i h = absurd (omega arith)
get_elem?-inside (x ∷ l) zero h = (x, refl)
get_elem?-inside (x ∷ l) (suc i) h = get_elem?-inside l i (omega arith)

-- A slot that is not on the chain may change.
pub IsChain-set :
    {T : Type 0} (size : ℕ) (slots : List (Slot T)) (o : ℕ) (t : Slot T) (head : ℕ) (xs : List ℕ)
    → Apart o xs
    → IsChain size slots head xs
    → IsChain size (set slots o t) head xs
IsChain-set size slots o t head [] apart h = h
IsChain-set size slots o t head (x ∷ xs) apart (e, (s, found, rest)) = (
  e,
  (
    s,
    get_elem?-set_other slots o x t apart.0 ∙ found,
    IsChain-set size slots o t s.next xs apart.1 rest,
  ),
)
