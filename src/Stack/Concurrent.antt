-- ===== src/Stack/Concurrent.antt =====
-- The loads, links and exchanges of `push`, and the swap of `pop_all`, of src/page/stack.rs, of
-- several threads in any order.
use sharded_slab.Base.{
  ℕ, ◌≡◌, ◌≢◌, ◌⊎◌, inl, inr, refl, sym, ap, ◌∙◌, subst, Bool, true, false, ◌==◌, eq→==, Bool-cases,
  if◌then◌else◌, List, [], ◌∷◌, Option, none, some, arith,
}
use mathlib.Core.Option.{some-injective}
use sharded_slab.Config.{Config, null_addr}
use sharded_slab.Page.Chain.{Apart, Distinct}

-- A thread in the loop of `push`: the slot, the head that it has seen, and whether `before` has
-- stored the head in the slot since.
pub record Pushing : Type 0 where
  pub slot : ℕ
  pub seen : ℕ
  pub linked : Bool

-- What a function is at one number is another thing.
abbrev pub update : {A : Type 0} → ℕ → A → (ℕ → A) → ℕ → A
update x a f y = if y == x then a else f y

-- The stack and its slots: the head, the links of the slots, and the threads in the loop. The list
-- has the slots that have been pushed since the last `pop_all`, the latest first.
pub data Pushed (c : Config) : ℕ → (ℕ → ℕ) → (ℕ → Option Pushing) → List ℕ → Type 0 where
  starts : (next : ℕ → ℕ) → Pushed c (null_addr c) next (λ t. none) []
  loads :
      {head : ℕ} {next : ℕ → ℕ} {threads : ℕ → Option Pushing} {on : List ℕ}
      → Pushed c head next threads on
      → (t slot : ℕ) → threads t ≡ none
      → Apart slot on
      → ((u : ℕ) (p : Pushing) → threads u ≡ some p → p.slot ≢ slot)
      → Pushed c head next
          (update t (some (record { slot = slot; seen = head; linked = false })) threads)
          on
  links :
      {head : ℕ} {next : ℕ → ℕ} {threads : ℕ → Option Pushing} {on : List ℕ}
      → Pushed c head next threads on
      → (t : ℕ) (p : Pushing) → threads t ≡ some p
      → Pushed c head
          (update p.slot p.seen next)
          (update t (some (record p { linked = true })) threads)
          on
  exchanges :
      {head : ℕ} {next : ℕ → ℕ} {threads : ℕ → Option Pushing} {on : List ℕ}
      → Pushed c head next threads on
      → (t : ℕ) (p : Pushing) → threads t ≡ some p
      → p.linked ≡ true
      → p.seen ≡ head
      → Pushed c p.slot next (update t none threads) (p.slot ∷ on)
  fails :
      {head : ℕ} {next : ℕ → ℕ} {threads : ℕ → Option Pushing} {on : List ℕ}
      → Pushed c head next threads on
      → (t : ℕ) (p : Pushing) → threads t ≡ some p
      → p.linked ≡ true
      → p.seen ≢ head
      → Pushed c head next (update t (some (record p { seen = head; linked = false })) threads) on
  pops :
      {head : ℕ} {next : ℕ → ℕ} {threads : ℕ → Option Pushing} {on : List ℕ}
      → Pushed c head next threads on
      → Pushed c (null_addr c) next threads []

-- The links lead from the head through the slots of the list to the end.
abbrev pub Linked : Config → (ℕ → ℕ) → ℕ → List ℕ → Type 0
Linked c next head [] = head ≡ null_addr c
Linked c next head (x ∷ xs) = (head ≡ x) × Linked c next (next x) xs

Linked-update :
    (c : Config) (next : ℕ → ℕ) (head x n : ℕ) (xs : List ℕ)
    → Apart x xs
    → Linked c next head xs
    → Linked c (update x n next) head xs
Linked-update c next head x n [] apart h = h
Linked-update c next head x n (y ∷ xs) (other, apart) (at, h) =
    let same : update x n next y ≡ next y = ground (arith, other) in
    (
      at,
      subst (λ m. Linked c (update x n next) m xs) (sym same)
          (Linked-update c next (next y) x n xs apart h),
    )

pub update-cases :
    (t u : ℕ) (b : Option Pushing) (threads : ℕ → Option Pushing) {p : Pushing}
    → update t b threads u ≡ some p
    → ((u ≡ t) × (b ≡ some p)) ⊎ ((u ≢ t) × (threads u ≡ some p))
update-cases t u b threads h = elim (Bool-cases (u == t)) [
  | inl e ↦ inl (ground (arith, e), ground (arith, e, h))
  | inr e ↦ inr ((λ q. ground (arith, q, e)), ground (arith, e, h))
]

record Good (c : Config) (head : ℕ) (next : ℕ → ℕ) (threads : ℕ → Option Pushing) (on : List ℕ)
    : Type 0 where
  pub chain : Linked c next head on
  pub distinct : Distinct on
  pub apart : (t : ℕ) (p : Pushing) → threads t ≡ some p → Apart p.slot on
  pub alone :
      (t u : ℕ) (p q : Pushing) → threads t ≡ some p → threads u ≡ some q → t ≢ u → p.slot ≢ q.slot
  pub stored : (t : ℕ) (p : Pushing) → threads t ≡ some p → p.linked ≡ true → next p.slot ≡ p.seen

module _ (t : ℕ) (b : Option Pushing) (threads : ℕ → Option Pushing) where
  update-Apart :
      (on : List ℕ)
      → ((p : Pushing) → b ≡ some p → Apart p.slot on)
      → ((u : ℕ) (p : Pushing) → threads u ≡ some p → Apart p.slot on)
      → (u : ℕ) (p : Pushing) → update t b threads u ≡ some p
      → Apart p.slot on
  update-Apart on new old u p h = elim (update-cases t u b threads h) [
    | inl (at, e) ↦ new p e
    | inr (other, e) ↦ old u p e
  ]

  update_alone :
      ((p : Pushing) (u : ℕ) (q : Pushing)
        → b ≡ some p
        → threads u ≡ some q
        → u ≢ t
        → p.slot ≢ q.slot)
      → ((u w : ℕ) (p q : Pushing)
          → threads u ≡ some p
          → threads w ≡ some q
          → u ≢ w
          → p.slot ≢ q.slot)
      → (u w : ℕ) (p q : Pushing) → update t b threads u ≡ some p
      → update t b threads w ≡ some q
      → u ≢ w
      → p.slot ≢ q.slot
  update_alone new old u w p q h k apart = elim (update-cases t u b threads h) [
    | inl (at, e) ↦ elim (update-cases t w b threads k) [
      | inl (at', e') ↦ absurd (apart (at ∙ sym at'))
      | inr (other', e') ↦ new p w q e e' other'
    ]
    | inr (other, e) ↦ elim (update-cases t w b threads k) [
      | inl (at', e') ↦ (λ same. new q u p e' e other (sym same))
      | inr (other', e') ↦ old u w p q e e' apart
    ]
  ]

module _ {c : Config} {head : ℕ} {next : ℕ → ℕ} {threads : ℕ → Option Pushing} {on : List ℕ}
    (g : Good c head next threads on) (t : ℕ) where
  -- A thread that keeps its slot.
  same_slot-Good :
      (p p' : Pushing) (next' : ℕ → ℕ)
      → threads t ≡ some p
      → p'.slot ≡ p.slot
      → Linked c next' head on
      → ((u : ℕ) (q : Pushing)
          → update t (some p') threads u ≡ some q
          → q.linked ≡ true
          → next' q.slot ≡ q.seen)
      → Good c head next' (update t (some p') threads) on
  same_slot-Good p p' next' has same chain stored = record {
    chain = chain;
    distinct = g.distinct;
    apart =
        update-Apart t (some p') threads on
          (λ q e.
            subst (λ s. Apart s on) (sym same ∙ ap (λ r. r.slot) (some-injective p' q e))
              (g.apart t p has))
          g.apart;
    alone =
        update_alone t (some p') threads
          (λ q u r e e' other alike.
            g.alone t u p r has e' (λ z. other (sym z))
              (sym same ∙ ap (λ r. r.slot) (some-injective p' q e) ∙ alike))
          g.alone;
    stored = stored;
  }

steps-Good :
    (c : Config) {head : ℕ} {next : ℕ → ℕ} {threads : ℕ → Option Pushing} {on : List ℕ}
    → Pushed c head next threads on
    → Good c head next threads on
steps-Good c (starts next) = record {
  chain = refl;
  distinct = tt;
  apart = λ t p h. absurd cc;
  alone = λ t u p q h. absurd cc;
  stored = λ t p h. absurd cc;
}
steps-Good c (loads {head} {next} {threads} {on} r t slot idle off other) =
    let g = steps-Good c r in
    let new : Pushing = record { slot = slot; seen = head; linked = false } in
    record {
      chain = g.chain;
      distinct = g.distinct;
      apart =
          update-Apart t (some new) threads on
            (λ q e. subst (λ s. Apart s on) (ap (λ r. r.slot) (some-injective new q e)) off)
            g.apart;
      alone =
          update_alone t (some new) threads
            (λ q u r' e e' away alike.
              other u r' e' (sym alike ∙ sym (ap (λ r. r.slot) (some-injective new q e))))
            g.alone;
      stored = λ u q h l. elim (update-cases t u (some new) threads h) [
        | inl (at, e) ↦ absurd (let z = ap (λ r. r.linked) (some-injective new q e) ∙ l in cc)
        | inr (away, e) ↦ g.stored u q e l
      ];
    }
steps-Good c (links {head} {next} {threads} {on} r t p has) =
    let g = steps-Good c r in
    same_slot-Good g t p (record p { linked = true }) (update p.slot p.seen next) has refl
      (Linked-update c next head p.slot p.seen on (g.apart t p has) g.chain)
      (λ u q h l. elim (update-cases t u (some (record p { linked = true })) threads h) [
        | inl (at, e) ↦
            subst (λ z. update p.slot p.seen next z.slot ≡ z.seen)
              (some-injective (record p { linked = true }) q e)
              (ap (λ b. if b then p.seen else next p.slot) (eq→== p.slot p.slot refl))
        | inr (away, e) ↦
            let apart = g.alone u t q p e has away in
            let same : update p.slot p.seen next q.slot ≡ next q.slot = ground (arith, apart) in
            same ∙ g.stored u q e l
      ])
steps-Good c (exchanges {head} {next} {threads} {on} r t p has linked seen) =
    let g = steps-Good c r in
    record {
      chain =
          (refl, subst (λ m. Linked c next m on) (sym (g.stored t p has linked ∙ seen)) g.chain);
      distinct = (g.apart t p has, g.distinct);
      apart = λ u q h. elim (update-cases t u none threads h) [
        | inl (at, e) ↦ absurd cc
        | inr (away, e) ↦ (g.alone u t q p e has away, g.apart u q e)
      ];
      alone = update_alone t none threads (λ q u r' e e' away. absurd cc) g.alone;
      stored = λ u q h l. elim (update-cases t u none threads h) [
        | inl (at, e) ↦ absurd cc
        | inr (away, e) ↦ g.stored u q e l
      ];
    }
steps-Good c (fails {head} {next} {threads} {on} r t p has linked other) =
    let g = steps-Good c r in
    same_slot-Good g t p (record p { seen = head; linked = false }) next has refl g.chain
      (λ u q h l.
        elim (update-cases t u (some (record p { seen = head; linked = false })) threads h) [
          | inl (at, e) ↦ absurd (
              let z =
                ap (λ r. r.linked) (some-injective (record p { seen = head; linked = false }) q e)
                ∙ l in
              cc)
          | inr (away, e) ↦ g.stored u q e l
        ])
steps-Good c (pops {head} {next} {threads} {on} r) =
    let g = steps-Good c r in
    record { chain = refl; distinct = tt; apart = λ t p h. tt; alone = g.alone; stored = g.stored }

-- However the loads, links and exchanges of any number of threads in `push` follow each other, and
-- `pop_all` in between, the links lead from the head through exactly the slots whose exchange has
-- succeeded since the last `pop_all`, the latest first, and through each of them once, if a thread
-- pushes no slot that is on the stack or that another thread is pushing.
pub none_lost :
    {c : Config} {head : ℕ} {next : ℕ → ℕ} {threads : ℕ → Option Pushing} {on : List ℕ}
    → Pushed c head next threads on
    → Linked c next head on × Distinct on
none_lost {c} r = let g = steps-Good c r in (g.chain, g.distinct)
