-- ===== src/Stack/Laws.antt =====
-- `push` of src/page/stack.rs while other threads change the head.
use sharded_slab.Base.{
  ℕ, ◌≡◌, refl, subst, Bool-cases, ◌==◌, ==→eq, inl, inr, List, [], ◌∷◌, All, Moment, here, next,
}
use sharded_slab.Slot.Memory.{Slot}
use sharded_slab.Stack.{TransferStack, push, push_loop, load_head, set_next}

-- How `push` ends: `at` is the head at the moment of the exchange, as some of the others' changes
-- have left it. The slot links to it, and the head is the new one, with the rest still to come.
pub record Pushed {T : Type 0} (P : ℕ → Type 0) (new_head : ℕ) (slot : Slot T)
    (others : List (ℕ → ℕ)) (head : ℕ) (o : Slot T × TransferStack) : Type 0 where
  pub at : ℕ
  pub holds : P at
  pub rest : List (ℕ → ℕ)
  pub moment : Moment others head at rest
  pub linked : o ≡ (set_next at slot, record { head = new_head; others = rest })

module _ (P : ℕ → Type 0) {T : Type 0} (new_head : ℕ) where
  push_loop-Pushed :
      (fs : List (ℕ → ℕ)) (seen : ℕ) (slot : Slot T)
      → All (λ f. (n : ℕ) → P n → P (f n)) fs
      → P seen
      → Pushed P new_head slot fs seen (push_loop new_head fs seen slot)
  unfolding push_loop
  push_loop-Pushed [] seen slot keep p = record {
    at = seen;
    holds = p;
    rest = [];
    moment = here;
    linked = refl;
  }
  push_loop-Pushed (f ∷ fs) seen slot keep p = elim (Bool-cases (f seen == seen)) [
    | inl won ↦ record {
      at = seen;
      holds = p;
      rest = fs;
      moment = next (subst (λ n. Moment fs (f seen) n fs) (==→eq _ _ won) here);
      linked = rw won refl;
    }
    | inr lost ↦
        let r = push_loop-Pushed fs (f seen) (set_next seen slot) keep.1 (keep.0 seen p) in
        record {
          at = r.at;
          holds = r.holds;
          rest = r.rest;
          moment = next r.moment;
          linked = rw lost r.linked;
        }
  ]

  -- `push` makes the slot the head and links it to the head that its exchange replaces: the head as
  -- it is after some of the other threads' changes, in their order, with the rest of them still to
  -- come; what holds of the first head and what the other threads keep up holds of that head.
  pub push-Pushed :
      (slot : Slot T) (st : TransferStack)
      → All (λ f. (n : ℕ) → P n → P (f n)) st.others
      → P st.head
      → Pushed P new_head slot st.others st.head (push new_head slot st)
  unfolding push load_head
  push-Pushed slot st keep p = go st.others keep
    where
      go :
          (fs : List (ℕ → ℕ))
          → All (λ f. (n : ℕ) → P n → P (f n)) fs
          → Pushed P new_head slot fs st.head (push new_head slot (record st { others = fs }))
      go [] k = push_loop-Pushed [] st.head slot tt p
      go (f ∷ fs) k =
          let r = push_loop-Pushed fs (f st.head) slot k.1 (k.0 st.head p) in
          record {
            at = r.at;
            holds = r.holds;
            rest = r.rest;
            moment = next r.moment;
            linked = r.linked;
          }
