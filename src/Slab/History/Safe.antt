-- ===== src/Slab/History/Safe.antt =====
-- What holds of a slab (src/lib.rs) after any calls of any threads, one after another.
use sharded_slab.Base.{
  ℕ, zero, suc, ◌≡◌, inl, inr, refl, sym, ap, ◌∙◌, subst, Option-cases, Bool-cases, [], Option,
  none, some, length, get_elem?, arith,
}
use mathlib.Core.Option
use mathlib.Core.Option.{some-injective}
use sharded_slab.Config.{Config, max_shards, validate}
use sharded_slab.Word.Fields.{two_pow-pos}
use sharded_slab.Config.Valid.{IsConfig, max_shards_lem, threads_rounded}
use sharded_slab.Slot.Memory.{Outcome, returns}
use sharded_slab.Shard.{Shard}
use sharded_slab.Shard.Array.{nulls, new_array}
use sharded_slab.Slab.{Slab, Entry, new_with_config}
use sharded_slab.Slab.Valid.{SlotOk, IsValid}
use sharded_slab.Slab.Valid.Moves.{Ends}
use sharded_slab.Slab.History.{
  Live, Reachable, starts, inserts, gets, gets_owned, looks, removes, takes, drops, drops_owned,
  answered,
}
use sharded_slab.Slab.History.Slots.{each_valid, new_slot-SlotValid}
use sharded_slab.Slab.History.Getting.{get-Ends, get_owned-Ends}
use sharded_slab.Slab.History.Removing.{take-Ends, remove-Ends}
use sharded_slab.Slab.History.Dropping.{drop-Ends, drop_owned-Ends}
use sharded_slab.Slab.History.Looking.{contains-Ends}
use sharded_slab.Slab.History.Inserting.{insert-Ends, insert-panics}

nulls-none :
    {T : Type 0} (n i : ℕ) (ptr : Option (Shard T)) → get_elem? (nulls n) i ≡ some ptr → ptr ≡ none
nulls-none zero i ptr h = absurd cc
nulls-none (suc n) zero ptr h = sym (some-injective _ _ h)
nulls-none (suc n) (suc i) ptr h = nulls-none n i ptr h

length-nulls : (T : Type 0) (n : ℕ) → length (nulls {T = T} n) ≡ n
length-nulls T zero = refl
length-nulls T (suc n) = omega (arith, length-nulls T n)

module _ {T : Type 0} {c : Config} (v : IsConfig c) where
  new_array-IsValid : IsValid c (each_valid c (λ t a. [])) (new_array {T = Option T} c)
  unfolding new_array
  new_array-IsValid = record {
    sized = length-nulls (Option T) (max_shards c);
    highest = omega (arith, max_shards_lem v, two_pow-pos (threads_rounded v).exponent);
    covered = λ t shard h. absurd (let e = nulls-none (max_shards c) t (some shard) h in cc);
    shard = λ t shard h. absurd (let e = nulls-none (max_shards c) t (some shard) h in cc);
    no_shard = λ t h a next. new_slot-SlotValid next;
    no_place = λ t h a next. new_slot-SlotValid next;
  }

  new-IsValid :
      (slab : Slab T) → new_with_config c ≡ returns slab → IsValid c (each_valid c (λ t a. [])) slab
  unfolding new_with_config
  new-IsValid slab h = elim (Bool-cases (validate c)) [
    | inl e ↦
        let same : new_array c ≡ slab = (let q = rw (new_with_config, e) at h in cc) in
        subst (IsValid c (each_valid c (λ t a. []))) same new_array-IsValid
    | inr e ↦ absurd (let q = rw (new_with_config, e) at h in cc)
  ]

returned_pair :
    {A S : Type 0} {a a' : A} {s s' : S}
    → ◌≡◌ {A = Outcome (A × S)} (returns (a, s)) (returns (a', s'))
    → (a ≡ a') × (s ≡ s')
returned_pair h = (cc, cc)

-- A call has the answer and the slab that it returns.
ended :
    {T A : Type 0} {c : Config} {ok : ℕ → SlotOk T} {answer a : A} {o : Outcome (A × Slab T)}
    {slab : Slab T} (e : Ends c ok answer o)
    → o ≡ returns (a, slab)
    → (answer ≡ a) × IsValid c ok slab
ended {c = c} {ok = ok} {answer = answer} {a = a} {slab = slab} e h =
    let (says, same) = returned_pair (sym e.returned ∙ h) in
    (says, subst (IsValid c ok) same e.valid)

-- The value of the entry that a lookup makes of a value.
Option-map_back :
    {A B : Type 0} (f : A → B) (g : B → A) (x : Option A)
    → ((a : A) → g (f a) ≡ a)
    → x ≡ Option.map g (Option.map f x)
Option-map_back f g none back = refl
Option-map_back f g (some a) back = ap some (sym (back a))

-- The entries that a lookup leaves are told by its answer.
looked_up :
    {T E : Type 0} {c : Config} (live : Live T) (value : Option T) (make : T → E) (value_of : E → T)
    {entry : Option E} {o : Outcome (Option E × Slab T)} {slab : Slab T} (key : ℕ)
    (e : Ends c (each_valid c (answered c key value live)) (Option.map make value) o)
    → ((x : T) → value_of (make x) ≡ x)
    → o ≡ returns (entry, slab)
    → IsValid c (each_valid c (answered c key (Option.map value_of entry) live)) slab
looked_up {c = c} live value make value_of {entry} {o} {slab} key e back h =
    let (says, valid) = ended e h in
    let told : value ≡ Option.map value_of entry =
      Option-map_back make value_of value back ∙ ap (Option.map value_of) says in
    subst (λ a. IsValid c (each_valid c (answered c key a live)) slab) told valid

module _ {T : Type 0} {c : Config} (v : IsConfig c) where
  -- After any calls of any threads, one after another, the slab is well-formed: its array has its
  -- length, and no shard above the highest index; each page of each shard has its place among the
  -- addresses; where it has storage, its two free lists are chains through its slots, without
  -- repetitions and with no slot in common; every slot is on one of them, or has a value, and is
  -- present or marked for removal; it counts as many references as there are entries that are alive
  -- with its address, and they all have its value and its generation; and no entry is alive where
  -- there is no slot. `get`, `get_owned`, `contains`, `remove` and `take` are called with no key of the
  -- generation in which a free slot will be handed out next.
  pub history-IsValid :
      {slab : Slab T} {live : Live T} → Reachable c slab live → IsValid c (each_valid c live) slab
  history-IsValid (starts slab h) = new-IsValid v slab h
  history-IsValid (inserts {slab} {slab'} {live} r me value key h) =
      let valid = history-IsValid r in
      elim (Option-cases (get_elem? slab.shards me)) [
        | inl e ↦ absurd (let q = sym (insert-panics v valid me value e) ∙ h in cc)
        | inr (ptr, e) ↦ (ended (insert-Ends v valid me value ptr e).1 h).1
      ]
  history-IsValid (gets r me key entry later h) =
      let got = get-Ends v (history-IsValid r) me key later in
      looked_up _ got.0 (λ x. record { value = x; key = key }) (λ e. e.value) key got.1 (λ x. refl)
        h
  history-IsValid (gets_owned r me key entry later h) =
      let got = get_owned-Ends v (history-IsValid r) me key later in
      looked_up _ got.0 (λ x. record { value = x; key = key }) (λ e. e.value) key got.1 (λ x. refl)
        h
  history-IsValid (looks r me key answer later h) =
      (ended (contains-Ends v (history-IsValid r) me key later).1 h).1
  history-IsValid (removes r me key answer later h) =
      (ended (remove-Ends v (history-IsValid r) me key later).1 h).1
  history-IsValid (takes r me key taken later h) =
      elim (take-Ends v (history-IsValid r) me key later) [
        | inl (t, e) ↦ (ended e h).1
        | inr (some_live, spun) ↦ absurd (let q = sym spun ∙ h in cc)
      ]
  history-IsValid (drops r me entry rest held h) =
      (ended (drop-Ends v (history-IsValid r) me entry rest held) h).1
  history-IsValid (drops_owned r me entry rest held h) =
      let like : Entry _ = record { value = entry.value; key = entry.key } in
      (ended (drop_owned-Ends v (history-IsValid r) me like rest held entry refl) h).1
