-- ===== src/Slab/History/Slots.antt =====
-- What calls one after another keep up of every slot of a slab (src/lib.rs), and of the entries that
-- refer to it.
use sharded_slab.Base.{
  ℕ, ◌≤◌, ◌≡◌, ◌≢◌, ◌⊎◌, refl, sym, ◌∙◌, subst, List, [], ◌∷◌, Option, none, some, All, length,
  arith,
}
use sharded_slab.Word.Fields.{two_pow-pos}
use sharded_slab.Config.{Config, ref_count_field, gen_field}
use sharded_slab.Key.{unpack_tid, unpack_addr}
use sharded_slab.Lifecycle.{State}
use sharded_slab.Lifecycle.Encode.{Life, IsLife, encode, encode_removing}
use sharded_slab.Slot.Memory.{Slot}
use sharded_slab.Slot.Ops.{new_slot}
use sharded_slab.Slot.Story.{option_clear}
use sharded_slab.Stack.{set_next}
use sharded_slab.Slab.Valid.{SlotOk, Ready}
use sharded_slab.Slab.History.{Live, with_live}

-- A slot without a value has no reference. One with a value is present, or marked and referred to.
abbrev pub Active : {T : Type 0} → Life → Option T → Type 0
Active l none = l.refs ≡ 0
Active l (some value) = (l.state ≡ State.present) ⊎ ((l.state ≡ State.marked) × (1 ≤ l.refs))

-- The entries refer to the value of the slot, in its generation.
abbrev pub Refers : {T : Type 0} → Life → Option T → T × ℕ → Type 0
Refers l item entry = (item ≡ some entry.0) × (l.gen ≡ entry.1)

pub record SlotValid {T : Type 0} (c : Config) (entries : List (T × ℕ)) (s : Slot (Option T))
    : Type 0 where
  pub life : Life
  pub is_life : IsLife c life
  pub word : s.lifecycle ≡ encode c life
  pub counted : life.refs ≡ length entries
  pub refer : All (Refers life s.item) entries
  pub active : Active life s.item

abbrev pub each_valid : {T : Type 0} → Config → Live T → ℕ → SlotOk T
each_valid c live t a s = SlotValid c (live t a) s

module _ {T : Type 0} {c : Config} where
  pub set_next-SlotValid :
      (entries : List (T × ℕ)) (next : ℕ) (s : Slot (Option T))
      → SlotValid c entries s
      → SlotValid c entries (set_next next s)
  set_next-SlotValid entries next s h = record {
    life = h.life;
    is_life = h.is_life;
    word = h.word;
    counted = h.counted;
    refer = h.refer;
    active = h.active;
  }

  -- A slot without a value has no entry.
  pub no_entries :
      (entries : List (T × ℕ)) (s : Slot (Option T))
      → SlotValid c entries s
      → s.item ≡ none
      → entries ≡ []
  no_entries [] s h e = refl
  no_entries (entry ∷ entries) s h e = let q = sym e ∙ h.refer.0.0 in cc

  -- Where no slot has been made there is no entry.
  pub Ready-no_entries : (live : Live T) (t a : ℕ) → Ready (each_valid c live t) a → live t a ≡ []
  unfolding new_slot
  Ready-no_entries live t a ready = no_entries (live t a) (new_slot option_clear 0) (ready 0) refl

  pub new_slot-SlotValid : (next : ℕ) → SlotValid {T = T} c [] (new_slot option_clear next)
  unfolding new_slot
  new_slot-SlotValid next = record {
    life = record { state = State.removing; refs = 0; gen = 0 };
    is_life = record {
      refs_fit = two_pow-pos (ref_count_field c).len;
      gen_fits = two_pow-pos (gen_field c).len;
    };
    word = sym (encode_removing c);
    counted = refl;
    refer = tt;
    active = refl;
  }

module _ {T : Type 0} (c : Config) (key : ℕ) (entries : List (T × ℕ)) (live : Live T) where
  pub with_live-same : with_live c key entries live (unpack_tid c key) (unpack_addr c key) ≡ entries
  with_live-same = ground arith

  pub with_live-other :
      (t a : ℕ)
      → (t ≢ unpack_tid c key) ⊎ (a ≢ unpack_addr c key)
      → with_live c key entries live t a ≡ live t a
  with_live-other t a h = ground arith

  -- The other slots stay as they are.
  pub keep_others :
      (t a : ℕ) (s : Slot (Option T))
      → (t ≢ unpack_tid c key) ⊎ (a ≢ unpack_addr c key)
      → each_valid c live t a s
      → each_valid c (with_live c key entries live) t a s
  keep_others t a s other h = subst (λ l. SlotValid c l s) (sym (with_live-other t a other)) h
