-- ===== src/Slab/Filling.antt =====
-- The closure of `Slab::insert` (src/lib.rs) on a slot without references.
use mathlib.Core.Option
use sharded_slab.Base.{ℕ, ◌+◌, ◌%◌, ◌^◌, ◌≡◌, refl, ap, [], Option, some}
use sharded_slab.Pack.{pack}
use sharded_slab.Config.{Config, gen_field}
use sharded_slab.Config.Valid.{IsConfig}
use sharded_slab.Lifecycle.Encode.{Life, IsLife, encode}
use sharded_slab.Slot.Memory.{Slot, returns, ◌>>=◌}
use sharded_slab.Slot.Quiet.{quiet}
use sharded_slab.Slot.Insert.{insert-present, present_life}
use sharded_slab.Page.Alloc.{Succeeds}
use sharded_slab.Slab.{insert_init}

module _ {T : Type 0} {c : Config} (v : IsConfig c) (s : Slot (Option T)) (l : Life)
    (i : IsLife c l) (word : s.lifecycle ≡ encode c l) (no_refs : l.refs ≡ 0) (value : T) where
  -- The slot with the value in it.
  abbrev pub filled_slot : Slot (Option T)
  filled_slot = record s { lifecycle = encode c (present_life 0 l); item = some value }

  pub filling :
      (idx : ℕ)
      → insert_init c value idx (quiet s)
        ≡ returns (some (pack c.width (gen_field c) l.gen idx), quiet filled_slot)
  unfolding insert_init
  filling idx =
      ap
        (λ o. o >>= λ (gen, _, w').
          returns (Option.map (λ g. pack c.width (gen_field c) g idx) gen, w'))
        (insert-present v l i (some value) (quiet s) tt word no_refs)

  abbrev pub fills : (prev_sz x : ℕ) → Succeeds c (insert_init c value) [] prev_sz x s
  fills prev_sz x = record {
    value = pack c.width (gen_field c) l.gen ((x + prev_sz) % 2 ^ c.width);
    world = quiet filled_slot;
    ran = filling ((x + prev_sz) % 2 ^ c.width);
    keeps_link = refl;
  }
