-- ===== src/Tests/PageMaps.antt =====
-- The properties of a page as a map (src/page/mod.rs) at concrete inputs.
use sharded_slab.Base.{
  ℕ, zero, suc, ◌≡◌, refl, subst, [], ◌∷◌, Option, none, some, get_elem?, arith,
}
use mathlib.Core.Option.{some-injective}
use sharded_slab.Word.Fields.{two_pow-pos}
use sharded_slab.Config.{null_addr, ref_count_field, gen_field}
use sharded_slab.Lifecycle.{State}
use sharded_slab.Lifecycle.Encode.{encode}
use sharded_slab.Slot.Memory.{Slot}
use sharded_slab.Slot.Lives.{life, no_ref-IsLife}
use sharded_slab.Slot.Story.{option_clear}
use sharded_slab.Page.{new_shared, new_local, allocate}
use sharded_slab.Page.Held.{Held, bind}
use sharded_slab.Slab.PageMap.{Stands, Models}
use sharded_slab.Slab.PageMap.Starting.{allocate-Models}
use sharded_slab.Slab.PageMap.Inserting.{Inserts, page-Inserts}
use sharded_slab.Slab.PageMap.Taking.{Takes, page-Takes}
use sharded_slab.Tests.{default_config-IsConfig, null_addr_default}
use sharded_slab.Tests.Pages.{c, page, slots, local_free, used-IsLife}

page-Inserts_example :
    Inserts {T = ℕ} c (allocate c option_clear (new_shared c 4 32)) new_local (λ o. none) 42
page-Inserts_example =
    page-Inserts default_config-IsConfig 42
      (allocate-Models c 4 32 (omega arith) (omega (arith, null_addr_default)) (omega arith))

-- The first slot of the page holds 42.
abbrev held : Held (ℕ × ℕ)
held = bind 0 (some (42, 5)) (λ o. none)

slots-Stands : (o : ℕ) (s : Slot (Option ℕ)) → get_elem? slots o ≡ some s → Stands c (held o) s
unfolding encode gen_field ref_count_field
slots-Stands zero s h =
    subst (Stands c (some (42, 5))) (some-injective _ _ h) (used-IsLife, refl, refl)
slots-Stands (suc zero) s h = subst (Stands c none) (some-injective _ _ h) (
  life State.removing 0 0,
  no_ref-IsLife default_config-IsConfig State.removing 0 (two_pow-pos (gen_field c).len),
  refl,
  refl,
  refl,
)
slots-Stands (suc (suc o)) s h = absurd cc

page-Models : Models c (page (null_addr c)) 1 held
page-Models = record {
  slots = slots;
  xs = 1 ∷ [];
  ys = [];
  lists = local_free;
  shared_out = λ o. ground arith;
  stands = slots-Stands;
  in_word = omega arith;
}

page-Takes_example : Takes c (page (null_addr c)) 1 held 0 42 5
page-Takes_example = page-Takes default_config-IsConfig page-Models 0 42 5 refl
